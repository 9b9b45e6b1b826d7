-- ===== src/Lexer.antt =====
-- lunr.QueryLexer of docs/ui/lunr.js: the lexer of the search box's query language. A state
-- function of the source is a clause of `step`. `continue` in the loop of `lexText` is a return
-- to that state, so one round reads one character.
pub mod Ordered
pub mod Moves
pub mod Bounds
mod Tests
use kubearchive.Prelude.{
  Bool, List, Option, [], get_elem?, if◌then◌else◌, leb, length, ltb, none, some, suc, zero, ℕ,
  ◌&&◌, ◌*◌, ◌++◌, ◌+◌, ◌-◌, ◌==◌, ◌∷◌,
}
use kubearchive.Text.{Text, is_space, slice}

pub data LexemeType : Type 0 where
  field term edit_distance boost presence : LexemeType

pub record Lexeme : Type 0 where
  pub type : LexemeType
  pub str : Text
  pub start : ℕ
  pub end : ℕ

-- `length` is that of `str`.
pub record Lexer : Type 0 where
  pub lexemes : List Lexeme
  pub str : Text
  pub pos : ℕ
  pub start : ℕ
  pub escape_char_positions : List ℕ

pub data State : Type 0 where
  lex_text lex_field lex_term lex_edit_distance lex_boost lex_eos : State

unfoldable pub new : Text → Lexer
new str = record { lexemes = []; str = str; pos = 0; start = 0; escape_char_positions = [] }

-- The loop of `sliceString` over the escape positions, with the parts joined as they come.
unfoldable pub slice_parts : Text → List ℕ → ℕ → ℕ → Text
slice_parts str [] slice_start pos = slice str slice_start pos
slice_parts str (slice_end ∷ rest) slice_start pos =
    slice str slice_start slice_end ++ slice_parts str rest (slice_end + 1) pos

unfoldable pub slice_string : Lexer → Text
unfolding slice_parts
slice_string l = slice_parts l.str l.escape_char_positions l.start l.pos

unfoldable pub emit : LexemeType → Lexer → Lexer
emit type l = record l {
  lexemes =
      l.lexemes ++ record { type = type; str = slice_string l; start = l.start; end = l.pos } ∷ [];
  escape_char_positions = [];
  start = l.pos;
}

unfoldable pub escape_character : Lexer → Lexer
escape_character l = record l {
  escape_char_positions = l.escape_char_positions ++ (l.pos - 1) ∷ [];
  pos = l.pos + 1;
}

-- `none` is `QueryLexer.EOS`.
unfoldable pub next : Lexer → Option ℕ × Lexer
next l =
    if leb (length l.str) l.pos
    then (none, l)
    else (get_elem? l.str l.pos, record l { pos = l.pos + 1 })

unfoldable pub width : Lexer → ℕ
width l = l.pos - l.start

unfoldable pub ignore : Lexer → Lexer
ignore l =
    let pos = if l.start == l.pos then l.pos + 1 else l.pos in record l { pos = pos; start = pos }

unfoldable pub backup : Lexer → Lexer
backup l = record l { pos = l.pos - 1 }

abbrev pub is_digit : ℕ → Bool
is_digit c = ltb 47 c && ltb c 58

-- What a round of `acceptDigitRun` does with `char`; `rest` is the result of the next round. The
-- code of the first unit of `EOS` is no digit, and the end is not backed up over.
unfoldable pub after_digit : Option ℕ → Lexer → Lexer → Lexer
after_digit none l rest = l
after_digit (some c) l rest = if is_digit c then rest else backup l

-- The `do` loop of `acceptDigitRun`, on fuel.
unfoldable pub accept_digit_run : ℕ → Lexer → Lexer
unfolding after_digit
accept_digit_run zero l = l
accept_digit_run (suc fuel) l =
    let rest = accept_digit_run fuel (next l).1 in after_digit (next l).0 (next l).1 rest

unfoldable pub more : Lexer → Bool
more l = ltb l.pos (length l.str)

-- The tail that `~` and `^` share in `lexText`.
unfoldable pub emit_pending : Lexer → Lexer
emit_pending l = let l' = backup l in if ltb 0 (width l') then emit term l' else l'

-- The rest of a round of `lexText` after `char = lexer.next()`.
unfoldable pub lex_char : ℕ → Lexer → Option State × Lexer
lex_char c l =
    if c == 92
    then (some lex_text, escape_character l)
    else if c == b':'
    then (some lex_field, l)
    else if c == b'~'
    then (some lex_edit_distance, emit_pending l)
    else if c == b'^'
    then (some lex_boost, emit_pending l)
    else if c == b'+' && width l == 1
    then (some lex_text, emit presence l)
    else if c == b'-' && width l == 1
    then (some lex_text, emit presence l)
    else if is_space c
    then (some lex_term, l)
    else (some lex_text, l)

-- A round of `lexText` on what `lexer.next()` returned.
unfoldable pub lex_next : Option ℕ → Lexer → Option State × Lexer
lex_next none l = (some lex_eos, l)
lex_next (some c) l = lex_char c l

unfoldable pub lex_digits : LexemeType → Lexer → Lexer
lex_digits type l = let l' = ignore l in emit type (accept_digit_run (length l.str) l')

-- One call of a state function; no next state ends the run.
unfoldable pub step : State → Lexer → Option State × Lexer
unfolding lex_next
step lex_text l = lex_next (next l).0 (next l).1
step lex_field l = (some lex_text, ignore (emit field (backup l)))
step lex_term l =
    let l' = ignore (if ltb 1 (width l) then emit term (backup l) else l) in
    (if more l' then some lex_text else none, l')
step lex_edit_distance l = (some lex_text, lex_digits edit_distance l)
step lex_boost l = (some lex_text, lex_digits boost l)
step lex_eos l = (none, if ltb 0 (width l) then emit term l else l)

-- The loop of `run`; `none` means that the fuel ran out.
unfoldable pub run_from : ℕ → Option State → Lexer → Option Lexer
run_from fuel none l = some l
run_from zero (some s) l = none
run_from (suc fuel) (some s) l = let r = step s l in run_from fuel r.0 r.1

abbrev pub fuel_for : Text → ℕ
fuel_for str = 2 * length str + 8

-- `run` on a new lexer: its lexemes.
unfoldable pub lex : Text → Option (List Lexeme)
lex str = elim (run_from (fuel_for str) (some lex_text) (new str)) [
  | none ↦ none
  | some l ↦ some l.lexemes
]
