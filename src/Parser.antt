-- ===== src/Parser.antt =====
-- lunr.QueryParser of docs/ui/lunr.js: from the lexemes to the clauses of a query. A state function
-- of the source is a clause of `step`.
pub mod Entries
pub mod Switches
pub mod Clauses
pub mod Spans
mod Tests
use kubearchive.Prelude.{
  Bool, List, Option, Result, [], any, err, false, get_elem?, if◌then◌else◌, length, none, ok, some,
  suc, zero, ℕ, ◌*◌, ◌+◌, ◌-◌, ◌==◌, ◌>>=◌, ◌∷◌,
}
use kubearchive.Text.{Text, lit, text_eq}
use kubearchive.Lexer.{
  Lexeme, LexemeType, boost, edit_distance, field, is_digit, lex, next, presence, term,
}
use kubearchive.Query.{
  Options, Presence, Query, QueryError, Reason, boost_not_numeric, clause,
  edit_distance_not_numeric, expected_field_or_term, expecting_term, expecting_term_found_nothing,
  expecting_term_or_field, expecting_term_or_field_found_nothing, no_options, parse_error,
  prohibited, required, unrecognised_field, unrecognised_presence,
}

pub record Parser : Type 0 where
  pub lexemes : List Lexeme
  pub query : Query
  pub current_clause : Options
  pub lexeme_idx : ℕ

pub data State : Type 0 where
  parse_clause parse_presence parse_field parse_term parse_edit_distance parse_boost : State

abbrev pub Outcome : Type 0
Outcome = Result QueryError (Option State × Parser)

unfoldable pub peek_lexeme : Parser → Option Lexeme
peek_lexeme p = get_elem? p.lexemes p.lexeme_idx

-- `consumeLexeme` after the peek whose result it returns.
unfoldable pub consume_lexeme : Parser → Parser
consume_lexeme p = record p { lexeme_idx = p.lexeme_idx + 1 }

unfoldable pub next_clause : Parser → Result QueryError Parser
next_clause p = do
  q ← clause p.query p.current_clause
  ok (record p { query = q; current_clause = no_options })

-- `parseInt(str, 10)` of a text that does not start with a space or a sign, as the lexemes of
-- `acceptDigitRun` do not; `none` is `NaN`.
unfoldable pub digits_value : ℕ → Text → ℕ
digits_value acc [] = acc
digits_value acc (c ∷ cs) =
    let rest = digits_value (acc * 10 + (c - b'0')) cs in if is_digit c then rest else acc

unfoldable pub parse_int : Text → Option ℕ
unfolding digits_value
parse_int [] = none
parse_int (c ∷ cs) = if is_digit c then some (digits_value 0 (c ∷ cs)) else none

unfoldable pub has_wildcard : Text → Bool
has_wildcard t = any (λ c. c == b'*') t

abbrev fail : Reason → Lexeme → Outcome
fail why lexeme = err (parse_error why lexeme.start lexeme.end)

-- The end of `parseTerm`, `parseEditDistance` and `parseBoost`: the switch on the type of the next
-- lexeme. The source's `default` is not reached, as every type has its case.
unfoldable pub modify : LexemeType → Parser → Outcome
modify term p = do p' ← next_clause p; ok (some parse_term, p')
modify field p = do p' ← next_clause p; ok (some parse_field, p')
modify edit_distance p = ok (some parse_edit_distance, p)
modify boost p = ok (some parse_boost, p)
modify presence p = do p' ← next_clause p; ok (some parse_presence, p')

unfoldable pub after_modifier : Option Lexeme → Parser → Outcome
unfolding modify
after_modifier none p = do p' ← next_clause p; ok (none, p')
after_modifier (some next) p = modify next.type p

-- The switch of `parseClause`.
unfoldable pub choose_clause : LexemeType → Lexeme → Parser → Outcome
choose_clause presence lexeme p = ok (some parse_presence, p)
choose_clause field lexeme p = ok (some parse_field, p)
choose_clause term lexeme p = ok (some parse_term, p)
choose_clause edit_distance lexeme p = fail (expected_field_or_term edit_distance lexeme.str) lexeme
choose_clause boost lexeme p = fail (expected_field_or_term boost lexeme.str) lexeme

-- The switches at the ends of `parsePresence` and `parseField`.
unfoldable pub expect_field_or_term : LexemeType → Lexeme → Parser → Outcome
expect_field_or_term field next p = ok (some parse_field, p)
expect_field_or_term term next p = ok (some parse_term, p)
expect_field_or_term other next p = fail (expecting_term_or_field other) next

unfoldable pub expect_term : LexemeType → Lexeme → Parser → Outcome
expect_term term next p = ok (some parse_term, p)
expect_term other next p = fail (expecting_term other) next

unfoldable pub after_presence : Lexeme → Option Lexeme → Parser → Outcome
unfolding expect_field_or_term
after_presence lexeme none p = fail expecting_term_or_field_found_nothing lexeme
after_presence lexeme (some next) p = expect_field_or_term next.type next p

unfoldable pub after_field : Lexeme → Option Lexeme → Parser → Outcome
unfolding expect_term
after_field lexeme none p = fail expecting_term_found_nothing lexeme
after_field lexeme (some next) p = expect_term next.type next p

unfoldable pub set_presence : Presence → Parser → Parser
set_presence x p = record p { current_clause = record p.current_clause { presence = some x } }

unfoldable pub read_presence : Lexeme → Parser → Outcome
unfolding after_presence set_presence peek_lexeme
read_presence lexeme p =
    if text_eq lexeme.str (lit "-")
    then after_presence lexeme (peek_lexeme p) (set_presence prohibited p)
    else if text_eq lexeme.str (lit "+")
    then after_presence lexeme (peek_lexeme p) (set_presence required p)
    else fail (unrecognised_presence lexeme.str) lexeme

unfoldable pub read_field : Lexeme → Parser → Outcome
unfolding after_field peek_lexeme
read_field lexeme p =
    if any (text_eq lexeme.str) p.query.all_fields
    then after_field lexeme (peek_lexeme p)
        (record p { current_clause = record p.current_clause { fields = some (lexeme.str ∷ []) } })
    else fail (unrecognised_field lexeme.str p.query.all_fields) lexeme

unfoldable pub set_edit_distance : ℕ → Parser → Parser
set_edit_distance n p = record p {
  current_clause = record p.current_clause { edit_distance = some n };
}

unfoldable pub set_boost : ℕ → Parser → Parser
set_boost n p = record p { current_clause = record p.current_clause { boost = some n } }

-- `NaN` is an error; a number is stored by `set` before the next lexeme is looked at.
unfoldable pub store : Reason → (ℕ → Parser → Parser) → Option ℕ → Lexeme → Parser → Outcome
unfolding after_modifier peek_lexeme
store why set none lexeme p = fail why lexeme
store why set (some n) lexeme p = after_modifier (peek_lexeme p) (set n p)

unfoldable pub read_edit_distance : Lexeme → Parser → Outcome
unfolding parse_int store set_edit_distance
read_edit_distance lexeme p =
    store edit_distance_not_numeric set_edit_distance (parse_int lexeme.str) lexeme p

unfoldable pub read_boost : Lexeme → Parser → Outcome
unfolding parse_int store set_boost
read_boost lexeme p = store boost_not_numeric set_boost (parse_int lexeme.str) lexeme p

unfoldable pub parser_on : List Lexeme → Query → Parser
parser_on lexemes q = record {
  lexemes = lexemes;
  query = q;
  current_clause = no_options;
  lexeme_idx = 0;
}

-- `lower` is `toLowerCase`, whose table is the host's.
module _ (lower : Text → Text) where
  unfoldable pub set_term : Lexeme → Options → Options
  unfolding has_wildcard
  set_term lexeme o =
      let named = record o { term = some (lower lexeme.str) } in
      if has_wildcard lexeme.str then record named { use_pipeline = some false } else named

  unfoldable pub read_term : Lexeme → Parser → Outcome
  unfolding set_term after_modifier peek_lexeme
  read_term lexeme p =
      after_modifier (peek_lexeme p)
        (record p { current_clause = set_term lexeme p.current_clause })

  -- A state function on the lexeme that it consumes.
  unfoldable pub read : State → Lexeme → Parser → Outcome
  unfolding choose_clause read_presence read_field read_term read_edit_distance read_boost
  read parse_clause lexeme p = choose_clause lexeme.type lexeme p
  read parse_presence lexeme p = read_presence lexeme (consume_lexeme p)
  read parse_field lexeme p = read_field lexeme (consume_lexeme p)
  read parse_term lexeme p = read_term lexeme (consume_lexeme p)
  read parse_edit_distance lexeme p = read_edit_distance lexeme (consume_lexeme p)
  read parse_boost lexeme p = read_boost lexeme (consume_lexeme p)

  -- Where `lexeme == undefined` a state function returns at once.
  unfoldable pub step_on : Option Lexeme → State → Parser → Outcome
  unfolding read consume_lexeme
  step_on none s p = ok (none, p)
  step_on (some lexeme) s p = read s lexeme p

  unfoldable pub step : State → Parser → Outcome
  unfolding step_on peek_lexeme
  step s p = step_on (peek_lexeme p) s p

  -- The loop of `parse`; `none` means that the fuel ran out.
  unfoldable pub run_from : ℕ → Outcome → Option (Result QueryError Query)
  run_from fuel (err e) = some (err e)
  run_from fuel (ok (none, p)) = some (ok p.query)
  run_from zero (ok (some s, p)) = none
  run_from (suc fuel) (ok (some s, p)) = run_from fuel (step s p)

  unfoldable pub parse_lexemes : List Lexeme → Query → Option (Result QueryError Query)
  unfolding run_from step parser_on
  parse_lexemes lexemes q =
      run_from (suc (suc (length lexemes))) (ok (some parse_clause, parser_on lexemes q))

  unfoldable pub parse : Text → Query → Option (Result QueryError Query)
  unfolding lex parse_lexemes
  parse str q = elim (lex str) [ none ↦ none | some lexemes ↦ parse_lexemes lexemes q ]
