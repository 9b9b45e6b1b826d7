-- ===== src/Lexer/Tests.antt =====
-- Runs of the query lexer of docs/ui/lunr.js, and its theorems at concrete inputs.
use kubearchive.Prelude.{List, [], length, refl, some, ℕ, ◌+◌, ◌∷◌, ◌≡◌}
use kubearchive.Text.{Text, is_space, lit}
use kubearchive.Lexer.{
  Lexeme, LexemeType, accept_digit_run, after_digit, backup, boost, edit_distance, emit,
  emit_pending, escape_character, field, ignore, lex, lex_char, lex_digits, lex_next, more, new,
  next, presence, run_from, slice_parts, slice_string, step, term, width,
}
use kubearchive.Lexer.Ordered.{Ordered}
use kubearchive.Lexer.Bounds.{lex-Ordered}

lexer : Unit {0}
unfolding new after_digit lex_next slice_parts slice_string emit escape_character next width ignore
    backup accept_digit_run more emit_pending lex_char lex_digits step run_from lex is_space
lexer = tt

abbrev lexeme : LexemeType → Text → ℕ → ℕ → Lexeme
lexeme type str start end = record { type = type; str = str; start = start; end = end }

lex_all_types :
    lex (lit "+title:foo* ba\\ r~1^20 - x")
    ≡ some (
        lexeme presence (lit "+") 0 1
        ∷ lexeme field (lit "title") 1 6
        ∷ lexeme term (lit "foo*") 7 11
        ∷ lexeme term (lit "ba r") 12 17
        ∷ lexeme edit_distance (lit "1") 18 19
        ∷ lexeme boost (lit "20") 20 22
        ∷ lexeme presence (lit "-") 23 24
        ∷ lexeme term (lit "x") 25 26
        ∷ [])
unfolding lexer
lex_all_types = refl

-- A trailing backslash ends its lexeme one past the text.
lex_trailing_escape : lex (lit "a\\") ≡ some (lexeme term (lit "a") 0 3 ∷ [])
unfolding lexer
lex_trailing_escape = refl

abbrev query_text : Text
query_text = lit "+title:foo* ba\\ r~1^20"

lex-Ordered_example :
    (lexemes : List Lexeme) × (lex query_text ≡ some lexemes)
    × Ordered 0 lexemes (length query_text + 1)
lex-Ordered_example = lex-Ordered query_text
