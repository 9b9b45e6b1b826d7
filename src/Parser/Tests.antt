-- ===== src/Parser/Tests.antt =====
-- Runs of the query parser of docs/ui/lunr.js.
use kubearchive.Text.{Text, is_space, lit}
use kubearchive.Prelude.{
  List, Option, Result, [], err, false, if◌then◌else◌, inl, leb, map, none, ok, refl, some, true, ℕ,
  ◌&&◌, ◌++◌, ◌+◌, ◌∷◌, ◌≡◌,
}
use kubearchive.Query
use kubearchive.Lexer
use kubearchive.Lexer.{
  Lexeme, LexemeType, Lexer, accept_digit_run, after_digit, backup, boost, edit_distance, emit,
  emit_pending, escape_character, field, ignore, lex, lex_char, lex_digits, lex_next, more, next,
  presence, slice_parts, slice_string, term, width,
}
use kubearchive.Query.{
  Clause, Query, QueryError, clause, edit_distance_not_numeric, expected_field_or_term,
  expecting_term_or_field_found_nothing, optional, parse_error, required, unrecognised_field,
  wildcard,
}
use kubearchive.Parser.{next_clause, parse, parse_lexemes}
use kubearchive.Parser.Entries.{Ends, entries, entry}
use kubearchive.Parser.Clauses.{parse_lexemes-Ends}
use kubearchive.Parser.Spans.{Answers, parse-Answers}

abbrev lower_ascii : Text → Text
lower_ascii [] = []
lower_ascii (c ∷ cs) = (if leb b'A' c && leb c b'Z' then c + 32 else c) ∷ lower_ascii cs

parser : Unit {0}
unfolding parse Query.new Lexer.new after_digit lex_next slice_parts slice_string emit
    escape_character next width ignore backup accept_digit_run more emit_pending lex_char lex_digits
    Lexer.step Lexer.run_from is_space clause next_clause
parser = tt

abbrev two_fields : List Text
two_fields = lit "title" ∷ lit "text" ∷ []

abbrev parsed : Text → Option (Result QueryError Query)
parsed str = parse lower_ascii str (Query.new two_fields)

abbrev plain : Text → Clause
plain t = record {
  term = some t;
  fields = two_fields;
  boost = 1;
  use_pipeline = true;
  wildcard = 0;
  presence = optional;
  edit_distance = none;
}

parse_modifiers :
    parsed (lit "+title:Pod* job~1^20")
    ≡ some (
        ok (record {
          clauses =
              record (plain (lit "pod*")) {
                fields = lit "title" ∷ [];
                use_pipeline = false;
                presence = required;
              }
              ∷ record (plain (lit "job")) { boost = 20; edit_distance = some 1 }
              ∷ [];
          all_fields = two_fields;
        }))
unfolding parser
parse_modifiers = refl

parse_errors :
    (parsed (lit "a ~b") ≡ some (err (parse_error edit_distance_not_numeric 3 3)))
    × (parsed (lit "^2") ≡ some (err (parse_error (expected_field_or_term boost (lit "2")) 1 2)))
    × (parsed (lit "foo:x")
        ≡ some (err (parse_error (unrecognised_field (lit "foo") two_fields) 0 3)))
    × (parsed (lit "+") ≡ some (err (parse_error expecting_term_or_field_found_nothing 0 1)))
unfolding parser
parse_errors = (refl, refl, refl, refl)

abbrev query_text : Text
query_text = lit "+title:Pod* job~1^20"

parse-Answers_example :
    (lexemes : List Lexeme) × (r : Result QueryError Query) × (lex query_text ≡ some lexemes)
    × (parse lower_ascii query_text (Query.new two_fields) ≡ some r)
    × Answers query_text two_fields (entries lower_ascii lexemes) r
parse-Answers_example = parse-Answers lower_ascii query_text two_fields

abbrev lexeme : LexemeType → Text → ℕ → ℕ → Lexeme
lexeme type str start end = record { type = type; str = str; start = start; end = end }

abbrev field_and_terms : List Lexeme
field_and_terms =
    lexeme field (lit "title") 0 5
    ∷ lexeme term (lit "Pod*") 6 10
    ∷ lexeme term (lit "job") 11 14
    ∷ []

abbrev with_clause : Query
with_clause = record { clauses = plain (lit "node") ∷ []; all_fields = two_fields }

parse_lexemes-Ends_example :
    Ends lower_ascii field_and_terms two_fields
      (map entry (plain (lit "node") ∷ []) ++ entries lower_ascii field_and_terms)
      (parse_lexemes lower_ascii field_and_terms with_clause)
parse_lexemes-Ends_example =
    parse_lexemes-Ends lower_ascii field_and_terms with_clause (inl refl, tt)
