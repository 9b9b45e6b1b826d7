-- ===== src/Parser/Spans.antt =====
-- lunr.QueryParser.prototype.parse of docs/ui/lunr.js on a text: it returns, and its errors lie in
-- the text.
use kubearchive.Text.{Text}
use kubearchive.Prelude.{
  All, List, Option, Result, [], all, arith, err, get_elem?, length, map, none, ok, refl, some, suc,
  zero, ℕ, ◌+◌, ◌∷◌, ◌≡◌, ◌≤◌,
}
use kubearchive.Lexer.{Lexeme, lex}
use kubearchive.Lexer.Ordered.{Ordered, Ordered-le}
use kubearchive.Lexer.Bounds.{lex-Ordered}
use kubearchive.Query.{Clause, Query, QueryError, parse_error, type_error}
use kubearchive.Query
use kubearchive.Parser.{parse}
use kubearchive.Parser.Entries.{Ends, Entry, HasFields, entries, entry}
use kubearchive.Parser.Clauses.{parse_lexemes-Ends}

Ordered-span :
    (lo hi : ℕ) (xs : List Lexeme) (i : ℕ) (x : Lexeme)
    → Ordered lo xs hi
    → get_elem? xs i ≡ some x
    → (x.start ≤ x.end) × (x.end ≤ hi)
Ordered-span lo hi [] i x h e = cc
Ordered-span lo hi (y ∷ ys) zero x h e =
    let y-eq : y ≡ x = cc in rw (← y-eq) (h.1, Ordered-le y.end hi ys h.2)
Ordered-span lo hi (y ∷ ys) (suc i) x h e = Ordered-span y.end hi ys i x h.2 e

-- What a caller of `parse` on `str` gets. An error is a `QueryParseError` with a span that ends at
-- most one past the text.
abbrev pub Answers : Text → List Text → List Entry → Result QueryError Query → Type 0
Answers str all target (err type_error) = ⊥
Answers str all target (err (parse_error why start end)) = (start ≤ end) × (end ≤ length str + 1)
Answers str all target (ok q) =
    (map entry q.clauses ≡ target) × All (λ (c : Clause). HasFields all c.fields) q.clauses

Ends-Answers :
    (lower : Text → Text) (str : Text) (lexemes : List Lexeme) (all : List Text)
    (target : List Entry) (o : Option (Result QueryError Query))
    → Ordered 0 lexemes (length str + 1)
    → Ends lower lexemes all target o
    → (r : Result QueryError Query) × (o ≡ some r) × Answers str all target r
Ends-Answers lower str lexemes all target none ordered ends = absurd ends
Ends-Answers lower str lexemes all target (some (ok q)) ordered (built, fields, _) =
    (ok q, refl, (built, fields))
Ends-Answers lower str lexemes all target (some (err type_error)) ordered ends = absurd ends
Ends-Answers lower str lexemes all target (some (err (parse_error why s e))) ordered
      (i, x, at, start, end) =
    let (le, hi) = Ordered-span 0 _ lexemes i x ordered at in
    (err (parse_error why s e), refl, (omega arith, omega arith))

-- Parsing a text against the fields `all` always returns. The result is a query with one clause
-- for each TERM lexeme of the text, in their order, each on all fields or on one of them; or it is
-- a `QueryParseError` whose span starts at or before its end and ends at most one past the text.
pub parse-Answers :
    (lower : Text → Text) (str : Text) (all : List Text)
    → (lexemes : List Lexeme) × (r : Result QueryError Query) × (lex str ≡ some lexemes)
      × (parse lower str (Query.new all) ≡ some r)
      × Answers str all (entries lower lexemes) r
unfolding parse Query.new
parse-Answers lower str all =
    let (lexemes, lexed, ordered) = lex-Ordered str in
    let (r, parsed, answers) =
      Ends-Answers lower str lexemes all (entries lower lexemes) _ ordered
        (parse_lexemes-Ends lower lexemes (Query.new all) tt) in
    (lexemes, r, lexed, rw (lexed, parse) parsed, answers)
