-- ===== src/Parser/Switches.antt =====
-- The switches of the query parser of docs/ui/lunr.js on the next lexeme.
use kubearchive.Prelude.{
  List, Option, Result, [], append-nil, get_elem?_of_drop, none, refl, sym, ℕ, ◌∙◌, ◌∷◌, ◌≡◌,
}
use kubearchive.Text.{Text}
use kubearchive.Lexer.{Lexeme, LexemeType, boost, edit_distance, field, presence, term}
use kubearchive.Query.{Query, QueryError}
use kubearchive.Parser.{
  Parser, after_field, after_modifier, after_presence, choose_clause, expect_field_or_term,
  expect_term, modify, parse_boost, parse_edit_distance, parse_field, parse_presence, parse_term,
  peek_lexeme, run_from,
}
use kubearchive.Parser.Entries.{
  Continues, Ends, Entry, HasTerm, IsSpan, IsValid, next_clause-pushed, own_entry, peek-cons,
  peek-nil, pushed,
}

module _ (lower : Text → Text) (lexemes : List Lexeme) (all : List Text) (target : List Entry) where
  abbrev Valid : List Lexeme → List Entry → Parser → Type 0
  Valid = IsValid lower lexemes all target

  abbrev Returns : Option (Result QueryError Query) → Type 0
  Returns = Ends lower lexemes all target

  abbrev Later : ℕ → List Lexeme → Type 0
  Later = Continues lower lexemes all target

  module _ (fuel : ℕ) where
    pub modify-Ends :
        (x : Lexeme) (rest : List Lexeme) (p : Parser) (type : LexemeType)
        → x.type ≡ type
        → HasTerm p.current_clause
        → Valid (x ∷ rest) (own_entry p.current_clause ∷ []) p
        → Later fuel (x ∷ rest)
        → Returns (run_from lower fuel (modify type p))
    unfolding modify pushed
    modify-Ends x rest p edit_distance t has v continues =
        continues parse_edit_distance p (record { matches = t; fits = has; valid = v })
    modify-Ends x rest p boost t has v continues =
        continues parse_boost p (record { matches = t; fits = has; valid = v })
    modify-Ends x rest p term t has v continues =
        let (e, w) = next_clause-pushed lower lexemes all target (x ∷ rest) p has v in
        rw e (continues parse_term (pushed p) (record { matches = t; fits = refl; valid = w }))
    modify-Ends x rest p field t has v continues =
        let (e, w) = next_clause-pushed lower lexemes all target (x ∷ rest) p has v in
        rw e (continues parse_field (pushed p) (record { matches = t; fits = refl; valid = w }))
    modify-Ends x rest p presence t has v continues =
        let (e, w) = next_clause-pushed lower lexemes all target (x ∷ rest) p has v in
        rw e (continues parse_presence (pushed p) (record { matches = t; fits = refl; valid = w }))

    -- The switch after a term, an edit distance or a boost.
    pub after_modifier-Ends :
        (rest : List Lexeme) (p : Parser)
        → HasTerm p.current_clause
        → Valid rest (own_entry p.current_clause ∷ []) p
        → Later fuel rest
        → Returns (run_from lower fuel (after_modifier (peek_lexeme p) p))
    unfolding after_modifier run_from
    after_modifier-Ends [] p has v continues =
        let (e, w) = next_clause-pushed lower lexemes all target [] p has v in
        rw (peek-nil lower lexemes all target _ p v, after_modifier, e)
          (sym (append-nil _) ∙ w.built, w.fields, w.known_fields)
    after_modifier-Ends (x ∷ rest) p has v continues =
        rw (peek-cons lower lexemes all target _ p v)
          (modify-Ends x rest p x.type refl has v continues)

    pub points-at :
        (x : Lexeme) (rest : List Lexeme) (held : List Entry) (p : Parser)
        → Valid (x ∷ rest) held p
        → IsSpan lexemes x.start x.end
    points-at x rest held p v =
        (p.lexeme_idx, x, (get_elem?_of_drop lexemes p.lexeme_idx v.position).0, refl, refl)

    -- The switch of `parseClause`.
    pub choose_clause-Ends :
        (x : Lexeme) (rest : List Lexeme) (p : Parser) (type : LexemeType)
        → x.type ≡ type
        → p.current_clause.use_pipeline ≡ none
        → Valid (x ∷ rest) [] p
        → Later fuel (x ∷ rest)
        → Returns (run_from lower fuel (choose_clause type x p))
    unfolding choose_clause run_from
    choose_clause-Ends x rest p presence t fresh v continues =
        continues parse_presence p (record { matches = t; fits = fresh; valid = v })
    choose_clause-Ends x rest p field t fresh v continues =
        continues parse_field p (record { matches = t; fits = fresh; valid = v })
    choose_clause-Ends x rest p term t fresh v continues =
        continues parse_term p (record { matches = t; fits = fresh; valid = v })
    choose_clause-Ends x rest p edit_distance t fresh v continues = points-at x rest [] p v
    choose_clause-Ends x rest p boost t fresh v continues = points-at x rest [] p v

    -- The switch of `parsePresence`.
    pub expect_field_or_term-Ends :
        (x : Lexeme) (rest : List Lexeme) (p : Parser) (type : LexemeType)
        → x.type ≡ type
        → p.current_clause.use_pipeline ≡ none
        → Valid (x ∷ rest) [] p
        → Later fuel (x ∷ rest)
        → Returns (run_from lower fuel (expect_field_or_term type x p))
    unfolding expect_field_or_term run_from
    expect_field_or_term-Ends x rest p field t fresh v continues =
        continues parse_field p (record { matches = t; fits = fresh; valid = v })
    expect_field_or_term-Ends x rest p term t fresh v continues =
        continues parse_term p (record { matches = t; fits = fresh; valid = v })
    expect_field_or_term-Ends x rest p other t fresh v continues = points-at x rest [] p v

    -- The switch of `parseField`.
    pub expect_term-Ends :
        (x : Lexeme) (rest : List Lexeme) (p : Parser) (type : LexemeType)
        → x.type ≡ type
        → p.current_clause.use_pipeline ≡ none
        → Valid (x ∷ rest) [] p
        → Later fuel (x ∷ rest)
        → Returns (run_from lower fuel (expect_term type x p))
    unfolding expect_term run_from
    expect_term-Ends x rest p term t fresh v continues =
        continues parse_term p (record { matches = t; fits = fresh; valid = v })
    expect_term-Ends x rest p other t fresh v continues = points-at x rest [] p v

    pub after_presence-Ends :
        (x : Lexeme) (rest : List Lexeme) (p : Parser)
        → p.current_clause.use_pipeline ≡ none
        → IsSpan lexemes x.start x.end
        → Valid rest [] p
        → Later fuel rest
        → Returns (run_from lower fuel (after_presence x (peek_lexeme p) p))
    unfolding after_presence run_from
    after_presence-Ends x [] p fresh at v continues =
        rw (peek-nil lower lexemes all target _ p v) at
    after_presence-Ends x (y ∷ rest) p fresh at v continues =
        rw (peek-cons lower lexemes all target _ p v)
          (expect_field_or_term-Ends y rest p y.type refl fresh v continues)

    pub after_field-Ends :
        (x : Lexeme) (rest : List Lexeme) (p : Parser)
        → p.current_clause.use_pipeline ≡ none
        → IsSpan lexemes x.start x.end
        → Valid rest [] p
        → Later fuel rest
        → Returns (run_from lower fuel (after_field x (peek_lexeme p) p))
    unfolding after_field run_from
    after_field-Ends x [] p fresh at v continues = rw (peek-nil lower lexemes all target _ p v) at
    after_field-Ends x (y ∷ rest) p fresh at v continues =
        rw (peek-cons lower lexemes all target _ p v)
          (expect_term-Ends y rest p y.type refl fresh v continues)
