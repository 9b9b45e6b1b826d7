-- ===== src/Parser/Clauses.antt =====
-- The query parser of docs/ui/lunr.js ends on every list of lexemes: which clauses it builds, and
-- where its errors point.
use kubearchive.Prelude.{
  All, Bool-cases, List, Option, Result, [], any, ap, append-nil, arith, get_elem?_of_drop,
  if-intro, inl, inr, length, map, none, refl, some, suc, sym, zero, ℕ, ◌++◌, ◌∙◌, ◌∷◌, ◌≡◌, ◌≤◌,
}
use kubearchive.Text.{Text, lit, text_eq}
use kubearchive.Lexer.{Lexeme, boost, edit_distance, field, presence, term}
use kubearchive.Query.{
  Clause, Options, Presence, Query, QueryError, Reason, boost_not_numeric,
  edit_distance_not_numeric, prohibited, required,
}
use kubearchive.Parser.{
  Outcome, Parser, State, consume_lexeme, parse_boost, parse_clause, parse_edit_distance,
  parse_field, parse_lexemes, parse_presence, parse_term, parser_on, peek_lexeme, read, read_boost,
  read_edit_distance, read_field, read_presence, read_term, run_from, set_boost, set_edit_distance,
  set_presence, step, store,
}
use kubearchive.Parser.Entries.{
  Continues, Ends, Entry, HasFields, HasOwnFields, HasTerm, IsReady, IsSpan, IsValid, entries,
  entry, entry_of, own_entry, peek-cons, set_term_lem, step-read,
}
use kubearchive.Parser.Switches.{
  after_field-Ends, after_modifier-Ends, after_presence-Ends, choose_clause-Ends, points-at,
}

module _ (lower : Text → Text) (lexemes : List Lexeme) (all : List Text) (target : List Entry) where
  abbrev Valid : List Lexeme → List Entry → Parser → Type 0
  Valid = IsValid lower lexemes all target

  abbrev Returns : Option (Result QueryError Query) → Type 0
  Returns = Ends lower lexemes all target

  abbrev Later : ℕ → List Lexeme → Type 0
  Later = Continues lower lexemes all target

  module _ (fuel : ℕ) where
    -- A consumed lexeme other than a term leaves the entries as they are.
    consume-IsValid :
        (x : Lexeme) (rest : List Lexeme) (held held' : List Entry) (p : Parser)
        → held' ++ entries lower rest ≡ held ++ entries lower (x ∷ rest)
        → Valid (x ∷ rest) held p
        → Valid rest held' (consume_lexeme p)
    unfolding consume_lexeme
    consume-IsValid x rest held held' p e v = record {
      same = v.same;
      position = (get_elem?_of_drop lexemes p.lexeme_idx v.position).1;
      no_wildcard = v.no_wildcard;
      own_fields = v.own_fields;
      known_fields = v.known_fields;
      fields = v.fields;
      built = rw e v.built;
    }

    -- A modifier changes the current clause alone.
    modified-IsValid :
        {rest : List Lexeme} {held held' : List Entry} {p : Parser} (o : Options)
        → o.wildcard ≡ none
        → HasOwnFields all o.fields
        → held' ≡ held
        → Valid rest held p
        → Valid rest held' (record p { current_clause = o })
    modified-IsValid o w f e v = record {
      same = v.same;
      position = v.position;
      no_wildcard = w;
      own_fields = f;
      known_fields = v.known_fields;
      fields = v.fields;
      built = rw e v.built;
    }

    read_presence-Ends :
        (x : Lexeme) (rest : List Lexeme) (p : Parser)
        → p.current_clause.use_pipeline ≡ none
        → IsSpan lexemes x.start x.end
        → Valid rest [] p
        → Later fuel rest
        → Returns (run_from lower fuel (read_presence x p))
    unfolding read_presence set_presence run_from
    read_presence-Ends x rest p fresh at v continues =
        let Fine = λ (o : Outcome). Returns (run_from lower fuel o) in
        let after = λ (y : Presence).
          after_presence-Ends lower lexemes all target fuel x rest (set_presence y p) fresh at
            (modified-IsValid _ v.no_wildcard v.own_fields refl v) continues in
        if-intro Fine (text_eq x.str (lit "-")) (after prohibited)
          (if-intro Fine (text_eq x.str (lit "+")) (after required) at)

    read_field-Ends :
        (x : Lexeme) (rest : List Lexeme) (p : Parser)
        → p.current_clause.use_pipeline ≡ none
        → IsSpan lexemes x.start x.end
        → Valid rest [] p
        → Later fuel rest
        → Returns (run_from lower fuel (read_field x p))
    unfolding read_field run_from
    read_field-Ends x rest p fresh at v continues =
        elim (Bool-cases (any (text_eq x.str) p.query.all_fields)) [
          | inr unknown ↦ rw (unknown, read_field) at
          | inl known ↦
              let own : HasFields all (x.str ∷ []) =
                inr (x.str, refl, ap (any (text_eq x.str)) (sym v.known_fields) ∙ known) in
              let w = modified-IsValid _ v.no_wildcard own refl v in
              rw (known, read_field)
                (after_field-Ends lower lexemes all target fuel x rest _ fresh at w continues)
        ]

    -- A number is stored in the current clause, which has its term already.
    store-Ends :
        (x : Lexeme) (rest : List Lexeme) (p : Parser) (why : Reason) (put : ℕ → Parser → Parser)
        (digits : Option ℕ)
        → IsSpan lexemes x.start x.end
        → ((n : ℕ)
            → (peek_lexeme p ≡ peek_lexeme (put n p))
              × HasTerm (put n p).current_clause
              × Valid rest (own_entry (put n p).current_clause ∷ []) (put n p))
        → Later fuel rest
        → Returns (run_from lower fuel (store why put digits x p))
    unfolding store run_from
    store-Ends x rest p why put none at held continues = at
    store-Ends x rest p why put (some n) at held continues =
        let (same_peek, has, v) = held n in
        rw same_peek
          (after_modifier-Ends lower lexemes all target fuel rest (put n p) has v continues)

    read-Ends :
        (s : State) (x : Lexeme) (rest : List Lexeme) (p : Parser)
        → IsReady lower lexemes all target (x ∷ rest) s p
        → Later fuel rest
        → Returns (run_from lower fuel (read lower s x p))
    unfolding read run_from read_term read_edit_distance read_boost set_edit_distance set_boost
        consume_lexeme
    read-Ends parse_clause x rest p r continues = absurd r.matches
    read-Ends parse_presence x rest p r continues =
        let e : x.type ≡ presence = r.matches in
        read_presence-Ends x rest (consume_lexeme p) (unfold consume_lexeme in r.fits)
          (points-at lower lexemes all target fuel x rest [] p r.valid)
          (consume-IsValid x rest [] [] p (rw e) r.valid) continues
    read-Ends parse_field x rest p r continues =
        let e : x.type ≡ field = r.matches in
        read_field-Ends x rest (consume_lexeme p) (unfold consume_lexeme in r.fits)
          (points-at lower lexemes all target fuel x rest [] p r.valid)
          (consume-IsValid x rest [] [] p (rw e) r.valid) continues
    read-Ends parse_term x rest p r continues =
        let e : x.type ≡ term = r.matches in
        let (has, w, f, own) = set_term_lem lower x p.current_clause r.fits in
        let consumed = consume-IsValid x rest [] (entry_of lower x ∷ []) p (rw e) r.valid in
        after_modifier-Ends lower lexemes all target fuel rest _ has
          (modified-IsValid _ (w ∙ r.valid.no_wildcard) (rw f r.valid.own_fields)
            (ap (λ y. y ∷ []) own) consumed)
          continues
    read-Ends parse_edit_distance x rest p r continues =
        let e : x.type ≡ edit_distance = r.matches in
        let held = own_entry p.current_clause ∷ [] in
        let v = consume-IsValid x rest held held p (rw e) r.valid in
        store-Ends x rest (consume_lexeme p) edit_distance_not_numeric set_edit_distance _
          (points-at lower lexemes all target fuel x rest held p r.valid)
          (λ n. (refl, r.fits, modified-IsValid _ v.no_wildcard v.own_fields refl v)) continues
    read-Ends parse_boost x rest p r continues =
        let e : x.type ≡ boost = r.matches in
        let held = own_entry p.current_clause ∷ [] in
        let v = consume-IsValid x rest held held p (rw e) r.valid in
        store-Ends x rest (consume_lexeme p) boost_not_numeric set_boost _
          (points-at lower lexemes all target fuel x rest held p r.valid)
          (λ n. (refl, r.fits, modified-IsValid _ v.no_wildcard v.own_fields refl v)) continues

  -- Each round reads one lexeme, so as much fuel as lexemes is enough.
  run_from-Ends : (rest : List Lexeme) (fuel : ℕ) → length rest ≤ fuel → Later fuel rest
  unfolding run_from
  run_from-Ends [] fuel le parse_clause p r = absurd r.matches
  run_from-Ends [] fuel le s p r = absurd r.matches
  run_from-Ends (x ∷ rest) zero le s p r = absurd (omega arith)
  run_from-Ends (x ∷ rest) (suc fuel) le s p r =
      rw (step-read lower s p (peek-cons lower lexemes all target _ p r.valid), run_from)
        (read-Ends fuel s x rest p r (run_from-Ends rest fuel (omega arith)))

-- The parser returns on every list of lexemes, started on any query `q` whose clauses have fields
-- of the index. It throws only a `QueryParseError` over the span of one of the lexemes. Or it adds
-- one clause for each TERM lexeme, in their order, with the lexeme's text in lower case as its
-- term and the pipeline in use unless that text has a wildcard; every clause searches all the
-- fields of the index or one of them, and the fields of the query stay as they are.
pub parse_lexemes-Ends :
    (lower : Text → Text) (lexemes : List Lexeme) (q : Query)
    → All (λ (c : Clause). HasFields q.all_fields c.fields) q.clauses
    → Ends lower lexemes q.all_fields
        (map entry q.clauses ++ entries lower lexemes)
        (parse_lexemes lower lexemes q)
unfolding parse_lexemes parser_on run_from read step
parse_lexemes-Ends lower [] q fields = (sym (append-nil _), fields, refl)
parse_lexemes-Ends lower (x ∷ rest) q fields =
    let initial : IsValid lower (x ∷ rest) q.all_fields
        (map entry q.clauses ++ entries lower (x ∷ rest)) (x ∷ rest) [] (parser_on (x ∷ rest) q) =
      record {
        same = refl;
        position = refl;
        no_wildcard = refl;
        own_fields = tt;
        known_fields = refl;
        fields = fields;
        built = refl;
      } in
    choose_clause-Ends lower (x ∷ rest) q.all_fields _ (suc (length (x ∷ rest))) x rest
      (parser_on (x ∷ rest) q) x.type refl refl initial
      (run_from-Ends lower (x ∷ rest) q.all_fields _ (x ∷ rest) (suc (length (x ∷ rest)))
        (omega arith))
