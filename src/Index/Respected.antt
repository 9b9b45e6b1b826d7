-- ===== src/Index/Respected.antt =====
-- Which documents the clauses of a query in docs/ui/lunr.js allow.
use kubearchive.Prelude.{All, List, [], inl, inr, refl, some, subst, sym, ℕ, ◌∙◌, ◌∷◌, ◌≡◌}
use kubearchive.Text.{Text}
use kubearchive.SearchSet.{complete, empty}
use kubearchive.Vector.{Number}
use kubearchive.Pipeline.{PipelineFunction}
use kubearchive.Query.{Clause, Presence, optional, prohibited, required}
use kubearchive.TokenSet.{Store}
use kubearchive.TokenSet.Spelled.{IsIn}
use kubearchive.Index.{Index, Matches}
use kubearchive.Index.Invariant.{Permits, Prohibits}
use kubearchive.Index.Visits.{IsProhibited, IsRequired}
use kubearchive.Index.Clauses.{IsClause, IsMatch, IsRespected}
use kubearchive.Index.Results.{Match, all_prohibited, all_required}
use kubearchive.Index.Allowed.{all_prohibited-Prohibits, all_required-Permits}
use kubearchive.Index.Gathered.{IsLeft}
use kubearchive.Index.Exact.{IsExcluded}

-- What the presence asks of a document, where the relation says which documents match in which fields.
abbrev pub AllowedBy : Presence → List Text → (Text → Text → Type 0) → Text → Type 0
AllowedBy optional fields Match d = Unit
AllowedBy required [] Match d = Unit
AllowedBy required (f ∷ fields) Match d = (g : Text) × Match g d
AllowedBy prohibited fields Match d = (f : Text) → ¬ Match f d

module _ (num : Number) (body : ℕ → PipelineFunction) (index : Index num) (s0 : Store) (h : ℕ) where
  -- The document is allowed by the clause: if that is required, the document has a word for which
  -- the clause stands in a field; if it is prohibited, the document has none in any field.
  abbrev pub IsAllowed : Clause → Text → Type 0
  IsAllowed clause d =
      (term : Text) × (clause.term ≡ some term)
      × AllowedBy clause.presence clause.fields (IsMatch num body index s0 h clause term) d

  module _ (m : Matches num) (d : Text)
      (left : IsLeft
        (all_required index.fields m.required_matches complete)
        (all_prohibited index.fields m.prohibited_matches empty)
        d) where
    respected-IsAllowed :
        (clause : Clause)
        → IsClause num body index s0 h clause
        → IsRespected num body index s0 h clause m
        → IsAllowed clause d
    respected-IsAllowed clause (term, is_term, some_terms, words, known) respected =
        let (requires, prohibits) = respected term is_term in
        let (_, permitted) =
          all_required-Permits index.fields m.required_matches complete d left.0 in
        let (_, free) = all_prohibited-Prohibits index.fields m.prohibited_matches empty d left.1 in
        (
          term,
          is_term,
          presence-allowed clause.presence clause.fields known (λ f d (is_in, _). is_in) requires
              prohibits permitted free,
        )
      where
        presence-allowed :
            {Match : Text → Text → Type 0} (p : Presence) (fields : List Text)
            → ((f : Text) → IsIn f fields → IsIn f index.fields)
            → ((f e : Text) → Match f e → IsIn f fields)
            → (IsRequired p
                → (f e : Text) → IsIn f fields
                → Permits m.required_matches f e
                → (g : Text) × Match g e)
            → (IsProhibited p → (f e : Text) → Match f e → Prohibits m.prohibited_matches f e)
            → ((f : Text) → IsIn f index.fields → Permits m.required_matches f d)
            → ((f : Text) → IsIn f index.fields → ¬ Prohibits m.prohibited_matches f d)
            → AllowedBy p fields Match d
        presence-allowed optional fields known within requires prohibits permitted free = tt
        presence-allowed required [] known within requires prohibits permitted free = tt
        presence-allowed required (f ∷ fields) known within requires prohibits permitted free =
            requires tt f d (inl refl) (permitted f (known f (inl refl)))
        presence-allowed prohibited fields known within requires prohibits permitted free =
            λ f match. free f (known f (within f d match)) (prohibits tt f d match)

    pub clauses-IsAllowed :
        (clauses : List Clause)
        → All (IsClause num body index s0 h) clauses
        → All (λ c. IsRespected num body index s0 h c m) clauses
        → All (λ c. IsAllowed c d) clauses
    clauses-IsAllowed [] _ _ = tt
    clauses-IsAllowed (c ∷ clauses) (is_clause, rest) (respected, later) =
        (respected-IsAllowed c is_clause respected, clauses-IsAllowed clauses rest later)

  -- What the clauses allow is not excluded.
  pub allowed-free :
      (clauses : List Clause) (d : Text)
      → All (λ c. IsAllowed c d) clauses
      → ¬ IsExcluded num body index s0 h clauses d
  allowed-free [] d _ none_there = none_there
  allowed-free (c ∷ clauses) d ((term, is_term, allowed), rest) some_there = elim some_there [
    | inl (is_prohibited, (f, (term', is_term', match))) ↦
        let both : some term' ≡ some term = sym is_term' ∙ is_term in
        let equal : term' ≡ term = cc in
        forbidden (IsMatch num body index s0 h c term) c.presence c.fields is_prohibited allowed f
          (subst (λ t. IsMatch num body index s0 h c t f d) equal match)
    | inr later ↦ allowed-free clauses d rest later
  ]
    where
      forbidden :
          (Match : Text → Text → Type 0) (p : Presence) (fields : List Text)
          → IsProhibited p
          → AllowedBy p fields Match d
          → (f : Text) → ¬ Match f d
      forbidden Match prohibited fields _ allowed = allowed
      forbidden Match optional fields no_prohibited _ = absurd no_prohibited
      forbidden Match required fields no_prohibited _ = absurd no_prohibited
