-- ===== src/Index/Clauses.antt =====
-- The loop of `query` in docs/ui/lunr.js over the clauses returns; what is required and prohibited
-- afterwards are the documents with words for which the clauses stand.

use kubearchive.Prelude.{All, List, [], inl, inr, refl, some, subst, sym, ℕ, ◌+◌, ◌∙◌, ◌∷◌, ◌≡◌}
use kubearchive.Text.{Text}
use kubearchive.Pipeline.{PipelineFunction, run}
use kubearchive.Query.{Clause, Presence, optional, prohibited, required}
use kubearchive.SearchSet.{SearchSet, empty}
use kubearchive.Vector.{Number}
use kubearchive.TokenSet.{Store}
use kubearchive.TokenSet.Spelled.{IsIn}
use kubearchive.SearchSet.Laws.{not_in_empty}
use kubearchive.Index.{
  Index, Matches, clause_terms, narrow_by, pure, terms_of, visit_clause, visit_clauses, visit_words,
}
use kubearchive.Index.Returns.{Gives, Returns, Returns-then}
use kubearchive.Index.Invariant.{IsGood, Later, Later-refl, Later-trans, Permits, Prohibits}
use kubearchive.Index.Visits.{IsProhibited, IsRequired, IsSome, Visited}
use kubearchive.Index.Narrowed.{narrow_required-IsNarrowed}
use kubearchive.Index.Adds.{Adds, Adds-map, AddsAll, AddsAll-more, AddsAll-none}
use kubearchive.Index.Terms.{AreFields}
use kubearchive.Index.Words.{AreIndexed, AreWords, HasWord, IsSame, visit_words-Returns}

module _ (num : Number) (body : ℕ → PipelineFunction) (index : Index num) (s0 : Store) (h : ℕ) where
  -- A document that has a word for which the clause stands, in a field of the clause.
  abbrev pub IsMatch : Clause → Text → Text → Text → Type 0
  IsMatch clause term f d = HasWord num index s0 h clause (terms_of num body index clause term) f d

  abbrev pub MatchesIn : Clause → Text → Text → Type 0
  MatchesIn clause f d = (term : Text) × (clause.term ≡ some term) × IsMatch clause term f d

  -- A clause on fields of the index, with a term of which the pipeline leaves some, not empty, terms.
  abbrev pub IsClause : Clause → Type 0
  IsClause clause =
      (term : Text) × (clause.term ≡ some term)
      × IsSome (terms_of num body index clause term)
      × AreWords num index s0 h (terms_of num body index clause term)
      × AreFields num index clause clause.fields

  -- What the clause requires and prohibits is respected by the matches.
  abbrev pub IsRespected : Clause → Matches num → Type 0
  IsRespected clause m =
      (term : Text)
      → clause.term ≡ some term
      → (IsRequired clause.presence
          → (f d : Text) → IsIn f clause.fields
          → Permits m.required_matches f d
          → (g : Text) × IsMatch clause term g d)
        × (IsProhibited clause.presence
            → (f d : Text) → IsMatch clause term f d
            → Prohibits m.prohibited_matches f d)

  IsRespected-Later :
      (clause : Clause) (m m' : Matches num)
      → Later num m m'
      → IsRespected clause m
      → IsRespected clause m'
  IsRespected-Later clause m m' later respected term is_term =
      let (requires, prohibits) = respected term is_term in
      (
        λ is_required f d is_in permitted.
            requires is_required f d is_in (later.permits f d permitted),
        λ is_prohibited f d match. later.prohibits f d (prohibits is_prohibited f d match),
      )

  abbrev pub AfterClauses : List Clause → Matches num → Matches num × Store → Type 0
  AfterClauses clauses m r =
      IsGood num index r.0
      × Later num m r.0
      × All (λ c. IsRespected c r.0) clauses
      × IsSame num index s0 h r.1
      × AddsAll num MatchesIn clauses m r.0

  -- What is required of the fields has been seen, and what has been seen is prohibited.
  abbrev Respects : Presence → List Text → (Text → Text → Type 0) → Matches num → Type 0
  Respects p fields Seen m =
      (IsRequired p
        → (f d : Text) → IsIn f fields
        → Permits m.required_matches f d
        → (g : Text) × Seen g d)
      × (IsProhibited p → (f d : Text) → Seen f d → Prohibits m.prohibited_matches f d)

  narrow_by-Respects :
      (p : Presence) (fields : List Text) (Seen : Text → Text → Type 0) (cm : SearchSet)
      (m m' : Matches num)
      → Visited num index p Seen (λ f. IsIn f fields) empty m cm m'
      → Gives (narrow_by num p fields cm m') (λ m''.
        IsGood num index m'' × Later num m m'' × Respects p fields Seen m'' × Adds num p Seen m m'')
  unfolding narrow_by
  narrow_by-Respects optional fields Seen cm m m' visited = (
    m',
    refl,
    (
      visited.good,
      visited.later,
      (λ no_required. absurd no_required, visited.prohibits),
      record {
        found = visited.found;
        from = visited.from;
        blamed = visited.blamed;
        quiet = visited.quiet;
      },
    ),
  )
  narrow_by-Respects prohibited fields Seen cm m m' visited = (
    m',
    refl,
    (
      visited.good,
      visited.later,
      (λ no_required. absurd no_required, visited.prohibits),
      record {
        found = visited.found;
        from = visited.from;
        blamed = visited.blamed;
        quiet = visited.quiet;
      },
    ),
  )
  narrow_by-Respects required fields Seen cm m m' visited =
      let (req', run, (permits, kept, narrowed)) =
        narrow_required-IsNarrowed fields cm m'.required_matches (visited.requires tt) in
      (
        record m' { required_matches = req' },
        rw run refl,
        (
          record {
            vectors = visited.good.vectors;
            refs = visited.good.refs;
            no_slash = visited.good.no_slash;
            cached = visited.good.cached;
          },
          Later-trans num visited.later (record {
            permits = permits;
            prohibits = λ f d k. k;
            sets = kept;
            known = λ key k. k;
          }),
          (
            λ _ f d is_in permitted. elim (visited.collected d (narrowed f d is_in permitted)) [
              | inl in_empty ↦ absurd (not_in_empty d in_empty)
              | inr seen ↦ seen
            ],
            λ no_prohibited. absurd no_prohibited,
          ),
          record {
            found = visited.found;
            from = visited.from;
            blamed = visited.blamed;
            quiet = λ no_required. absurd (no_required tt);
          },
        ),
      )

  clause-run :
      (n : ℕ) (clause : Clause) (m : Matches num) (s : Store) (term : Text) (cm : SearchSet)
      (m1 : Matches num) (s1 : Store) (m2 : Matches num)
      → clause.term ≡ some term
      → visit_words num n index clause (terms_of num body index clause term) ((empty, m), s)
        ≡ pure ((cm, m1), s1)
      → narrow_by num clause.presence clause.fields cm m1 ≡ pure m2
      → visit_clause num body n index clause (m, s) ≡ pure (m2, s1)
  unfolding visit_clause clause_terms
  clause-run n clause m s term cm m1 s1 m2 is_term ran narrowed = rw (is_term, ran, narrowed) refl

  module _ (indexed : AreIndexed num index s0 h) where
    visit_clause-Returns :
        (clause : Clause) (m : Matches num) (s : Store)
        → IsGood num index m
        → IsSame num index s0 h s
        → IsClause clause
        → Returns
            (λ n. visit_clause num body n index clause (m, s))
            (λ r.
              IsGood num index r.0
              × Later num m r.0
              × IsRespected clause r.0
              × IsSame num index s0 h r.1
              × Adds num clause.presence (MatchesIn clause) m r.0)
    visit_clause-Returns clause m s is_good same (term, is_term, some_terms, words, known) =
        let terms = terms_of num body index clause term in
        let (k, ((cm, m1), s1), run, (visited, same1)) =
          visit_words-Returns num index s0 h indexed clause known terms empty m s is_good same
            words in
        let on_fields : Visited num index clause.presence (IsMatch clause term)
            (λ f. IsIn f clause.fields) empty m cm m1 =
          record {
            good = visited.good;
            later = visited.later;
            collected = visited.collected;
            prohibits = visited.prohibits;
            requires = λ is_required f is_in. visited.requires is_required f (some_terms, is_in);
            found = visited.found;
            from = visited.from;
            blamed = visited.blamed;
            quiet = visited.quiet;
          } in
        let (m2, narrowed, (good2, later2, respects, adds)) =
          narrow_by-Respects clause.presence clause.fields (IsMatch clause term) cm m m1
            on_fields in
        (
          k,
          (m2, s1),
          λ fuel. clause-run (k + fuel) clause m s term cm m1 s1 m2 is_term (run fuel) narrowed,
          (
            good2,
            later2,
            λ term' is_term'.
                let both : some term ≡ some term' = sym is_term ∙ is_term' in
                let equal : term ≡ term' = cc in
                subst (λ t. Respects clause.presence clause.fields (IsMatch clause t) m2) equal
                  respects,
            same1,
            Adds-map num clause.presence (IsMatch clause term) (MatchesIn clause) m m2
                (λ f d. (
                  λ x. (term, is_term, x),
                  λ (term', is_term', x).
                      let both : some term ≡ some term' = sym is_term ∙ is_term' in
                      let equal : term' ≡ term = cc in subst (λ t. IsMatch clause t f d) equal x,
                ))
                adds,
          ),
        )

    clauses-Later :
        (clauses : List Clause) (m m' : Matches num)
        → Later num m m'
        → All (λ c. IsRespected c m) clauses
        → All (λ c. IsRespected c m') clauses
    clauses-Later [] m m' later _ = tt
    clauses-Later (c ∷ clauses) m m' later (respected, rest) =
        (IsRespected-Later c m m' later respected, clauses-Later clauses m m' later rest)

    pub visit_clauses-Returns :
        (clauses : List Clause) (m : Matches num) (s : Store)
        → IsGood num index m
        → IsSame num index s0 h s
        → All IsClause clauses
        → Returns (λ n. visit_clauses num body n index clauses (m, s)) (AfterClauses clauses m)
    unfolding visit_clauses
    visit_clauses-Returns [] m s is_good same _ = (
      0,
      (m, s),
      λ fuel. refl,
      (is_good, Later-refl num m, tt, same, AddsAll-none num MatchesIn m),
    )
    visit_clauses-Returns (clause ∷ clauses) m s is_good same (is_clause, rest) =
        Returns-then (λ n. visit_clause num body n index clause (m, s))
          (λ n st. visit_clauses num body n index clauses st)
          (λ r.
            IsGood num index r.0
            × Later num m r.0
            × IsRespected clause r.0
            × IsSame num index s0 h r.1
            × Adds num clause.presence (MatchesIn clause) m r.0)
          (AfterClauses (clause ∷ clauses) m)
          (visit_clause-Returns clause m s is_good same is_clause)
          (λ (m1, s1) (good1, later1, respected1, same1, adds1).
            let (k, (m2, s2), run, (good2, later2, respected2, same2, adds2)) =
              visit_clauses-Returns clauses m1 s1 good1 same1 rest in
            (
              k,
              (m2, s2),
              run,
              (
                good2,
                Later-trans num later1 later2,
                (IsRespected-Later clause m1 m2 later2 respected1, respected2),
                same2,
                AddsAll-more num MatchesIn clause clauses m m1 m2 adds1 later2 adds2,
              ),
            ))
