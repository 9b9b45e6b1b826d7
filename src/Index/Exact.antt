-- ===== src/Index/Exact.antt =====
-- Which documents a query of docs/ui/lunr.js leaves, where no clause is required.

use kubearchive.Prelude.{
  All, Bool, Bool-cases, List, [], false, inl, inr, refl, subst, sym, true, ℕ, ◌++◌, ◌↔◌, ◌∷◌, ◌≡◌,
}
use kubearchive.Text.{Text}
use kubearchive.FieldRef.{joiner}
use kubearchive.SearchSet
use kubearchive.SearchSet.{SearchSet, complete, empty}
use kubearchive.Vector.{Number}
use kubearchive.Metadata.{get}
use kubearchive.Pipeline.{PipelineFunction}
use kubearchive.Query.{Clause, Presence, optional, prohibited, required}
use kubearchive.TokenSet.{Store}
use kubearchive.TokenSet.Spelled.{IsIn}
use kubearchive.SearchSet.Laws.{not_in_empty}
use kubearchive.Index.{Index, Matches, keys}
use kubearchive.Index.Visits.{IsOptional, IsProhibited, IsRequired}
use kubearchive.Index.Adds.{AddsAll, Some, Some-field, Some-map, some_clause}
use kubearchive.Index.Clauses.{IsClause, MatchesIn}
use kubearchive.Index.Results.{Match, all_prohibited, all_required, sort_matches}
use kubearchive.Index.Queries.{no_matches}
use kubearchive.Index.Ranked.{refs_of}
use kubearchive.Index.Listed.{all_prohibited-from, all_required-none, sort_matches-lists}
use kubearchive.Index.Gathered.{HaveNoSlash, IsLeft, IsListed, joined-doc}
use kubearchive.Index.Matching.{IsTaken}

in_complete : (d : Text) → SearchSet.contains complete d ≡ true
unfolding SearchSet.contains
in_complete d = refl

abbrev pub NotRequired : Clause → Type 0
NotRequired c = ¬ IsRequired c.presence

rest-IsOptional : (p : Presence) → ¬ IsRequired p → ¬ IsProhibited p → IsOptional p
rest-IsOptional optional _ _ = tt
rest-IsOptional required no_required _ = absurd (no_required tt)
rest-IsOptional prohibited _ no_prohibited = absurd (no_prohibited tt)

module _ (num : Number) (body : ℕ → PipelineFunction) (index : Index num) (s0 : Store) (h : ℕ) where
  -- One of the clauses that are prohibited stands for a word of the document.
  abbrev pub IsExcluded : List Clause → Text → Type 0
  IsExcluded clauses d =
      Some (λ c. IsProhibited c.presence × ((f : Text) × MatchesIn num body index s0 h c f d))
        clauses

  -- The documents that come into question: all of the index for a negated query, and otherwise those
  -- with a word for which an optional clause stands.
  abbrev pub IsCandidate : Bool → List Clause → Text → Type 0
  IsCandidate true clauses d =
      (f : Text) × IsIn f index.fields × IsIn (f ++ (joiner ∷ d)) (keys index.field_vectors)
  IsCandidate false clauses d =
      Some (λ c. IsOptional c.presence × ((f : Text) × MatchesIn num body index s0 h c f d)) clauses

  module _ (no_slash : HaveNoSlash num index) (clauses : List Clause)
      (are_clauses : All (IsClause num body index s0 h) clauses)
      (none_required : All NotRequired clauses) (m : Matches num)
      (adds : AddsAll num
        (MatchesIn num body index s0 h)
        clauses
        (no_matches num body index.fields)
        m) where
    in_required :
        (d : Text)
        → SearchSet.contains (all_required index.fields m.required_matches complete) d ≡ true
    unfolding no_matches
    in_required d =
        rw (adds.quiet none_required, all_required-none index.fields complete) (in_complete d)

    excluded :
        (d : Text)
        → SearchSet.contains (all_prohibited index.fields m.prohibited_matches empty) d ≡ true
        → IsExcluded clauses d
    unfolding no_matches get
    excluded d inside =
        elim (all_prohibited-from index.fields m.prohibited_matches empty d inside) [
          | inl in_empty ↦ absurd (not_in_empty d in_empty)
          | inr (f, there) ↦ elim (adds.blamed f d there) [
            | inl none_before ↦ absurd none_before
            | inr by ↦
                Some-map clauses (λ c _ (is_prohibited, x). (is_prohibited, (f, x))) none_required
                  by
          ]
        ]

    field-known :
        (P : Clause → Type 0) (f d : Text)
        → Some (λ c. P c × MatchesIn num body index s0 h c f d) clauses
        → IsIn f index.fields
    field-known P f d some_match =
        let (c, (_, (term, _, (is_in, _))), (_, _, _, _, known)) =
          some_clause clauses are_clauses some_match in
        known f is_in

    candidate :
        (b : Bool) (refs : List Text) (d : Text)
        → IsTaken num index no_slash b m refs
        → ((f : Text) × IsIn f index.fields × IsIn (f ++ (joiner ∷ d)) refs)
          ↔ IsCandidate b clauses d
    unfolding no_matches get
    candidate true refs d taken = rw taken (λ x. x, λ x. x)
    candidate false refs d taken = (
      λ (f, known, there).
          elim (adds.from (f ++ (joiner ∷ d)) ((taken (f ++ (joiner ∷ d))).0 there)) [
            | inl (found, none_before) ↦ cc
            | inr (g, e, x, at) ↦
                let same : e ≡ d =
                  joined-doc g f e d
                    (no_slash g (field-known (λ c. ¬ IsProhibited c.presence) g e x))
                    (no_slash f known) (sym at) in
                Some-map clauses
                  (λ c no_required (no_prohibited, y). (
                    rest-IsOptional c.presence no_required no_prohibited,
                    (g, subst (λ t. MatchesIn num body index s0 h c g t) same y),
                  ))
                  none_required x
          ],
      λ x.
          let (f, y) =
            Some-field (λ c. IsOptional c.presence) (λ c f. MatchesIn num body index s0 h c f d)
              clauses x in
          (
            f,
            field-known (λ c. IsOptional c.presence) f d y,
            (taken (f ++ (joiner ∷ d))).1 (adds.found f d y),
          ),
    )

    -- The documents of the results are those in question that are not excluded.
    pub results-exact :
        (b : Bool) (refs : List Text) (results : List (Match num))
        → IsTaken num index no_slash b m refs
        → ((d : Text)
            → IsLeft
                (all_required index.fields m.required_matches complete)
                (all_prohibited index.fields m.prohibited_matches empty)
                d
            → ¬ IsExcluded clauses d)
        → IsListed num index
            (all_required index.fields m.required_matches complete)
            (all_prohibited index.fields m.prohibited_matches empty)
            refs
            []
            results
        → (d : Text)
        → IsIn d (refs_of num (sort_matches num results []))
          ↔ (IsCandidate b clauses d × ¬ IsExcluded clauses d)
    results-exact b refs results taken free listed d =
        let pro = all_prohibited index.fields m.prohibited_matches empty in
        let (forth, back) = listed d in
        let (unsorted, sorted) = sort_matches-lists num d results [] in
        let (to_candidate, of_candidate) = candidate b refs d taken in
        (
          λ is_in. elim (unsorted is_in) [
            | inr no_ref ↦ absurd no_ref
            | inl there ↦ elim (forth there) [
              | inl no_ref ↦ absurd no_ref
              | inr (left, found) ↦ (to_candidate found, free d left)
            ]
          ],
          λ (is_candidate, not_excluded). elim (Bool-cases (SearchSet.contains pro d)) [
            | inl inside ↦ absurd (not_excluded (excluded d inside))
            | inr outside ↦
                sorted (inl (back (inr ((in_required d, outside), of_candidate is_candidate))))
          ],
        )
