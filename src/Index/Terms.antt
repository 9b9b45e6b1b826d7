-- ===== src/Index/Terms.antt =====
-- The loops of `query` in docs/ui/lunr.js over the fields of a clause and over its expanded terms.
use kubearchive.Prelude.{
  List, [], inl, inr, refl, some, subst, sym, true, ℕ, ◌++◌, ◌∙◌, ◌∷◌, ◌≡◌, ◌≤◌, ◌⊎◌,
}
use kubearchive.Text.{Text}
use kubearchive.Query.{Clause, Presence, optional, prohibited, required}
use kubearchive.FieldRef.{joiner}
use kubearchive.SearchSet
use kubearchive.SearchSet.{SearchSet, has}
use kubearchive.Builder.{Kept, Posting}
use kubearchive.Vector.{Number}
use kubearchive.Metadata.{get}
use kubearchive.TokenSet.Spelled.{IsIn}
use kubearchive.Index.{
  Index, Matches, keys, note_prohibited, note_required, visit_by, visit_fields, visit_terms,
}
use kubearchive.Index.Returns.{Gives}
use kubearchive.Index.Keys.{IsKnown}
use kubearchive.Index.Invariant.{InPosting, IsGood, IsPosting, IsRef, Later-trans, Prohibits}
use kubearchive.Index.Visits.{
  IsProhibited, IsSome, Visited, Visited-none, Visited-then, score_field-Gives,
}
use kubearchive.Index.Fields.{Later-same, note_prohibited-Visited, note_required-Visited}

module _ (num : Number) (index : Index num) where
  open num use {exact}

  Visited-same :
      (presence : Presence) (Seen : Text → Text → Type 0) (Field : Text → Type 0) (cm : SearchSet)
      (m : Matches num) (cm' : SearchSet) (m' m'' : Matches num)
      → Visited num index presence Seen Field cm m cm' m'
      → IsGood num index m''
      → m''.required_matches ≡ m'.required_matches
      → m''.prohibited_matches ≡ m'.prohibited_matches
      → ((key : Text) → IsKnown m'.matching_fields key → IsKnown m''.matching_fields key)
      → ((key : Text)
          → IsKnown m''.matching_fields key
          → IsKnown m'.matching_fields key
            ⊎ ((f : Text) × (d : Text) × Seen f d × (key ≡ f ++ (joiner ∷ d))))
      → ¬ IsProhibited presence
      → Visited num index presence Seen Field cm m cm' m''
  Visited-same presence Seen Field cm m cm' m' m'' v is_good req pro known new free =
      let same = Later-same num index m' m'' req pro known in
      record {
        good = is_good;
        later = Later-trans num v.later same;
        collected = v.collected;
        prohibits = λ h f d x. same.prohibits f d (v.prohibits h f d x);
        requires = λ h f x. same.sets f (v.requires h f x);
        found = λ h f d x. known (f ++ (joiner ∷ d)) (v.found h f d x);
        from = λ key h. elim (new key h) [ inl old ↦ v.from key old | inr x ↦ inr (free, x) ];
        blamed = λ f d h. v.blamed f d (subst (λ r. Prohibits r f d) pro h);
        quiet = λ h. req ∙ v.quiet h;
      }

  -- What was collected, and the matches, after some fields and documents have been seen.
  abbrev pub After :
      Presence
      → (Text → Text → Type 0)
      → (Text → Type 0)
      → SearchSet
      → Matches num
      → SearchSet × Matches num
      → Type 0
  After presence Seen Field cm m st = Visited num index presence Seen Field cm m st.0 st.1

  visit_by-After :
      (presence : Presence) (boost : ℕ) (term : Text) (k : ℕ) (f : Text) (docs : List (Text × Kept))
      (cm : SearchSet) (m : Matches num) (p : Posting)
      → IsGood num index m
      → IsIn f index.fields
      → get term index.inverted_index ≡ some p
      → get f p.fields ≡ some docs
      → k ≤ exact
      → ((d : Text) → IsIn d (keys docs) → IsRef num index (f ++ (joiner ∷ d)))
      → Gives
          (visit_by num presence boost term k f docs (cm, m))
          (After presence (λ g d. (g ≡ f) × (has d (keys docs) ≡ true)) (λ g. g ≡ f) cm m)
  unfolding visit_by
  visit_by-After optional boost term k f docs cm m p is_good known at_term at_field exact_k refs =
      let (m', run, (good', req, pro, old, new, from)) =
        score_field-Gives num index term f p docs m is_good known at_term at_field boost k exact_k
          refs in
      (
        (cm, m'),
        rw run refl,
        record {
          good = good';
          later = Later-same num index m m' req pro old;
          collected = λ d h. inl h;
          prohibits = λ h. absurd h;
          requires = λ h. absurd h;
          found = λ _ g d (same, seen).
              subst (λ t. IsKnown m'.matching_fields (t ++ (joiner ∷ d))) (sym same) (new d seen);
          from = λ key h. elim (from key h) [
            | inl before ↦ inl before
            | inr (d, seen, at) ↦ inr (λ no. no, (f, d, (refl, seen), at))
          ];
          blamed = λ g d h. inl (subst (λ r. Prohibits r g d) pro h);
          quiet = λ _. req;
        },
      )
  visit_by-After required boost term k f docs cm m p is_good known at_term at_field exact_k refs =
      let (cm1, m1) = note_required num f (SearchSet.new (keys docs)) (cm, m) in
      let visited = note_required-Visited num index f docs cm m is_good in
      let (m', run, (good', req, pro, old, new, from)) =
        score_field-Gives num index term f p docs m1 visited.good known at_term at_field boost k
          exact_k refs in
      (
        (cm1, m'),
        rw run refl,
        Visited-same required (λ g d. (g ≡ f) × (has d (keys docs) ≡ true)) (λ g. g ≡ f) cm m cm1 m1
            m' visited good' req pro old
            (λ key h. elim (from key h) [
              | inl before ↦ inl before
              | inr (d, seen, at) ↦ inr (f, d, (refl, seen), at)
            ])
            (λ no. no),
      )
  visit_by-After prohibited boost term k f docs cm m p is_good known at_term at_field exact_k refs =
      (
        (cm, note_prohibited num f (SearchSet.new (keys docs)) m),
        refl,
        note_prohibited-Visited num index f docs cm m is_good,
      )

  module _ (clause : Clause) where
    -- All fields of the clause are fields of the index.
    abbrev pub AreFields : List Text → Type 0
    AreFields fields = (f : Text) → IsIn f fields → IsIn f index.fields

    visit_fields-After :
        (term : Text) (p : Posting) (fields : List Text) (cm : SearchSet) (m : Matches num)
        → IsGood num index m
        → get term index.inverted_index ≡ some p
        → IsPosting num index p
        → AreFields fields
        → Gives (visit_fields num clause term p fields (cm, m)) (
            After clause.presence
              (λ f d. IsIn f fields × InPosting p f d)
              (λ f. IsIn f fields)
              cm
              m)
    unfolding visit_fields
    visit_fields-After term p [] cm m is_good at_term posting known = (
      (cm, m),
      refl,
      Visited-none num index clause.presence _ _ cm m is_good (λ f d (no_field, _). no_field)
          (λ f no_field. no_field),
    )
    visit_fields-After term p (f ∷ fields) cm m is_good at_term (exact_k, documents) known =
        let (docs, at, refs) = documents f (known f (inl refl)) in
        let ((cm1, m1), run1, first) =
          visit_by-After clause.presence clause.boost term p.index f docs cm m p is_good
            (known f (inl refl)) at_term at exact_k refs in
        let ((cm2, m2), run2, later) =
          visit_fields-After term p fields cm1 m1 first.good at_term (exact_k, documents)
            (λ g h. known g (inr h)) in
        (
          (cm2, m2),
          rw (at, run1) run2,
          Visited-then num index clause.presence (λ g d. IsIn g (f ∷ fields) × InPosting p g d)
              (λ g d. (g ≡ f) × (has d (keys docs) ≡ true)) (λ g d. IsIn g fields × InPosting p g d)
              (λ g. IsIn g (f ∷ fields)) (λ g. g ≡ f) (λ g. IsIn g fields) cm m cm1 m1 cm2 m2
              (λ g d. (
                λ (is_in, (docs', at', seen)). elim is_in [
                  | inl same ↦
                      let both : some docs ≡ some docs' =
                        sym at ∙ subst (λ t. get t p.fields ≡ some docs') same at' in
                      let equal : docs ≡ docs' = cc in
                      inl (same, subst (λ e. has d (keys e) ≡ true) (sym equal) seen)
                  | inr there ↦ inr (there, (docs', at', seen))
                ],
                λ h. elim h [
                  | inl (same, seen) ↦ (
                    inl same,
                    (docs, subst (λ t. get t p.fields ≡ some docs) (sym same) at, seen),
                  )
                  | inr (there, in_posting) ↦ (inr there, in_posting)
                ],
              ))
              (λ _ g h. h) first later,
        )

    -- Every expanded term has a posting.
    abbrev pub HavePostings : List Text → Type 0
    HavePostings terms =
        (w : Text)
        → IsIn w terms
        → (p : Posting) × (get w index.inverted_index ≡ some p) × IsPosting num index p

    -- A document that one of the terms has in a field of the clause.
    abbrev pub HasTerm : List Text → Text → Text → Type 0
    HasTerm terms f d =
        IsIn f clause.fields
        × ((w : Text) × (p : Posting) × IsIn w terms
            × (get w index.inverted_index ≡ some p)
            × InPosting p f d)

    pub visit_terms-After :
        (terms : List Text) (cm : SearchSet) (m : Matches num)
        → IsGood num index m
        → HavePostings terms
        → AreFields clause.fields
        → Gives
            (visit_terms num index clause terms (cm, m))
            (After clause.presence (HasTerm terms) (λ f. IsSome terms × IsIn f clause.fields) cm m)
    unfolding visit_terms
    visit_terms-After [] cm m is_good postings known = (
      (cm, m),
      refl,
      Visited-none num index clause.presence _ _ cm m is_good
          (λ f d (_, (w, p, no_term, at, in_posting)). no_term) (λ f (no_term, _). no_term),
    )
    visit_terms-After (w ∷ terms) cm m is_good postings known =
        let (p, at, posting) = postings w (inl refl) in
        let ((cm1, m1), run1, first) =
          visit_fields-After w p clause.fields cm m is_good at posting known in
        let ((cm2, m2), run2, later) =
          visit_terms-After terms cm1 m1 first.good (λ v h. postings v (inr h)) known in
        (
          (cm2, m2),
          rw (at, run1) run2,
          Visited-then num index clause.presence (HasTerm (w ∷ terms))
              (λ f d. IsIn f clause.fields × InPosting p f d) (HasTerm terms)
              (λ f. Unit × IsIn f clause.fields) (λ f. IsIn f clause.fields)
              (λ f. IsSome terms × IsIn f clause.fields) cm m cm1 m1 cm2 m2
              (λ f d. (
                λ (is_in, (v, q, one, at', in_posting)). elim one [
                  | inl same ↦
                      let both : some p ≡ some q =
                        sym at ∙ subst (λ t. get t index.inverted_index ≡ some q) same at' in
                      let equal : p ≡ q = cc in
                      inl (is_in, subst (λ r. InPosting r f d) (sym equal) in_posting)
                  | inr there ↦ inr (is_in, (v, q, there, at', in_posting))
                ],
                λ h. elim h [
                  | inl (is_in, in_posting) ↦ (is_in, (w, p, inl refl, at, in_posting))
                  | inr (is_in, (v, q, there, at', in_posting)) ↦
                      (is_in, (v, q, inr there, at', in_posting))
                ],
              ))
              (λ _ f (_, is_in). inl is_in) first later,
        )
