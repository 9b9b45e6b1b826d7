-- ===== src/Index/Visits.antt =====
-- The loops of `query` in docs/ui/lunr.js over the expanded terms of a clause and its fields return on
-- an index whose postings are complete.

use kubearchive.Prelude.{
  Bool-cases, List, [], inl, inr, refl, some, subst, sym, true, ℕ, ◌++◌, ◌↔◌, ◌∙◌, ◌∷◌, ◌≡◌, ◌≤◌,
  ◌⊎◌,
}
use kubearchive.Text.{Text}
use kubearchive.Query.{Presence, optional, prohibited, required}
use kubearchive.FieldRef.{joiner}
use kubearchive.SearchSet
use kubearchive.SearchSet.{SearchSet, has}
use kubearchive.Builder.{Kept, Posting}
use kubearchive.Vector.{Number, Vector}
use kubearchive.Metadata.{get, put}
use kubearchive.TokenSet.Spelled.{IsIn}
use kubearchive.Index.{Index, Matches, collect, is_cached, keys, score_field}
use kubearchive.Index.Returns.{Gives}
use kubearchive.Index.Keys.{IsKnown, collect-from, collect-new, collect-old, joined-injective}
use kubearchive.Index.Invariant.{
  HasSet, InPosting, IsGood, IsRef, IsVector, Later, Later-refl, Later-trans, Prohibits,
  collect-refs, get-put-elim, upsert-IsVector,
}

abbrev pub IsRequired : Presence → Type 0
IsRequired required = Unit
IsRequired _ = ⊥

abbrev pub IsOptional : Presence → Type 0
IsOptional optional = Unit
IsOptional _ = ⊥

abbrev pub IsProhibited : Presence → Type 0
IsProhibited prohibited = Unit
IsProhibited _ = ⊥

abbrev pub IsSome : List Text → Type 0
IsSome [] = ⊥
IsSome (w ∷ ws) = Unit

module _ (num : Number) (index : Index num) where
  open num use {exact}

  -- Some fields and documents have been seen: what was collected for the clause is from them, they are
  -- prohibited if the clause is, and something is required of the fields if the clause is required.
  pub record Visited (presence : Presence) (Seen : Text → Text → Type 0) (Field : Text → Type 0)
      (cm : SearchSet) (m : Matches num) (cm' : SearchSet) (m' : Matches num) : Type 0 where
    pub good : IsGood num index m'
    pub later : Later num m m'
    pub collected :
        (d : Text)
        → SearchSet.contains cm' d ≡ true
        → (SearchSet.contains cm d ≡ true) ⊎ ((f : Text) × Seen f d)
    pub prohibits :
        IsProhibited presence → (f d : Text) → Seen f d → Prohibits m'.prohibited_matches f d
    pub requires : IsRequired presence → (f : Text) → Field f → HasSet m'.required_matches f
    pub found :
        IsOptional presence
        → (f d : Text) → Seen f d
        → IsKnown m'.matching_fields (f ++ (joiner ∷ d))
    pub from :
        (key : Text)
        → IsKnown m'.matching_fields key
        → IsKnown m.matching_fields key
          ⊎ (¬ IsProhibited presence
              × ((f : Text) × (d : Text) × Seen f d × (key ≡ f ++ (joiner ∷ d))))
    pub blamed :
        (f d : Text)
        → Prohibits m'.prohibited_matches f d
        → Prohibits m.prohibited_matches f d ⊎ (IsProhibited presence × Seen f d)
    pub quiet : ¬ IsRequired presence → m'.required_matches ≡ m.required_matches

  -- What is seen in one step, and in later ones.
  pub Visited-then :
      (presence : Presence) (Seen Seen1 Seen2 : Text → Text → Type 0)
      (Field Field1 Field2 : Text → Type 0) (cm : SearchSet) (m : Matches num) (cm1 : SearchSet)
      (m1 : Matches num) (cm2 : SearchSet) (m2 : Matches num)
      → ((f d : Text) → Seen f d ↔ (Seen1 f d ⊎ Seen2 f d))
      → (IsRequired presence → (f : Text) → Field f → Field1 f ⊎ Field2 f)
      → Visited presence Seen1 Field1 cm m cm1 m1
      → Visited presence Seen2 Field2 cm1 m1 cm2 m2
      → Visited presence Seen Field cm m cm2 m2
  Visited-then presence Seen Seen1 Seen2 Field Field1 Field2 cm m cm1 m1 cm2 m2 seen fields a b =
      record {
        good = b.good;
        later = Later-trans num a.later b.later;
        collected = λ d h. elim (b.collected d h) [
          | inl old ↦ elim (a.collected d old) [
            | inl older ↦ inl older
            | inr (f, x) ↦ inr (f, (seen f d).1 (inl x))
          ]
          | inr (f, x) ↦ inr (f, (seen f d).1 (inr x))
        ];
        prohibits = λ h f d x. elim ((seen f d).0 x) [
          | inl y ↦ b.later.prohibits f d (a.prohibits h f d y)
          | inr y ↦ b.prohibits h f d y
        ];
        requires = λ h f x. elim (fields h f x) [
          | inl y ↦ b.later.sets f (a.requires h f y)
          | inr y ↦ b.requires h f y
        ];
        found = λ h f d x. elim ((seen f d).0 x) [
          | inl y ↦ b.later.known (f ++ (joiner ∷ d)) (a.found h f d y)
          | inr y ↦ b.found h f d y
        ];
        from = λ key h. elim (b.from key h) [
          | inl old ↦ elim (a.from key old) [
            | inl older ↦ inl older
            | inr (by, (f, d, x, at)) ↦ inr (by, (f, d, (seen f d).1 (inl x), at))
          ]
          | inr (by, (f, d, x, at)) ↦ inr (by, (f, d, (seen f d).1 (inr x), at))
        ];
        blamed = λ f d h. elim (b.blamed f d h) [
          | inl old ↦ elim (a.blamed f d old) [
            | inl older ↦ inl older
            | inr (by, x) ↦ inr (by, (seen f d).1 (inl x))
          ]
          | inr (by, x) ↦ inr (by, (seen f d).1 (inr x))
        ];
        quiet = λ h. b.quiet h ∙ a.quiet h;
      }

  pub Visited-none :
      (presence : Presence) (Seen : Text → Text → Type 0) (Field : Text → Type 0) (cm : SearchSet)
      (m : Matches num)
      → IsGood num index m
      → ((f d : Text) → Seen f d → ⊥)
      → ((f : Text) → Field f → ⊥)
      → Visited presence Seen Field cm m cm m
  Visited-none presence Seen Field cm m is_good none_seen no_field = record {
    good = is_good;
    later = Later-refl num m;
    collected = λ d h. inl h;
    prohibits = λ h f d x. absurd (none_seen f d x);
    requires = λ h f x. absurd (no_field f x);
    found = λ h f d x. absurd (none_seen f d x);
    from = λ key h. inl h;
    blamed = λ f d h. inl h;
    quiet = λ h. refl;
  }

  -- What `score_field` leaves: the term has been seen in the field, and no more than that.
  abbrev pub Scored : Text → List (Text × Kept) → Matches num → Matches num → Type 0
  Scored f docs m m' =
      IsGood num index m'
      × (m'.required_matches ≡ m.required_matches)
      × (m'.prohibited_matches ≡ m.prohibited_matches)
      × ((key : Text) → IsKnown m.matching_fields key → IsKnown m'.matching_fields key)
      × ((d : Text) → has d (keys docs) ≡ true → IsKnown m'.matching_fields (f ++ (joiner ∷ d)))
      × ((key : Text)
          → IsKnown m'.matching_fields key
          → IsKnown m.matching_fields key
            ⊎ ((d : Text) × (has d (keys docs) ≡ true) × (key ≡ f ++ (joiner ∷ d))))

  module _ (term f : Text) (p : Posting) (docs : List (Text × Kept)) (m : Matches num)
      (is_good : IsGood num index m) (known : IsIn f index.fields)
      (at_term : get term index.inverted_index ≡ some p)
      (at_field : get f p.fields ≡ some docs) where
    collect-cached :
        (w g d : Text) (q : Posting)
        → IsIn g index.fields
        → is_cached (get (w ++ (joiner ∷ g)) (put (term ++ (joiner ∷ f)) true m.term_field_cache))
          ≡ true
        → get w index.inverted_index ≡ some q
        → InPosting q g d
        → IsKnown (collect num term f docs m.matching_fields) (g ++ (joiner ∷ d))
    collect-cached w g d q is_in =
        get-put-elim
          (λ o.
            is_cached o ≡ true
            → get w index.inverted_index ≡ some q
            → InPosting q g d
            → IsKnown (collect num term f docs m.matching_fields) (g ++ (joiner ∷ d)))
          (term ++ (joiner ∷ f)) (w ++ (joiner ∷ g)) true m.term_field_cache
          (λ same _ at (docs', at', seen).
            let (words, names) =
              joined-injective term w f g (is_good.no_slash f known) (is_good.no_slash g is_in)
                same in
            let both : some p ≡ some q = sym at_term ∙ rw words at in
            let equal : p ≡ q = cc in
            let both' : some docs ≡ some docs' = sym at_field ∙ rw (equal, names) at' in
            let equal' : docs ≡ docs' = cc in
            subst (λ t. IsKnown (collect num term f docs m.matching_fields) (t ++ (joiner ∷ d)))
              names (collect-new num term f docs m.matching_fields d (rw equal' seen)))
          (λ hit at posted.
            collect-old num term f docs m.matching_fields (g ++ (joiner ∷ d))
              (is_good.cached w g d q is_in hit at posted))

    pub score_field-Gives :
        (boost : ℕ) (k : ℕ)
        → k ≤ exact
        → ((d : Text) → IsIn d (keys docs) → IsRef num index (f ++ (joiner ∷ d)))
        → Gives (score_field num boost term k f docs m) (Scored f docs m)
    unfolding score_field
    score_field-Gives boost k exact_k refs =
        let (v, at, is_vector) = is_good.vectors f known in
        let (v', run, is_vector') = upsert-IsVector num index v k boost is_vector exact_k in
        let vectors' : (g : Text)
            → IsIn g index.fields
            → (u : Vector num) × (get g (put f v' m.query_vectors) ≡ some u) × IsVector num u =
          λ g is_in.
            get-put-elim (λ o. (u : Vector num) × (o ≡ some u) × IsVector num u) f g v'
              m.query_vectors (λ _. (v', refl, is_vector')) (is_good.vectors g is_in) in
        elim (Bool-cases (is_cached (get (term ++ (joiner ∷ f)) m.term_field_cache))) [
          | inl hit ↦ (
            record m { query_vectors = put f v' m.query_vectors },
            rw (at, run, hit) refl,
            (
              record {
                vectors = vectors';
                refs = is_good.refs;
                no_slash = is_good.no_slash;
                cached = is_good.cached;
              },
              refl,
              refl,
              λ key h. h,
              λ d seen. is_good.cached term f d p known hit at_term (docs, at_field, seen),
              λ key h. inl h,
            ),
          )
          | inr new ↦ (
            record m {
              query_vectors = put f v' m.query_vectors;
              matching_fields = collect num term f docs m.matching_fields;
              term_field_cache = put (term ++ (joiner ∷ f)) true m.term_field_cache;
            },
            rw (at, run, new) refl,
            (
              record {
                vectors = vectors';
                refs = collect-refs num index term f docs m.matching_fields refs is_good.refs;
                no_slash = is_good.no_slash;
                cached = collect-cached;
              },
              refl,
              refl,
              λ key h. collect-old num term f docs m.matching_fields key h,
              λ d seen. collect-new num term f docs m.matching_fields d seen,
              λ key h. collect-from num term f docs m.matching_fields key h,
            ),
          )
        ]
