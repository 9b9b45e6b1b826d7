-- ===== src/Index/Fields.antt =====
-- The loops of `query` in docs/ui/lunr.js over the fields of a clause and over its expanded terms.

use kubearchive.Prelude.{
  Bool, List, Option, Option-cases, false, inl, inr, none, refl, some, subst, sym, true, ◌||◌, ◌≡◌,
  ◌⊎◌,
}
use kubearchive.Text.{Text}
use kubearchive.Query.{or_default, prohibited, required}
use kubearchive.SearchSet
use kubearchive.SearchSet.{SearchSet, complete, empty, has}
use kubearchive.SearchSet.Laws.{contains-new, contains-union, not_in_empty}
use kubearchive.Builder.{Kept}
use kubearchive.Vector.{Number}
use kubearchive.Metadata.{get, put}
use kubearchive.Index.{Index, Matches, keys, note_prohibited, note_required}
use kubearchive.Index.Keys.{IsKnown}
use kubearchive.Index.Invariant.{
  HasSet, HasSetIn, IsGood, Later, Permits, PermitsIn, Prohibits, ProhibitsIn, get-put-elim,
  get-put_self,
}
use kubearchive.Index.Visits.{Visited}

or_split : (a b : Bool) → (a || b) ≡ true → (a ≡ true) ⊎ (b ≡ true)
or_split true b h = inl refl
or_split false b h = inr h

or_join : (a b : Bool) → b ≡ true → (a || b) ≡ true
or_join true b h = refl
or_join false b h = h

module _ (num : Number) (index : Index num) where
  open num use {exact}

  pub Later-same :
      (m m' : Matches num)
      → m'.required_matches ≡ m.required_matches
      → m'.prohibited_matches ≡ m.prohibited_matches
      → ((key : Text) → IsKnown m.matching_fields key → IsKnown m'.matching_fields key)
      → Later num m m'
  Later-same m m' req pro known = record {
    permits = λ f d h. subst (λ r. Permits r f d) req h;
    prohibits = λ f d h. subst (λ r. Prohibits r f d) (sym pro) h;
    sets = λ f h. subst (λ r. HasSet r f) (sym req) h;
    known = known;
  }

  pub note_required-Visited :
      (f : Text) (docs : List (Text × Kept)) (cm : SearchSet) (m : Matches num)
      → IsGood num index m
      → Visited num index required
          (λ g d. (g ≡ f) × (has d (keys docs) ≡ true))
          (λ g. g ≡ f)
          cm
          m
          (note_required num f (SearchSet.new (keys docs)) (cm, m)).0
          (note_required num f (SearchSet.new (keys docs)) (cm, m)).1
  unfolding note_required
  note_required-Visited f docs cm m is_good =
      let new_set = SearchSet.new (keys docs) in
      let collects : (d : Text)
          → SearchSet.contains (SearchSet.union cm new_set) d ≡ true
          → (SearchSet.contains cm d ≡ true)
            ⊎ ((g : Text) × ((g ≡ f) × (has d (keys docs) ≡ true))) =
        λ d h.
          elim (or_split (SearchSet.contains cm d) (has d (keys docs))
            (rw (contains-union, contains-new) at h)) [
              | inl old ↦ inl old
              | inr seen ↦ inr (f, (refl, seen))
            ] in
      elim (Option-cases (get f m.required_matches)) [
        | inl missing ↦
            let req = put f complete m.required_matches in
            rw missing (record {
              good = record {
                vectors = is_good.vectors;
                refs = is_good.refs;
                no_slash = is_good.no_slash;
                cached = is_good.cached;
              };
              later = record {
                permits = λ g d.
                    get-put-elim (λ o. PermitsIn o d → Permits m.required_matches g d) f g complete
                      m.required_matches
                      (λ same _. subst (λ h. Permits m.required_matches h d) same (rw missing tt))
                      (λ h. h);
                prohibits = λ g d h. h;
                sets = λ g h. get-put-elim HasSetIn f g complete m.required_matches (λ _. tt) h;
                known = λ key h. h;
              };
              collected = collects;
              prohibits = λ h. absurd h;
              requires = λ _ g same. rw (same, get-put_self f complete m.required_matches) tt;
              found = λ h. absurd h;
              from = λ key h. inl h;
              blamed = λ g d h. inl h;
              quiet = λ h. absurd (h tt);
            })
        | inr (old, there) ↦ rw there (record {
          good = record {
            vectors = is_good.vectors;
            refs = is_good.refs;
            no_slash = is_good.no_slash;
            cached = is_good.cached;
          };
          later = record {
            permits = λ g d h. h;
            prohibits = λ g d h. h;
            sets = λ g h. h;
            known = λ key h. h;
          };
          collected = collects;
          prohibits = λ h. absurd h;
          requires = λ _ g same. rw (same, there) tt;
          found = λ h. absurd h;
          from = λ key h. inl h;
          blamed = λ g d h. inl h;
          quiet = λ h. refl;
        })
      ]

  pub note_prohibited-Visited :
      (f : Text) (docs : List (Text × Kept)) (cm : SearchSet) (m : Matches num)
      → IsGood num index m
      → Visited num index prohibited
          (λ g d. (g ≡ f) × (has d (keys docs) ≡ true))
          (λ g. g ≡ f)
          cm
          m
          cm
          (note_prohibited num f (SearchSet.new (keys docs)) m)
  unfolding note_prohibited
  note_prohibited-Visited f docs cm m is_good =
      let was = or_default (get f m.prohibited_matches) empty in
      let now = SearchSet.union was (SearchSet.new (keys docs)) in
      record {
        good = record {
          vectors = is_good.vectors;
          refs = is_good.refs;
          no_slash = is_good.no_slash;
          cached = is_good.cached;
        };
        later = record {
          permits = λ g d h. h;
          prohibits = λ g d h.
              get-put-elim (λ o. ProhibitsIn o d) f g now m.prohibited_matches
                (λ same.
                  kept (get f m.prohibited_matches) d
                    (subst (λ t. Prohibits m.prohibited_matches t d) (sym same) h))
                h;
          sets = λ g h. h;
          known = λ key h. h;
        };
        collected = λ d h. inl h;
        prohibits = λ _ g d (same, seen).
            rw (same, get-put_self f now m.prohibited_matches, contains-union, contains-new)
              (or_join (SearchSet.contains was d) (has d (keys docs)) seen);
        requires = λ h. absurd h;
        found = λ h. absurd h;
        from = λ key h. inl h;
        blamed = λ g d h.
            get-put-elim
              (λ o.
                ProhibitsIn o d
                → Prohibits m.prohibited_matches g d
                  ⊎ (Unit × ((g ≡ f) × (has d (keys docs) ≡ true))))
              f g now m.prohibited_matches
              (λ same k. elim (before (get f m.prohibited_matches) d k) [
                | inl old ↦ inl (subst (λ t. Prohibits m.prohibited_matches t d) same old)
                | inr seen ↦ inr (tt, (sym same, seen))
              ])
              (λ k. inl k) h;
        quiet = λ h. refl;
      }
    where
      before :
          (o : Option SearchSet) (d : Text)
          → SearchSet.contains (SearchSet.union (or_default o empty) (SearchSet.new (keys docs))) d
            ≡ true
          → ProhibitsIn o d ⊎ (has d (keys docs) ≡ true)
      before none d h =
          elim (or_split (SearchSet.contains empty d) (has d (keys docs))
            (rw (contains-union, contains-new) at h)) [
              | inl in_empty ↦ absurd (not_in_empty d in_empty)
              | inr seen ↦ inr seen
            ]
      before (some old) d h =
          or_split (SearchSet.contains old d) (has d (keys docs))
            (rw (contains-union, contains-new) at h)

      kept :
          (o : Option SearchSet) (d : Text)
          → ProhibitsIn o d
          → SearchSet.contains (SearchSet.union (or_default o empty) (SearchSet.new (keys docs))) d
            ≡ true
      kept none d no_set = absurd no_set
      kept (some old) d h = rw (contains-union, h) refl
