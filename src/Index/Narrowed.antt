-- ===== src/Index/Narrowed.antt =====
-- The loop of `query` in docs/ui/lunr.js that narrows what is required of fields.
use kubearchive.Prelude.{
  List, Option, [], and_split, inl, inr, none, refl, some, subst, true, ◌∷◌, ◌≡◌,
}
use kubearchive.Text.{Text}
use kubearchive.SearchSet
use kubearchive.SearchSet.{SearchSet}
use kubearchive.SearchSet.Laws.{contains-intersect}
use kubearchive.Metadata.{get, put}
use kubearchive.TokenSet.Spelled.{IsIn}
use kubearchive.Index.{narrow_required}
use kubearchive.Index.Returns.{Gives}
use kubearchive.Index.Invariant.{HasSet, HasSetIn, Permits, PermitsIn, get-put-elim, get-put_self}

HasSetIn-some : (o : Option SearchSet) → HasSetIn o → (docs : SearchSet) × (o ≡ some docs)
HasSetIn-some none no_set = absurd no_set
HasSetIn-some (some docs) _ = (docs, refl)

-- The required matches are narrowed to what was collected for the clause.
abbrev pub IsNarrowed :
    List Text → SearchSet → List (Text × SearchSet) → List (Text × SearchSet) → Type 0
IsNarrowed fields cm req req' =
    ((f d : Text) → Permits req' f d → Permits req f d)
    × ((f : Text) → HasSet req f → HasSet req' f)
    × ((f d : Text) → IsIn f fields → Permits req' f d → SearchSet.contains cm d ≡ true)

pub narrow_required-IsNarrowed :
    (fields : List Text) (cm : SearchSet) (req : List (Text × SearchSet))
    → ((f : Text) → IsIn f fields → HasSet req f)
    → Gives (narrow_required fields cm req) (IsNarrowed fields cm req)
unfolding narrow_required
narrow_required-IsNarrowed [] cm req sets =
    (req, refl, (λ f d h. h, λ f h. h, λ f d no_field. absurd no_field))
narrow_required-IsNarrowed (g ∷ fields) cm req sets =
    let (old, at) = HasSetIn-some (get g req) (sets g (inl refl)) in
    let now = SearchSet.intersect old cm in
    let both : (d : Text)
        → SearchSet.contains now d ≡ true
        → (SearchSet.contains old d ≡ true) × (SearchSet.contains cm d ≡ true) =
      λ d h.
        and_split (SearchSet.contains old d) (SearchSet.contains cm d)
          (rw contains-intersect at h) in
    let (req', run, (permits, kept, narrowed)) =
      narrow_required-IsNarrowed fields cm (put g now req)
        (λ f is_in. get-put-elim HasSetIn g f now req (λ _. tt) (sets f (inr is_in))) in
    (
      req',
      rw at run,
      (
        λ f d h.
            get-put-elim (λ o. PermitsIn o d → Permits req f d) g f now req
              (λ same k. subst (λ t. Permits req t d) same (rw at (both d k).0)) (λ k. k)
              (permits f d h),
        λ f h. kept f (get-put-elim HasSetIn g f now req (λ _. tt) h),
        λ f d is_in h. elim is_in [
          | inl same ↦
              let k : PermitsIn (some now) d =
                subst (λ o. PermitsIn o d) (get-put_self g now req)
                  (permits g d (subst (λ t. Permits req' t d) same h)) in
              (both d k).1
          | inr there ↦ narrowed f d there h
        ],
      ),
    )
