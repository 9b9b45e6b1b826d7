-- ===== src/Index/Invariant.antt =====
-- What holds of the matches that `query` of docs/ui/lunr.js collects, and how they grow.

use kubearchive.Prelude.{
  Bool-cases, List, Option, Option-cases, [], arith, false, inl, inr, none, ok, refl, some, subst,
  true, ℕ, ◌++◌, ◌∷◌, ◌≡◌, ◌≤◌,
}
use kubearchive.Text.{Text, text_eq, text_eq_iff}
use kubearchive.FieldRef.{joiner, to_string}
use kubearchive.SearchSet
use kubearchive.SearchSet.{SearchSet, has}
use kubearchive.FieldRef.Texts.{has_joiner}
use kubearchive.Index.Keys.{IsKnown}
use kubearchive.Builder.{Kept, Posting}
use kubearchive.Vector.{Number, Vector, upsert}
use kubearchive.Vector.Upsert.{updated, upsert-updated, vector}
use kubearchive.Vector.Sparse
use kubearchive.Vector.Sparse.{Ascends, Bounded, lookup, put-Ascends, put-Bounded}
use kubearchive.Metadata.{get, get-put, put}
use kubearchive.TokenSet.Spelled.{IsIn}
use kubearchive.Index.{Found, Index, Matches, collect, is_cached, keys, of_vector}
use kubearchive.Index.Returns.{Gives}

-- A property of what is read after a write.
pub get-put-elim :
    {V : Type 0} (P : Option V → Type 0) (k j : Text) (v : V) (d : List (Text × V))
    → (k ≡ j → P (some v))
    → P (get j d)
    → P (get j (put k v d))
get-put-elim P k j v d here there = elim (Bool-cases (text_eq k j)) [
  | inl same ↦ rw (get-put, same) (here ((text_eq_iff k j).0 same))
  | inr other ↦ rw (get-put, other) there
]

pub get-put_self :
    {V : Type 0} (k : Text) (v : V) (d : List (Text × V)) → get k (put k v d) ≡ some v
get-put_self k v d =
    let same : text_eq k k ≡ true = (text_eq_iff k k).1 refl in rw (get-put, same) refl

-- What is required of a field permits the document.
abbrev pub PermitsIn : Option SearchSet → Text → Type 0
PermitsIn none d = Unit
PermitsIn (some docs) d = SearchSet.contains docs d ≡ true

abbrev pub Permits : List (Text × SearchSet) → Text → Text → Type 0
Permits required_matches f d = PermitsIn (get f required_matches) d

abbrev pub ProhibitsIn : Option SearchSet → Text → Type 0
ProhibitsIn none d = ⊥
ProhibitsIn (some docs) d = SearchSet.contains docs d ≡ true

-- What is prohibited in a field has the document.
abbrev pub Prohibits : List (Text × SearchSet) → Text → Text → Type 0
Prohibits prohibited_matches f d = ProhibitsIn (get f prohibited_matches) d

abbrev pub HasSetIn : Option SearchSet → Type 0
HasSetIn none = ⊥
HasSetIn (some docs) = Unit

abbrev pub HasSet : List (Text × SearchSet) → Text → Type 0
HasSet required_matches f = HasSetIn (get f required_matches)

-- The document is in the field of the posting.
abbrev pub InPosting : Posting → Text → Text → Type 0
InPosting p f d =
    (docs : List (Text × Kept)) × (get f p.fields ≡ some docs) × (has d (keys docs) ≡ true)

module _ (num : Number) where
  open num use {F, exact, of_nat, add}

  -- Less is permitted than before, and more prohibited.
  pub record Later (m m' : Matches num) : Type 0 where
    pub permits : (f d : Text) → Permits m'.required_matches f d → Permits m.required_matches f d
    pub prohibits :
        (f d : Text) → Prohibits m.prohibited_matches f d → Prohibits m'.prohibited_matches f d
    pub sets : (f : Text) → HasSet m.required_matches f → HasSet m'.required_matches f
    pub known : (key : Text) → IsKnown m.matching_fields key → IsKnown m'.matching_fields key

  pub Later-refl : (m : Matches num) → Later m m
  Later-refl m = record {
    permits = λ f d h. h;
    prohibits = λ f d h. h;
    sets = λ f h. h;
    known = λ key h. h;
  }

  pub Later-trans : {m m' m'' : Matches num} → Later m m' → Later m' m'' → Later m m''
  Later-trans a b = record {
    permits = λ f d h. a.permits f d (b.permits f d h);
    prohibits = λ f d h. b.prohibits f d (a.prohibits f d h);
    sets = λ f h. b.sets f (a.sets f h);
    known = λ key h. b.known key (a.known key h);
  }

  -- Indices that ascend and are exact.
  abbrev pub IsVector : Vector num → Type 0
  IsVector v =
      (c : F) × (ps : List (ℕ × F)) × (v ≡ vector num c ps) × Ascends 0 ps × Bounded exact ps

  module _ (index : Index num) where
    -- The name of a field of the index before that of a document, with a vector for them.
    abbrev pub IsRef : Text → Type 0
    IsRef key =
        (f : Text) × (d : Text) × (v : Vector num) × IsIn f index.fields
        × (key ≡ f ++ (joiner ∷ d))
        × (get key index.field_vectors ≡ some v)
        × IsVector v

    pub record IsGood (m : Matches num) : Type 0 where
      pub vectors :
          (f : Text)
          → IsIn f index.fields
          → (v : Vector num) × (get f m.query_vectors ≡ some v) × IsVector v
      pub refs : (key : Text) (found : Found) → get key m.matching_fields ≡ some found → IsRef key
      pub no_slash : (f : Text) → IsIn f index.fields → has_joiner f ≡ false
      pub cached :
          (w f d : Text) (p : Posting)
          → IsIn f index.fields
          → is_cached (get (w ++ (joiner ∷ f)) m.term_field_cache) ≡ true
          → get w index.inverted_index ≡ some p
          → InPosting p f d
          → IsKnown m.matching_fields (f ++ (joiner ∷ d))

    -- A posting of the index: every field has its documents, each with a vector.
    abbrev pub IsPosting : Posting → Type 0
    IsPosting p =
        (p.index ≤ exact)
        × ((f : Text)
            → IsIn f index.fields
            → (docs : List (Text × Kept)) × (get f p.fields ≡ some docs)
              × ((d : Text) → IsIn d (keys docs) → IsRef (f ++ (joiner ∷ d))))

    pub upsert-IsVector :
        (v : Vector num) (k boost : ℕ)
        → IsVector v
        → k ≤ exact
        → Gives (of_vector (upsert num v (of_nat k) (of_nat boost) (λ a b. ok (add a b)))) IsVector
    upsert-IsVector v k boost (c, ps, e, ascends, bounded) known =
        elim (Option-cases (lookup k ps)) [
          | inl absent ↦
              let qs = Sparse.put k (of_nat boost) ps in
              (
                vector num (of_nat 0) qs,
                rw
                    (
                      e,
                      upsert-updated num c ps k (of_nat boost) (λ a b. ok (add a b)) ascends bounded
                          known,
                      updated,
                      absent,
                    )
                    refl,
                (
                  of_nat 0,
                  qs,
                  refl,
                  put-Ascends 0 k _ ps (omega arith) ascends,
                  put-Bounded exact k _ ps known bounded,
                ),
              )
          | inr (old, there) ↦
              let qs = Sparse.put k (add old (of_nat boost)) ps in
              (
                vector num (of_nat 0) qs,
                rw
                    (
                      e,
                      upsert-updated num c ps k (of_nat boost) (λ a b. ok (add a b)) ascends bounded
                          known,
                      updated,
                      there,
                    )
                    refl,
                (
                  of_nat 0,
                  qs,
                  refl,
                  put-Ascends 0 k _ ps (omega arith) ascends,
                  put-Bounded exact k _ ps known bounded,
                ),
              )
        ]

    pub collect-refs :
        (term f : Text) (docs : List (Text × Kept)) (matching : List (Text × Found))
        → ((d : Text) → IsIn d (keys docs) → IsRef (f ++ (joiner ∷ d)))
        → ((key : Text) (found : Found) → get key matching ≡ some found → IsRef key)
        → (key : Text) (found : Found) → get key (collect num term f docs matching) ≡ some found
        → IsRef key
    unfolding collect to_string
    collect-refs term f [] matching new old = old
    collect-refs term f ((d, metadata) ∷ docs) matching new old =
        collect-refs term f docs _ (λ d' h. new d' (inr h))
          (λ key found.
            get-put-elim (λ o. o ≡ some found → IsRef key) (f ++ (joiner ∷ d)) key _ matching
              (λ same _. subst IsRef same (new d (inl refl))) (old key found))
