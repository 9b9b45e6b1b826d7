-- ===== src/Index/Keys.antt =====
-- What `collect` does to the dictionary of matching fields of docs/ui/lunr.js, and keys that are two
-- names with a slash between them.
use kubearchive.Prelude.{
  Bool-cases, List, [], false, inl, inr, refl, some, sym, true, ◌++◌, ◌==◌, ◌∙◌, ◌∷◌, ◌≡◌, ◌⊎◌,
}
use kubearchive.Text.{Text, text_eq, text_eq_iff}
use kubearchive.FieldRef.{joiner, to_string}
use kubearchive.FieldRef.Texts.{has_joiner}
use kubearchive.SearchSet.{has}
use kubearchive.Builder.{Kept}
use kubearchive.Vector.{Number}
use kubearchive.Metadata.{get, get-put, put}
use kubearchive.Index.{Found, collect, keys}

has_joiner-append : (xs f : Text) → has_joiner (xs ++ (joiner ∷ f)) ≡ true
has_joiner-append [] f = refl
has_joiner-append (x ∷ xs) f =
    let rest = has_joiner-append xs f in
    elim (Bool-cases (x == joiner)) [ inl slash ↦ rw slash refl | inr other ↦ rw other rest ]

pub joined-injective :
    (xs ys f g : Text)
    → has_joiner f ≡ false
    → has_joiner g ≡ false
    → xs ++ (joiner ∷ f) ≡ ys ++ (joiner ∷ g)
    → (xs ≡ ys) × (f ≡ g)
joined-injective [] [] f g plain plain' e = let tails : f ≡ g = cc in (refl, tails)
joined-injective [] (y ∷ ys) f g plain plain' e =
    let tails : f ≡ ys ++ (joiner ∷ g) = cc in
    let slash : has_joiner f ≡ true = rw tails (has_joiner-append ys g) in
    absurd (let clash : true ≡ false = sym slash ∙ plain in cc)
joined-injective (x ∷ xs) [] f g plain plain' e =
    let tails : xs ++ (joiner ∷ f) ≡ g = cc in
    let slash : has_joiner g ≡ true = rw (sym tails) (has_joiner-append xs f) in
    absurd (let clash : true ≡ false = sym slash ∙ plain' in cc)
joined-injective (x ∷ xs) (y ∷ ys) f g plain plain' e =
    let heads : x ≡ y = cc in
    let tails : xs ++ (joiner ∷ f) ≡ ys ++ (joiner ∷ g) = cc in
    let (same, same') = joined-injective xs ys f g plain plain' tails in (cc, same')

abbrev pub IsKnown : {V : Type 0} → List (Text × V) → Text → Type 0
IsKnown {V} d key = (v : V) × (get key d ≡ some v)

pub IsKnown-put :
    {V : Type 0} (k j : Text) (v : V) (d : List (Text × V))
    → (k ≡ j) ⊎ IsKnown d j
    → IsKnown (put k v d) j
IsKnown-put k j v d h = elim (Bool-cases (text_eq k j)) [
  | inl same ↦ (v, rw (get-put, same) refl)
  | inr other ↦ elim h [
    | inl at ↦ absurd (let found : text_eq k j ≡ true = (text_eq_iff k j).1 at in cc)
    | inr (w, there) ↦ (w, rw (get-put, other) there)
  ]
]

pub IsKnown-before :
    {V : Type 0} (k j : Text) (v : V) (d : List (Text × V))
    → IsKnown (put k v d) j
    → (k ≡ j) ⊎ IsKnown d j
IsKnown-before k j v d (w, h) = elim (Bool-cases (text_eq k j)) [
  | inl same ↦ inl ((text_eq_iff k j).0 same)
  | inr other ↦ inr (w, rw (get-put, other) at h)
]

has-first : (d : Text) (ds : List Text) → has d (d ∷ ds) ≡ true
has-first d ds = let same : text_eq d d ≡ true = (text_eq_iff d d).1 refl in rw same refl

has-later : (d e : Text) (ds : List Text) → has d ds ≡ true → has d (e ∷ ds) ≡ true
has-later d e ds h = elim (Bool-cases (text_eq d e)) [
  | inl same ↦ rw same refl
  | inr other ↦ rw other h
]

module _ (num : Number) (term f : Text) where
  pub collect-old :
      (docs : List (Text × Kept)) (matching : List (Text × Found)) (key : Text)
      → IsKnown matching key
      → IsKnown (collect num term f docs matching) key
  unfolding collect to_string
  collect-old [] matching key h = h
  collect-old ((d, metadata) ∷ docs) matching key h =
      collect-old docs _ key (IsKnown-put (f ++ (joiner ∷ d)) key _ matching (inr h))

  pub collect-new :
      (docs : List (Text × Kept)) (matching : List (Text × Found)) (d : Text)
      → has d (keys docs) ≡ true
      → IsKnown (collect num term f docs matching) (f ++ (joiner ∷ d))
  unfolding collect to_string
  collect-new [] matching d h = cc
  collect-new ((e, metadata) ∷ docs) matching d h = elim (Bool-cases (text_eq d e)) [
    | inl same ↦
        let at : e ≡ d = sym ((text_eq_iff d e).0 same) in
        collect-old docs _ (f ++ (joiner ∷ d))
          (IsKnown-put (f ++ (joiner ∷ e)) (f ++ (joiner ∷ d)) _ matching (inl (rw at refl)))
    | inr other ↦ collect-new docs _ d (rw other at h)
  ]

  pub collect-from :
      (docs : List (Text × Kept)) (matching : List (Text × Found)) (key : Text)
      → IsKnown (collect num term f docs matching) key
      → IsKnown matching key ⊎ ((d : Text) × (has d (keys docs) ≡ true) × (key ≡ f ++ (joiner ∷ d)))
  unfolding collect to_string
  collect-from [] matching key h = inl h
  collect-from ((e, metadata) ∷ docs) matching key h = elim (collect-from docs _ key h) [
    | inl before ↦ elim (IsKnown-before (f ++ (joiner ∷ e)) key _ matching before) [
      | inl here ↦ inr (e, has-first e (keys docs), sym here)
      | inr old ↦ inl old
    ]
    | inr (d, there, same) ↦ inr (d, has-later d e (keys docs) there, same)
  ]
