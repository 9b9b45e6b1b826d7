-- ===== src/Vector/Sparse.antt =====
-- What a vector of docs/ui/lunr.js stands for: a list of indices and values in ascending order,
-- and the flat array that holds it.

use kubearchive.Vector.{set, splice_two}
use kubearchive.Prelude.{
  List, Option, [], arith, get_elem?, if-intro, if◌then◌else◌, inl, inr, length, ltb, none, refl,
  some, suc, zero, ℕ, ◌*◌, ◌<◌, ◌==◌, ◌∷◌, ◌≡◌, ◌≤◌, ◌⊎◌,
}

module _ {ℓ} {F : Type ℓ} where
  -- Every index is at least `lo`, and below the next one.
  abbrev pub Ascends : ℕ → List (ℕ × F) → Type 0
  Ascends lo [] = Unit
  Ascends lo ((i, v) ∷ ps) = (lo ≤ i) × Ascends (suc i) ps

  -- No index is above `hi`.
  abbrev pub Bounded : ℕ → List (ℕ × F) → Type 0
  Bounded hi [] = Unit
  Bounded hi ((i, v) ∷ ps) = (i ≤ hi) × Bounded hi ps

  -- How many indices lie below `k`.
  unfoldable pub rank : ℕ → List (ℕ × F) → ℕ
  rank k [] = 0
  rank k ((i, v) ∷ ps) = if ltb i k then suc (rank k ps) else 0

  unfoldable pub lookup : ℕ → List (ℕ × F) → Option F
  lookup k [] = none
  lookup k ((i, v) ∷ ps) = if i == k then some v else lookup k ps

  unfoldable pub put : ℕ → F → List (ℕ × F) → List (ℕ × F)
  put k w [] = (k, w) ∷ []
  put k w ((i, v) ∷ ps) =
      if ltb i k then (i, v) ∷ put k w ps else if i == k then (k, w) ∷ ps else (k, w) ∷ (i, v) ∷ ps

  abbrev pub flat : (ℕ → F) → List (ℕ × F) → List F
  flat of_nat [] = []
  flat of_nat ((i, v) ∷ ps) = of_nat i ∷ v ∷ flat of_nat ps

  pub rank-le-length : (k : ℕ) (ps : List (ℕ × F)) → rank k ps ≤ length ps
  unfolding rank
  rank-le-length k [] = omega arith
  rank-le-length k ((i, v) ∷ ps) = ground (arith, rank-le-length k ps)

  pub get_elem?-Bounded :
      (hi : ℕ) (ps : List (ℕ × F)) (p i : ℕ) (v : F)
      → Bounded hi ps
      → get_elem? ps p ≡ some (i, v)
      → i ≤ hi
  get_elem?-Bounded hi [] p i v h e = cc
  get_elem?-Bounded hi ((j, w) ∷ ps) zero i v h e = ground arith
  get_elem?-Bounded hi ((j, w) ∷ ps) (suc p) i v h e = get_elem?-Bounded hi ps p i v h.1 e

  pub put-Bounded :
      (hi k : ℕ) (w : F) (ps : List (ℕ × F)) → k ≤ hi → Bounded hi ps → Bounded hi (put k w ps)
  unfolding put
  put-Bounded hi k w [] le h = (le, tt)
  put-Bounded hi k w ((i, v) ∷ ps) le (here, h) =
      if-intro (Bounded hi) (ltb i k) (here, put-Bounded hi k w ps le h)
        (if-intro (Bounded hi) (i == k) (le, h) (le, (here, h)))

  Ascends-weaken : (lo lo' : ℕ) (ps : List (ℕ × F)) → lo ≤ lo' → Ascends lo' ps → Ascends lo ps
  Ascends-weaken lo lo' [] le h = tt
  Ascends-weaken lo lo' ((i, v) ∷ ps) le h = (omega arith, h.1)

  -- The index in place `p` against `k` tells on which side of the rank `p` lies.
  pub rank-get_elem? :
      (lo k : ℕ) (ps : List (ℕ × F)) (p : ℕ) (i : ℕ) (v : F)
      → Ascends lo ps
      → get_elem? ps p ≡ some (i, v)
      → (lo ≤ i) × (i < k → p < rank k ps) × (k < i → rank k ps ≤ p) × (i ≡ k → rank k ps ≡ p)
  unfolding rank
  rank-get_elem? lo k [] p i v h e = cc
  rank-get_elem? lo k ((j, w) ∷ ps) zero i v h e = ground arith
  rank-get_elem? lo k ((j, w) ∷ ps) (suc p) i v h e =
      ground (arith, rank-get_elem? (suc j) k ps p i v h.1 e)

  pub lookup-above : (lo k : ℕ) (ps : List (ℕ × F)) → Ascends lo ps → k < lo → lookup k ps ≡ none
  unfolding lookup
  lookup-above lo k [] h lt = refl
  lookup-above lo k ((i, v) ∷ ps) h lt = ground (arith, lookup-above (suc i) k ps h.1)

  pub put-Ascends :
      (lo k : ℕ) (w : F) (ps : List (ℕ × F)) → lo ≤ k → Ascends lo ps → Ascends lo (put k w ps)
  unfolding put
  put-Ascends lo k w [] le h = (le, tt)
  put-Ascends lo k w ((i, v) ∷ ps) le h = ground (arith, put-Ascends (suc i) k w ps)

  pub lookup-put :
      (lo k j : ℕ) (w : F) (ps : List (ℕ × F))
      → Ascends lo ps
      → lookup j (put k w ps) ≡ (if k == j then some w else lookup j ps)
  unfolding put lookup
  lookup-put lo k j w [] h = refl
  lookup-put lo k j w ((i, v) ∷ ps) h =
      ground (arith, lookup-put (suc i) k j w ps h.1, lookup-above (suc i) j ps h.1)

  module _ (of_nat : ℕ → F) where
    pub length-flat : (ps : List (ℕ × F)) → length (flat of_nat ps) ≡ length ps * 2
    length-flat [] = omega arith
    length-flat ((i, v) ∷ ps) = omega (arith, length-flat ps)

    -- The cells of the pair in place `p`.
    pub get_elem?-flat :
        (ps : List (ℕ × F)) (p n : ℕ) (i : ℕ) (v : F)
        → n ≡ p * 2
        → get_elem? ps p ≡ some (i, v)
        → (get_elem? (flat of_nat ps) n ≡ some (of_nat i))
          × (get_elem? (flat of_nat ps) (suc n) ≡ some v)
    get_elem?-flat [] p n i v d e = cc
    get_elem?-flat ((j, w) ∷ ps) zero zero i v d e = ground arith
    get_elem?-flat ((j, w) ∷ ps) zero (suc n) i v d e = absurd (omega arith)
    get_elem?-flat ((j, w) ∷ ps) (suc p) zero i v d e = absurd (omega arith)
    get_elem?-flat ((j, w) ∷ ps) (suc p) (suc zero) i v d e = absurd (omega arith)
    get_elem?-flat ((j, w) ∷ ps) (suc p) (suc (suc n)) i v d e =
        get_elem?-flat ps p n i v (omega arith) e

    -- At twice the rank of an absent index a pair can be spliced in.
    pub splice-flat :
        (lo k n : ℕ) (w : F) (ps : List (ℕ × F))
        → n ≡ rank k ps * 2
        → Ascends lo ps
        → lookup k ps ≡ none
        → splice_two n (of_nat k) w (flat of_nat ps) ≡ flat of_nat (put k w ps)
    unfolding splice_two rank lookup put
    splice-flat lo k zero w [] d h e = refl
    splice-flat lo k (suc n) w [] d h e = absurd (omega arith)
    splice-flat lo k zero w ((i, v) ∷ ps) d h e = ground arith
    splice-flat lo k (suc zero) w ((i, v) ∷ ps) d h e = absurd (ground arith)
    splice-flat lo k (suc (suc n)) w ((i, v) ∷ ps) d h e =
        ground (arith, splice-flat (suc i) k n w ps)

    -- Twice the rank of a present index is its cell, with the value behind it.
    pub set-flat :
        (lo k n : ℕ) (w old : F) (ps : List (ℕ × F))
        → n ≡ rank k ps * 2
        → Ascends lo ps
        → lookup k ps ≡ some old
        → (get_elem? (flat of_nat ps) n ≡ some (of_nat k))
          × (get_elem? (flat of_nat ps) (suc n) ≡ some old)
          × (set (flat of_nat ps) (suc n) w ≡ flat of_nat (put k w ps))
    unfolding rank lookup put
    set-flat lo k n w old [] d h e = cc
    set-flat lo k zero w old ((i, v) ∷ ps) d h e = ground (arith, lookup-above (suc i) k ps h.1)
    set-flat lo k (suc zero) w old ((i, v) ∷ ps) d h e = absurd (ground arith)
    set-flat lo k (suc (suc n)) w old ((i, v) ∷ ps) d h e =
        ground (arith, set-flat (suc i) k n w old ps)

    -- The cell at twice the rank of an absent index is past the end, or holds another index.
    pub absent-flat :
        (hi lo k n : ℕ) (ps : List (ℕ × F))
        → n ≡ rank k ps * 2
        → Bounded hi ps
        → Ascends lo ps
        → lookup k ps ≡ none
        → (get_elem? (flat of_nat ps) n ≡ none)
          ⊎ ((i : ℕ) × (get_elem? (flat of_nat ps) n ≡ some (of_nat i)) × (k < i) × (i ≤ hi))
    unfolding rank lookup
    absent-flat hi lo k n [] d b h e = inl refl
    absent-flat hi lo k zero ((i, v) ∷ ps) d b h e = inr (i, refl, ground arith, b.0)
    absent-flat hi lo k (suc zero) ((i, v) ∷ ps) d b h e = absurd (ground arith)
    absent-flat hi lo k (suc (suc n)) ((i, v) ∷ ps) d b h e =
        absent-flat hi (suc i) k n ps (ground arith) b.1 h.1 (ground arith)
