-- ===== src/Vector/Dot.antt =====
-- `dot` of docs/ui/lunr.js against the sum over the common indices.

use kubearchive.Prelude.{
  List, Option, [], arith, false, inl, inr, lt_or_eq_or_gt, ltb, none, refl, some, suc, true, ℕ,
  ◌<◌, ◌==◌, ◌∷◌, ◌≡◌,
}
use kubearchive.Vector.{Number, dot, dot_loop}
use kubearchive.Vector.Sparse.{Ascends, Bounded, flat, lookup, lookup-above}

module _ (num : Number) where
  open num use {F, exact, of_nat, lt, eq, add, mul, lt-of_nat, eq-of_nat}

  add_product : F → F → Option F → F
  add_product acc x none = acc
  add_product acc x (some y) = add acc (mul x y)

  -- The products of the values that share an index, added up in the order of the first vector.
  pub products : List (ℕ × F) → List (ℕ × F) → F → F
  unfolding add_product
  products [] qs acc = acc
  products ((i, x) ∷ ps) qs acc = products ps qs (add_product acc x (lookup i qs))

  -- An index below all of the first vector's adds nothing.
  products_skip :
      (lo j : ℕ) (y acc : F) (ps qs : List (ℕ × F))
      → Ascends lo ps
      → j < lo
      → products ps ((j, y) ∷ qs) acc ≡ products ps qs acc
  unfolding products lookup
  products_skip lo j y acc [] qs h less = refl
  products_skip lo j y acc ((i, x) ∷ ps) qs h less =
      let differ : (j == i) ≡ false = ground arith in
      rw differ (products_skip (suc i) j y _ ps qs h.1 (omega arith))

  products-nil : (ps : List (ℕ × F)) (acc : F) → products ps [] acc ≡ acc
  unfolding products lookup
  products-nil [] acc = refl
  products-nil ((i, x) ∷ ps) acc = products-nil ps acc

  module _ (i j : ℕ) (x y acc : F) (ps qs : List (ℕ × F)) where
    products-less :
        {lo : ℕ}
        → Ascends lo ((j, y) ∷ qs)
        → i < j
        → products ((i, x) ∷ ps) ((j, y) ∷ qs) acc ≡ products ps ((j, y) ∷ qs) acc
    unfolding products
    products-less h' less = rw (lookup-above j i ((j, y) ∷ qs) (omega arith, h'.1) less)

    products-more :
        {lo : ℕ}
        → Ascends lo ((i, x) ∷ ps)
        → j < i
        → products ((i, x) ∷ ps) ((j, y) ∷ qs) acc ≡ products ((i, x) ∷ ps) qs acc
    products-more h less = products_skip i j y acc ((i, x) ∷ ps) qs (omega arith, h.1) less

    products_same :
        {lo : ℕ}
        → Ascends lo ((i, x) ∷ ps)
        → i ≡ j
        → products ((i, x) ∷ ps) ((j, y) ∷ qs) acc ≡ products ps qs (add acc (mul x y))
    unfolding products lookup
    products_same h e =
        let same : (j == i) ≡ true = ground arith in
        rw same (products_skip (suc i) j y _ ps qs h.1 (omega arith))

  dot_loop-products :
      (lo lo' : ℕ) (ps qs : List (ℕ × F)) (acc : F)
      → Ascends lo ps
      → Ascends lo' qs
      → Bounded exact ps
      → Bounded exact qs
      → dot_loop num (flat of_nat ps) (flat of_nat qs) acc ≡ some (products ps qs acc)
  unfolding dot_loop
  dot_loop-products lo lo' [] qs acc h h' b b' = unfold products in refl
  dot_loop-products lo lo' ((i, x) ∷ ps) [] acc h h' b b' = rw (products-nil ((i, x) ∷ ps) acc)
  dot_loop-products lo lo' ((i, x) ∷ ps) ((j, y) ∷ qs) acc h h' b b' = elim (lt_or_eq_or_gt i j) [
    | inl (inl less) ↦
        let under : ltb i j ≡ true = ground arith in
        rw (lt-of_nat i j b.0 b'.0, under, products-less i j x y acc ps qs h' less)
          (dot_loop-products (suc i) lo' ps ((j, y) ∷ qs) acc h.1 h' b.1 b')
    | inl (inr same) ↦
        let under : ltb i j ≡ false = ground arith in
        let over : ltb j i ≡ false = ground arith in
        let equal : (i == j) ≡ true = ground arith in
        rw
          (
            lt-of_nat i j b.0 b'.0,
            under,
            lt-of_nat j i b'.0 b.0,
            over,
            eq-of_nat i j b.0 b'.0,
            equal,
            products_same i j x y acc ps qs h same,
          )
          (dot_loop-products (suc i) (suc j) ps qs _ h.1 h'.1 b.1 b'.1)
    | inr more ↦
        let under : ltb i j ≡ false = ground arith in
        let over : ltb j i ≡ true = ground arith in
        rw
          (
            lt-of_nat i j b.0 b'.0,
            under,
            lt-of_nat j i b'.0 b.0,
            over,
            products-more i j x y acc ps qs h more,
          )
          (dot_loop-products lo (suc j) ((i, x) ∷ ps) qs acc h h'.1 b b'.1)
  ]

  -- On vectors with ascending, exact indices `dot` returns, and its result is the sum of the products of
  -- the values that share an index, in the order of the first vector.
  pub dot-products :
      (cache cache' : F) (ps qs : List (ℕ × F))
      → Ascends 0 ps
      → Ascends 0 qs
      → Bounded exact ps
      → Bounded exact qs
      → dot num
          (record { magnitude_cache = cache; elements = flat of_nat ps })
          (record { magnitude_cache = cache'; elements = flat of_nat qs })
        ≡ some (products ps qs (of_nat 0))
  unfolding dot
  dot-products cache cache' ps qs h h' b b' = dot_loop-products 0 0 ps qs (of_nat 0) h h' b b'
