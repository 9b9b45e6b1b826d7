-- ===== src/Vector/Position.antt =====
-- `positionForIndex` of docs/ui/lunr.js finds its position on every ascending vector.

use kubearchive.Prelude.{
  Bool-cases, List, [], ap, arith, false, get_elem?, get_elem?_inside, inl, inr, length,
  lt_or_eq_or_gt, ltb, refl, some, suc, sym, true, zero, ℕ, ◌*◌, ◌+◌, ◌-◌, ◌/◌, ◌<◌, ◌==◌, ◌∙◌, ◌∷◌,
  ◌≡◌, ◌≤◌,
}
use kubearchive.Vector.{
  Number, Search, initial_search, narrow, next_pivot, on_cells, pivot_index, position_at,
  position_for_index, search,
}
use kubearchive.Vector.Sparse.{
  Ascends, Bounded, flat, get_elem?-Bounded, get_elem?-flat, length-flat, rank, rank-get_elem?,
  rank-le-length,
}

module _ (num : Number) (ps : List (ℕ × num.F)) (k : ℕ) (ascends : Ascends 0 ps)
    (bounded : Bounded num.exact ps) (known : k ≤ num.exact) where
  open num use {F, exact, of_nat, lt, eq, lt-of_nat, eq-of_nat}

  abbrev es : List F
  es = flat of_nat ps

  -- The rank lies in the slice, whose pivot is its middle.
  record IsValid (s : Search) : Type 0 where
    below : s.start ≤ rank k ps
    above : rank k ps ≤ s.end
    inside : s.end ≤ length ps
    filled : s.start < s.end
    slice : s.slice_length ≡ s.end - s.start
    pivot : s.pivot_point ≡ s.start + s.slice_length / 2

  -- What the pivot's cell tells.
  data Pivot (s : Search) : Type 0 where
    hit : rank k ps ≡ s.pivot_point → get_elem? es (s.pivot_point * 2) ≡ some (of_nat k) → Pivot s
    low :
        (i : ℕ)
        → i < k
        → i ≤ exact
        → s.pivot_point < rank k ps
        → get_elem? es (s.pivot_point * 2) ≡ some (of_nat i)
        → Pivot s
    high :
        (i : ℕ)
        → k < i
        → i ≤ exact
        → rank k ps ≤ s.pivot_point
        → get_elem? es (s.pivot_point * 2) ≡ some (of_nat i)
        → Pivot s

  Pivot-holds : (s : Search) → s.pivot_point < length ps → Pivot s
  Pivot-holds s inside =
      let ((i, v), at) = get_elem?_inside ps s.pivot_point inside in
      let (_, below, above, same) = rank-get_elem? 0 k ps s.pivot_point i v ascends at in
      let (cell, _) = get_elem?-flat of_nat ps s.pivot_point (s.pivot_point * 2) i v refl at in
      let b = get_elem?-Bounded exact ps s.pivot_point i v bounded at in
      elim (lt_or_eq_or_gt i k) [
        | inl (inl less) ↦ low i less b (below less) cell
        | inl (inr e) ↦ hit (same e) (cell ∙ ap (λ x. some (of_nat x)) e)
        | inr more ↦ high i more b (above more) cell
      ]

  position_at-hit :
      (s : Search)
      → rank k ps ≡ s.pivot_point
      → get_elem? es (s.pivot_point * 2) ≡ some (of_nat k)
      → position_at num es (of_nat k) s ≡ some (rank k ps * 2)
  unfolding position_at
  position_at-hit s e cell =
      let same : (k == k) ≡ true = ground arith in
      rw (cell, eq-of_nat k k known known, same) (ap some (omega (arith, e)))

  -- Behind the loop the slice has one cell, and the tests find the rank.
  position_at-rank :
      (s : Search)
      → IsValid s
      → s.slice_length ≤ 1
      → position_at num es (of_nat k) s ≡ some (rank k ps * 2)
  unfolding position_at pivot_index
  position_at-rank s v small = elim (Pivot-holds s (omega arith)) [
    | hit e cell ↦ unfold position_at in position_at-hit s e cell
    | low i less b e cell ↦
        let differ : (i == k) ≡ false = ground arith in
        let under : ltb i k ≡ true = ground arith in
        let over : ltb k i ≡ false = ground arith in
        rw
          (
            cell,
            eq-of_nat i k b known,
            differ,
            lt-of_nat k i known b,
            over,
            lt-of_nat i k b known,
            under,
          )
          (ap some (omega (arith, v.below, v.above)))
    | high i more b e cell ↦
        let differ : (i == k) ≡ false = ground arith in
        let over : ltb k i ≡ true = ground arith in
        rw (cell, eq-of_nat i k b known, differ, lt-of_nat k i known b, over)
          (ap some (omega (arith, e)))
  ]

  -- A round keeps the slice around the rank, and shortens it.
  narrow-IsValid :
      (s : Search)
      → IsValid s
      → 1 < s.slice_length
      → on_cells eq (pivot_index num es s) (some (of_nat k)) ≡ false
      → IsValid (next_pivot (narrow num es (of_nat k) s))
        × ((next_pivot (narrow num es (of_nat k) s)).slice_length < s.slice_length)
  unfolding next_pivot narrow pivot_index
  narrow-IsValid s v wide missed = elim (Pivot-holds s (omega arith)) [
    | hit e cell ↦
        let same : (k == k) ≡ true = ground arith in
        let both : true ≡ false = sym (rw (cell, eq-of_nat k k known known, same)) ∙ missed in cc
    | low i less b e cell ↦
        let under : ltb i k ≡ true = ground arith in
        let over : ltb k i ≡ false = ground arith in
        rw (cell, lt-of_nat k i known b, over, lt-of_nat i k b known, under)
          (omega arith, omega arith)
    | high i more b e cell ↦
        let under : ltb i k ≡ false = ground arith in
        let over : ltb k i ≡ true = ground arith in
        rw (cell, lt-of_nat k i known b, over, lt-of_nat i k b known, under)
          (omega arith, omega arith)
  ]

  abbrev Found : ℕ → Search → Type 0
  Found fuel s =
      (s' : Search) × (search num fuel es (of_nat k) s ≡ some s')
      × (position_at num es (of_nat k) s' ≡ some (rank k ps * 2))

  Found-small : (fuel : ℕ) (s : Search) → IsValid s → ltb 1 s.slice_length ≡ false → Found fuel s
  unfolding search
  Found-small zero s v small = (s, rw small, position_at-rank s v (ground arith))
  Found-small (suc fuel) s v small = (s, rw small, position_at-rank s v (ground arith))

  -- The `break`.
  Found-hit :
      (fuel : ℕ) (s : Search)
      → s.pivot_point < length ps
      → ltb 1 s.slice_length ≡ true
      → on_cells eq (pivot_index num es s) (some (of_nat k)) ≡ true
      → Found (suc fuel) s
  unfolding search pivot_index
  Found-hit fuel s inside wide equal = elim (Pivot-holds s inside) [
    | hit e cell ↦ (
      narrow num es (of_nat k) s,
      rw (wide, equal),
      position_at-hit (narrow num es (of_nat k) s) e cell,
    )
    | low i less b e cell ↦
        let differ : (i == k) ≡ false = ground arith in
        let both : true ≡ false = sym equal ∙ rw (cell, eq-of_nat i k b known, differ) in cc
    | high i more b e cell ↦
        let differ : (i == k) ≡ false = ground arith in
        let both : true ≡ false = sym equal ∙ rw (cell, eq-of_nat i k b known, differ) in cc
  ]

  -- With as much fuel as the slice has cells the loop ends at the position.
  search-rank : (fuel : ℕ) (s : Search) → IsValid s → s.slice_length ≤ suc fuel → Found fuel s
  unfolding search
  search-rank zero s v enough = Found-small zero s v (ground arith)
  search-rank (suc fuel) s v enough = elim (Bool-cases (ltb 1 s.slice_length)) [
    | inr small ↦ Found-small (suc fuel) s v small
    | inl wide ↦ elim (Bool-cases (on_cells eq (pivot_index num es s) (some (of_nat k)))) [
      | inl equal ↦ Found-hit fuel s (ground arith) wide equal
      | inr other ↦
          let (w, less) = narrow-IsValid s v (ground arith) other in
          let (found, ends, at) = search-rank fuel _ w (omega arith) in
          (found, rw (wide, other) ends, at)
    ]
  ]

  initial-IsValid : 0 < length ps → IsValid (initial_search num es)
  unfolding initial_search
  initial-IsValid filled = omega (arith, length-flat of_nat ps, rank-le-length k ps)

  position_found : 0 < length ps → position_for_index num es (of_nat k) ≡ some (rank k ps * 2)
  unfolding position_for_index
  position_found filled =
      let initial = initial-IsValid filled in
      let (s, ends, at) =
        search-rank (length es) (initial_search num es) initial
          (unfold initial_search in omega (arith, length-flat of_nat ps)) in
      let some_cell : (length es == 0) ≡ false = ground (arith, length-flat of_nat ps) in
      rw (some_cell, ends) at

-- On a vector with ascending indices, all of them exact numbers like the one given,
-- `positionForIndex` returns, and the position is twice the
-- number of indices below the given one: the place of that index, or where it belongs.
pub position_for_index-rank :
    (num : Number) (ps : List (ℕ × num.F)) (k : ℕ)
    → Ascends 0 ps
    → Bounded num.exact ps
    → k ≤ num.exact
    → position_for_index num (flat num.of_nat ps) (num.of_nat k) ≡ some (rank k ps * 2)
unfolding position_for_index rank
position_for_index-rank num [] k ascends bounded known = refl
position_for_index-rank num (e ∷ ps) k ascends bounded known =
    unfold position_for_index in position_found num (e ∷ ps) k ascends bounded known (omega arith)
