-- ===== src/Vector/Reached.antt =====
-- The cached magnitude of lunr.Vector in docs/ui/lunr.js, in whatever order vectors are changed and
-- measured.

use kubearchive.Prelude.{
  Bool-cases, List, Option-cases, Result, Result-cases, [], arith, err, false, inl, inr, ltb, ok,
  refl, some, subst, sym, true, ℕ, ◌==◌, ◌>>=◌, ◌∙◌, ◌∷◌, ◌≡◌, ◌≤◌,
}
use kubearchive.Vector
use kubearchive.Vector.{
  Number, Vector, VectorError, dot, dot_loop, magnitude, sum_of_squares, upsert,
}
use kubearchive.Vector.Sparse.{Ascends, Bounded, flat, lookup, put, put-Ascends, put-Bounded}
use kubearchive.Vector.Upsert.{updated, upsert-updated, vector}

some-same : {A : Type 0} {a b : A} → some a ≡ some b → a ≡ b
some-same e = cc

module _ (num : Number) where
  open num use {F, exact, of_nat, lt, eq, lt-of_nat, eq-of_nat, sqrt, truthy, truthy-zero}

  -- The vectors that come from an empty one by `upsert` at exact indices, which has `insert` as a
  -- case, and by `magnitude`, which leaves its result in the vector.
  pub data Reached : Vector num → Type 0 where
    start : Reached (Vector.new num [])
    upserted :
        {v w : Vector num} (k : ℕ) (val : F) (fn : F → F → Result VectorError F)
        → Reached v
        → k ≤ exact
        → upsert num v (of_nat k) val fn ≡ some (ok w)
        → Reached w
    measured : {v : Vector num} → Reached v → Reached (magnitude num v).1

  -- The product of a vector with itself is the sum of its squares.
  dot_loop-squares :
      (ps : List (ℕ × F)) (acc : F)
      → Bounded exact ps
      → dot_loop num (flat of_nat ps) (flat of_nat ps) acc
        ≡ some (sum_of_squares num acc (flat of_nat ps))
  unfolding dot_loop sum_of_squares
  dot_loop-squares [] acc _ = refl
  dot_loop-squares ((i, x) ∷ ps) acc (b, bounded) =
      let not_less : ltb i i ≡ false = ground arith in
      let same : (i == i) ≡ true = ground arith in
      rw (lt-of_nat i i b b, eq-of_nat i i b b, not_less, same) (dot_loop-squares ps _ bounded)

  -- A flat array with ascending, exact indices, with nothing in the cache or the magnitude.
  abbrev IsSound : Vector num → Type 0
  IsSound v =
      (c : F) × (ps : List (ℕ × F)) × (v ≡ vector num c ps)
      × Ascends 0 ps
      × Bounded exact ps
      × (truthy c ≡ true → c ≡ sqrt (sum_of_squares num (of_nat 0) (flat of_nat ps)))

  updated-IsSound :
      (k : ℕ) (val : F) (fn : F → F → Result VectorError F) (ps : List (ℕ × F)) (w : Vector num)
      → Ascends 0 ps
      → Bounded exact ps
      → k ≤ exact
      → (updated num fn k val ps >>= λ qs. ok (vector num (of_nat 0) qs)) ≡ ok w
      → IsSound w
  updated-IsSound k val fn ps w ascends bounded known e = elim (Option-cases (lookup k ps)) [
    | inl absent ↦
        let at : ◌≡◌ {A = Result VectorError (Vector num)}
            (ok (vector num (of_nat 0) (put k val ps))) (ok w) =
          rw (updated, absent) at e in
        empty-IsSound (put k val ps) (ok-same at) (put-Ascends 0 k val ps (omega arith) ascends)
          (put-Bounded exact k val ps known bounded)
    | inr (old, there) ↦ elim (Result-cases (fn old val)) [
      | inl (x, returned) ↦
          let at : ◌≡◌ {A = Result VectorError (Vector num)}
              (ok (vector num (of_nat 0) (put k x ps))) (ok w) =
            rw (updated, there, returned) at e in
          empty-IsSound (put k x ps) (ok-same at) (put-Ascends 0 k x ps (omega arith) ascends)
            (put-Bounded exact k x ps known bounded)
      | inr (why, thrown) ↦ absurd (err-ok (rw (updated, there, thrown) at e))
    ]
  ]
    where
      ok-same : {a b : Vector num} → ◌≡◌ {A = Result VectorError (Vector num)} (ok a) (ok b) → a ≡ b
      ok-same h = cc

      err-ok :
          {why : VectorError} {b : Vector num}
          → ¬ (◌≡◌ {A = Result VectorError (Vector num)} (err why) (ok b))
      err-ok h = cc

      empty-IsSound :
          (qs : List (ℕ × F))
          → vector num (of_nat 0) qs ≡ w
          → Ascends 0 qs
          → Bounded exact qs
          → IsSound w
      empty-IsSound qs at ascends' bounded' = (
        of_nat 0,
        qs,
        sym at,
        ascends',
        bounded',
        λ full. absurd (let clash : true ≡ false = sym full ∙ truthy-zero in cc),
      )

  -- What `magnitude` returns and leaves.
  abbrev IsMeasured : Vector num → Type 0
  IsMeasured v =
      (d : F) × (dot num v v ≡ some d)
      × ((magnitude num v).0 ≡ sqrt d)
      × ((magnitude num v).1.elements ≡ v.elements)
      × IsSound (magnitude num v).1

  vector-IsMeasured :
      (c : F) (ps : List (ℕ × F))
      → Ascends 0 ps
      → Bounded exact ps
      → (truthy c ≡ true → c ≡ sqrt (sum_of_squares num (of_nat 0) (flat of_nat ps)))
      → IsMeasured (vector num c ps)
  unfolding dot magnitude
  vector-IsMeasured c ps ascends bounded cached =
      let d = sum_of_squares num (of_nat 0) (flat of_nat ps) in
      let product = dot_loop-squares ps (of_nat 0) bounded in
      elim (Bool-cases (truthy c)) [
        | inl full ↦ (
          d,
          product,
          rw full (cached full),
          rw full refl,
          rw full (c, ps, refl, ascends, bounded, cached),
        )
        | inr none_yet ↦ (
          d,
          product,
          rw none_yet refl,
          rw none_yet refl,
          rw none_yet (sqrt d, ps, refl, ascends, bounded, λ _. refl),
        )
      ]

  IsSound-IsMeasured : (v : Vector num) → IsSound v → IsMeasured v
  IsSound-IsMeasured v (c, ps, e, ascends, bounded, cached) =
      subst IsMeasured (sym e) (vector-IsMeasured c ps ascends bounded cached)

  Reached-IsSound : {v : Vector num} → Reached v → IsSound v
  unfolding Vector.new
  Reached-IsSound start = (
    of_nat 0,
    [],
    refl,
    tt,
    tt,
    λ full. absurd (let clash : true ≡ false = sym full ∙ truthy-zero in cc),
  )
  Reached-IsSound (upserted {w = w} k val fn before known done) =
      let (c, ps, e, ascends, bounded, _) = Reached-IsSound before in
      updated-IsSound k val fn ps w ascends bounded known
        (some-same (sym (upsert-updated num c ps k val fn ascends bounded known) ∙ rw e at done))
  Reached-IsSound (measured {v = v} before) =
      let (_, _, _, _, is_sound) = IsSound-IsMeasured v (Reached-IsSound before) in is_sound

  -- Whatever was upserted and measured before, `magnitude` is the root of the product of the vector
  -- with itself, which `dot` returns; it leaves the elements as they are.
  pub magnitude-Reached :
      (v : Vector num)
      → Reached v
      → (d : F) × (dot num v v ≡ some d)
        × ((magnitude num v).0 ≡ sqrt d)
        × ((magnitude num v).1.elements ≡ v.elements)
  magnitude-Reached v reached =
      let (d, product, root, same, _) = IsSound-IsMeasured v (Reached-IsSound reached) in
      (d, product, root, same)
