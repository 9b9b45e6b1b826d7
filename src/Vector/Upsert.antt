-- ===== src/Vector/Upsert.antt =====
-- `upsert` and `insert` of docs/ui/lunr.js against the list of indices and values that a vector
-- stands for.

use kubearchive.Vector.Position.{position_for_index-rank}
use kubearchive.Prelude.{
  List, Option-cases, Result, Result-cases, ap, arith, err, false, get_elem?, if◌then◌else◌, inl,
  inr, none, ok, refl, some, true, ℕ, ◌*◌, ◌==◌, ◌>>=◌, ◌∙◌, ◌≡◌, ◌≤◌, ◌⊎◌,
}
use native.Mathlib.Numerals.{add-one}
use kubearchive.Vector.{
  Number, Vector, VectorError, duplicate_index, insert, on_cells, update_cell, upsert, upsert_at,
}
use kubearchive.Vector.Sparse.{
  Ascends, Bounded, absent-flat, flat, lookup, lookup-put, put, put-Ascends, put-Bounded, rank,
  set-flat, splice-flat,
}

module _ (num : Number) where
  open num use {F, exact, of_nat, eq, eq-of_nat}

  abbrev pub vector : F → List (ℕ × F) → Vector num
  vector cache ps = record { magnitude_cache = cache; elements = flat of_nat ps }

  -- `fn` decides the new value of a present index; an absent one is added.
  abbrev pub updated :
      (F → F → Result VectorError F) → ℕ → F → List (ℕ × F) → Result VectorError (List (ℕ × F))
  updated fn k val ps = elim (lookup k ps) [
    | none ↦ ok (put k val ps)
    | some old ↦ do w ← fn old val; ok (put k w ps)
  ]

  upsert_at-absent :
      (fn : F → F → Result VectorError F) (k : ℕ) (val : F) (ps : List (ℕ × F))
      → Ascends 0 ps
      → Bounded exact ps
      → k ≤ exact
      → lookup k ps ≡ none
      → upsert_at num fn (of_nat k) val (flat of_nat ps) (rank k ps * 2)
        ≡ ok (flat of_nat (put k val ps))
  unfolding upsert_at
  upsert_at-absent fn k val ps ascends bounded known e =
      rw (other, splice-flat of_nat 0 k _ val ps refl ascends e)
    where
      other : on_cells eq (get_elem? (flat of_nat ps) (rank k ps * 2)) (some (of_nat k)) ≡ false
      other = elim (absent-flat of_nat exact 0 k _ ps refl bounded ascends e) [
        | inl past ↦ rw past
        | inr (i, cell, above, b) ↦ rw (cell, eq-of_nat i k b known) (ground arith)
      ]

  upsert_at-present :
      (fn : F → F → Result VectorError F) (k : ℕ) (val old : F) (ps : List (ℕ × F))
      → Ascends 0 ps
      → Bounded exact ps
      → k ≤ exact
      → lookup k ps ≡ some old
      → upsert_at num fn (of_nat k) val (flat of_nat ps) (rank k ps * 2)
        ≡ (fn old val >>= λ w. ok (flat of_nat (put k w ps)))
  unfolding upsert_at
  upsert_at-present fn k val old ps ascends bounded known e =
      let (key, cell, _) = set-flat of_nat 0 k _ val old ps refl ascends e in
      let same : (k == k) ≡ true = ground arith in
      rw (key, eq-of_nat k k known known, same, add-one, update_cell, cell)
        (elim (Result-cases (fn old val)) [
          | inr (why, thrown) ↦ rw thrown
          | inl (w, returned) ↦
              rw (returned, add-one) (ap ok (set-flat of_nat 0 k _ w old ps refl ascends e).2)
        ])

  -- On a vector with ascending indices, all exact numbers, `upsert` at an exact one returns: it adds the value under an absent index,
  -- and gives the old and the new value to the callback under a present one, whose result it
  -- stores and whose error it passes on. The cache of the magnitude is cleared.
  pub upsert-updated :
      (cache : F) (ps : List (ℕ × F)) (k : ℕ) (val : F) (fn : F → F → Result VectorError F)
      → Ascends 0 ps
      → Bounded exact ps
      → k ≤ exact
      → upsert num (vector cache ps) (of_nat k) val fn
        ≡ some (updated fn k val ps >>= λ qs. ok (vector (of_nat 0) qs))
  unfolding upsert
  upsert-updated cache ps k val fn ascends bounded known = elim (Option-cases (lookup k ps)) [
    | inl absent ↦ rw (
      position_for_index-rank num ps k ascends bounded known,
      upsert,
      upsert_at-absent fn k val ps ascends bounded known absent,
      updated,
      absent,
    )
    | inr (old, present) ↦
        rw
          (
            position_for_index-rank num ps k ascends bounded known,
            upsert,
            upsert_at-present fn k val old ps ascends bounded known present,
            updated,
            present,
          )
          (elim (Result-cases (fn old val)) [
            | inl (w, returned) ↦ rw returned
            | inr (why, thrown) ↦ rw thrown
          ])
  ]

  -- `insert` at an exact index into a vector with ascending, exact indices throws "duplicate index" if the index is there.
  -- If not, it returns a vector with ascending, exact indices that has the value under this index and
  -- under every other index what was there.
  pub insert-lookup :
      (cache : F) (ps : List (ℕ × F)) (k : ℕ) (val : F)
      → Ascends 0 ps
      → Bounded exact ps
      → k ≤ exact
      → ((old : F) × (lookup k ps ≡ some old)
          × (insert num (vector cache ps) (of_nat k) val ≡ some (err duplicate_index)))
        ⊎ ((qs : List (ℕ × F)) × (lookup k ps ≡ none)
            × (insert num (vector cache ps) (of_nat k) val ≡ some (ok (vector (of_nat 0) qs)))
            × Ascends 0 qs
            × Bounded exact qs
            × ((j : ℕ) → lookup j qs ≡ (if k == j then some val else lookup j ps)))
  unfolding insert
  insert-lookup cache ps k val ascends bounded known = elim (Option-cases (lookup k ps)) [
    | inl absent ↦ inr (
      put k val ps,
      absent,
      upsert-updated cache ps k val _ ascends bounded known ∙ rw (updated, absent),
      put-Ascends 0 k val ps (omega arith) ascends,
      put-Bounded exact k val ps known bounded,
      λ j. lookup-put 0 k j val ps ascends,
    )
    | inr (old, present) ↦ inl (
      old,
      present,
      upsert-updated cache ps k val _ ascends bounded known ∙ rw (updated, present),
    )
  ]
