-- ===== src/Vector/Tests.antt =====
-- lunr.Vector of docs/ui/lunr.js on whole numbers, and its theorems at concrete inputs.

use kubearchive.Prelude.{
  List, [], arith, err, if◌then◌else◌, none, ok, refl, some, ℕ, ◌*◌, ◌+◌, ◌==◌, ◌>>=◌, ◌∷◌, ◌≡◌,
  ◌⊎◌,
}
use kubearchive.Vector.{
  dot, duplicate_index, insert, magnitude, new, position_for_index, similarity, sum_of_squares,
  to_array, upsert, upsert_at,
}
use kubearchive.Vector.Whole.{root_from, whole}
use kubearchive.Vector.Sparse.{Ascends, Bounded, flat, lookup, put, rank}
use kubearchive.Vector.Position.{position_for_index-rank}
use kubearchive.Vector.Upsert.{insert-lookup, updated, upsert-updated, vector}
use kubearchive.Vector.Reached.{Reached, magnitude-Reached, measured, start, upserted}
use kubearchive.Vector.Dot.{dot-products, products}

vectors : Unit {0}
unfolding position_for_index dot similarity upsert insert upsert_at new to_array rank lookup put
    magnitude
vectors = tt

abbrev scores : List (ℕ × ℕ)
scores = (1, 3) ∷ (4, 4) ∷ (7, 12) ∷ []

abbrev other_scores : List (ℕ × ℕ)
other_scores = (0, 5) ∷ (4, 2) ∷ (7, 1) ∷ (9, 9) ∷ []

scores-Ascends : Ascends 0 scores
scores-Ascends = (omega arith, (omega arith, (omega arith, tt)))

other_scores-Ascends : Ascends 0 other_scores
other_scores-Ascends = (omega arith, (omega arith, (omega arith, (omega arith, tt))))

scores-Bounded : Bounded 9007199254740991 scores
scores-Bounded = (omega arith, (omega arith, (omega arith, tt)))

other_scores-Bounded : Bounded 9007199254740991 other_scores
other_scores-Bounded = (omega arith, (omega arith, (omega arith, (omega arith, tt))))

dot_run : dot whole (vector whole 0 scores) (vector whole 0 other_scores) ≡ some 20
unfolding vectors
dot_run = refl

position_for_index-rank_example :
    position_for_index whole (flat (λ n. n) scores) 5 ≡ some (rank 5 scores * 2)
position_for_index-rank_example =
    position_for_index-rank whole scores 5 scores-Ascends scores-Bounded (omega arith)

upsert-updated_example :
    upsert whole (vector whole 13 scores) 4 6 (λ old val. ok (old + val))
    ≡ some (updated whole (λ old val. ok (old + val)) 4 6 scores >>= λ qs. ok (vector whole 0 qs))
upsert-updated_example =
    upsert-updated whole 13 scores 4 6 (λ old val. ok (old + val)) scores-Ascends scores-Bounded
      (omega arith)

insert-lookup_example :
    ((old : ℕ) × (lookup 5 scores ≡ some old)
      × (insert whole (vector whole 13 scores) 5 8 ≡ some (err duplicate_index)))
    ⊎ ((qs : List (ℕ × ℕ)) × (lookup 5 scores ≡ none)
        × (insert whole (vector whole 13 scores) 5 8 ≡ some (ok (vector whole 0 qs)))
        × Ascends 0 qs
        × Bounded 9007199254740991 qs
        × ((j : ℕ) → lookup j qs ≡ (if 5 == j then some 8 else lookup j scores)))
insert-lookup_example =
    insert-lookup whole 13 scores 5 8 scores-Ascends scores-Bounded (omega arith)

-- An upsert after the magnitude has been taken.
changed-Reached : Reached whole (vector whole 0 ((1, 3) ∷ (4, 4) ∷ []))
unfolding vectors sum_of_squares
changed-Reached =
    upserted 4 4 (λ old val. ok val)
      (measured (upserted 1 3 (λ old val. ok val) start (omega arith) refl)) (omega arith) refl

magnitude-Reached_example :
    (d : ℕ) × (dot whole
        (vector whole 0 ((1, 3) ∷ (4, 4) ∷ []))
        (vector whole 0 ((1, 3) ∷ (4, 4) ∷ []))
      ≡ some d)
    × ((magnitude whole (vector whole 0 ((1, 3) ∷ (4, 4) ∷ []))).0 ≡ root_from d d)
    × ((magnitude whole (vector whole 0 ((1, 3) ∷ (4, 4) ∷ []))).1.elements ≡ 1 ∷ 3 ∷ 4 ∷ 4 ∷ [])
magnitude-Reached_example =
    magnitude-Reached whole (vector whole 0 ((1, 3) ∷ (4, 4) ∷ [])) changed-Reached

dot-products_example :
    dot whole (vector whole 0 scores) (vector whole 7 other_scores)
    ≡ some (products whole scores other_scores 0)
dot-products_example =
    dot-products whole 0 7 scores other_scores scores-Ascends other_scores-Ascends scores-Bounded
      other_scores-Bounded
