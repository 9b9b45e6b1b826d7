-- ===== src/Prelude/Lists.antt =====
-- Lists measured and indexed by native numbers, and predicates on all members.
use Prim.Native.Nat.{ℕ, zero, suc, ◌+◌, ◌<◌}
use mathlib.Core.Path.{◌≡◌, refl}
use mathlib.Core.Bool.{Bool, true, false, ◌&&◌, ◌||◌}
use mathlib.Core.List.{List, [], ◌∷◌, ◌++◌}
use mathlib.Core.Option.{Option, none, some}
use native.Mathlib.Omega.{arith}
use native.Mathlib.Numerals.{add-one}

module _ {ℓ} {A : Type ℓ} where
  abbrev pub length : List A → ℕ
  length [] = 0
  length (x ∷ xs) = suc (length xs)

  abbrev pub get_elem? : List A → ℕ → Option A
  get_elem? [] i = none
  get_elem? (x ∷ xs) zero = some x
  get_elem? (x ∷ xs) (suc i) = get_elem? xs i

  abbrev pub take : ℕ → List A → List A
  take zero xs = []
  take (suc n) [] = []
  take (suc n) (x ∷ xs) = x ∷ take n xs

  abbrev pub drop : ℕ → List A → List A
  drop zero xs = xs
  drop (suc n) [] = []
  drop (suc n) (x ∷ xs) = drop n xs

  abbrev pub all : (A → Bool) → List A → Bool
  all p [] = true
  all p (x ∷ xs) = p x && all p xs

  abbrev pub any : (A → Bool) → List A → Bool
  any p [] = false
  any p (x ∷ xs) = p x || any p xs

  pub length-append : (xs ys : List A) → length (xs ++ ys) ≡ length xs + length ys
  length-append [] ys = omega arith
  length-append (x ∷ xs) ys = omega (arith, length-append xs ys)

  pub drop-append : (xs ys : List A) → drop (length xs) (xs ++ ys) ≡ ys
  drop-append [] ys = refl
  drop-append (x ∷ xs) ys = drop-append xs ys

  pub take-append : (xs ys : List A) → take (length xs) (xs ++ ys) ≡ xs
  take-append [] ys = refl
  take-append (x ∷ xs) ys = λ i. x ∷ take-append xs ys i

module _ {ℓ κ} {A : Type ℓ} where
  abbrev pub All : (A → Type κ) → List A → Type κ
  All P [] = Unit
  All P (x ∷ xs) = P x × All P xs

  pub All-append : (P : A → Type κ) (xs ys : List A) → All P xs → All P ys → All P (xs ++ ys)
  All-append P [] ys _ k = k
  All-append P (x ∷ xs) ys (p, h) k = (p, All-append P xs ys h k)

pub get_elem?_inside {ℓ} :
    {A : Type ℓ} (xs : List A) (i : ℕ) → i < length xs → (a : A) × (get_elem? xs i ≡ some a)
get_elem?_inside [] i h = absurd (omega arith)
get_elem?_inside (x ∷ xs) zero h = (x, refl)
get_elem?_inside (x ∷ xs) (suc i) h = get_elem?_inside xs i (omega arith)

module _ {ℓ} {A : Type ℓ} where
  pub get_elem?_of_drop :
      (xs : List A) (i : ℕ) {x : A} {rest : List A}
      → drop i xs ≡ x ∷ rest
      → (get_elem? xs i ≡ some x) × (drop (i + 1) xs ≡ rest)
  get_elem?_of_drop [] zero e = cc
  get_elem?_of_drop [] (suc i) e = cc
  get_elem?_of_drop (x ∷ xs) zero e = (cc, cc)
  get_elem?_of_drop (x ∷ xs) (suc i) e =
      let (here, rest) = get_elem?_of_drop xs i e in (here, simp (add-one) (rw add-one at rest))

  pub get_elem?_of_drop_nil : (xs : List A) (i : ℕ) → drop i xs ≡ [] → get_elem? xs i ≡ none
  get_elem?_of_drop_nil [] i e = refl
  get_elem?_of_drop_nil (x ∷ xs) zero e = cc
  get_elem?_of_drop_nil (x ∷ xs) (suc i) e = get_elem?_of_drop_nil xs i e
