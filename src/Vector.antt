-- ===== src/Vector.antt =====
-- lunr.Vector of docs/ui/lunr.js: a sparse vector in one flat array, `[index, value, …]`.

pub mod Sparse
pub mod Position
pub mod Upsert
pub mod Dot
pub mod Reached
pub mod Whole
mod Tests
use kubearchive.Prelude.{
  Bool, List, Option, Result, [], drop, err, false, get_elem?, if◌then◌else◌, length, ltb, none, ok,
  some, suc, take, zero, ℕ, ◌*◌, ◌++◌, ◌+◌, ◌-◌, ◌/◌, ◌==◌, ◌>>=◌, ◌∷◌, ◌≡◌, ◌≤◌,
}

-- The numbers of the host, which are IEEE doubles, with the operations that the vector uses. On
-- naturals up to `exact`, 2 ^ 53 - 1 for doubles, `<` and `==` are those of the naturals; 0 is not
-- truthy.
pub record Number : Type 1 where
  pub F : Type 0
  pub exact : ℕ
  pub of_nat : ℕ → F
  pub lt : F → F → Bool
  pub eq : F → F → Bool
  pub add : F → F → F
  pub mul : F → F → F
  pub div : F → F → F
  pub sqrt : F → F
  pub truthy : F → Bool
  pub lt-of_nat : (a b : ℕ) → a ≤ exact → b ≤ exact → lt (of_nat a) (of_nat b) ≡ ltb a b
  pub eq-of_nat : (a b : ℕ) → a ≤ exact → b ≤ exact → eq (of_nat a) (of_nat b) ≡ (a == b)
  pub truthy-zero : truthy (of_nat 0) ≡ false

-- A comparison with a cell out of range, which is `undefined`, fails.
abbrev pub on_cells {ℓ} : {A : Type ℓ} → (A → A → Bool) → Option A → Option A → Bool
on_cells r (some a) (some b) = r a b
on_cells r _ _ = false

-- `elements.splice(position, 0, a, b)`.
unfoldable pub splice_two {ℓ} : {A : Type ℓ} → ℕ → A → A → List A → List A
splice_two i a b xs = take i xs ++ (a ∷ b ∷ drop i xs)

-- An assignment to a cell.
abbrev pub set {ℓ} : {A : Type ℓ} → List A → ℕ → A → List A
set [] i v = []
set (x ∷ xs) zero v = v ∷ xs
set (x ∷ xs) (suc i) v = x ∷ set xs i v

-- The variables of the loop in `positionForIndex`; `pivotIndex` is the cell at `2 * pivot_point`.
pub record Search : Type 0 where
  pub start : ℕ
  pub end : ℕ
  pub slice_length : ℕ
  pub pivot_point : ℕ

-- The end of a round.
unfoldable pub next_pivot : Search → Search
next_pivot s =
    let slice_length = s.end - s.start in
    record s { slice_length = slice_length; pivot_point = s.start + slice_length / 2 }

-- What the callback of `upsert` throws.
pub data VectorError : Type 0 where
  duplicate_index : VectorError

module _ (num : Number) where
  open num use {F, of_nat, lt, eq, add, mul, div, sqrt, truthy}

  pub record Vector : Type 0 where
    pub magnitude_cache : F
    pub elements : List F

  unfoldable pub new : List F → Vector
  new elements = record { magnitude_cache = of_nat 0; elements = elements }

  unfoldable pub pivot_index : List F → Search → Option F
  pivot_index es s = get_elem? es (s.pivot_point * 2)

  -- The start of a round: both tests move an end of the slice to the pivot.
  unfoldable pub narrow : List F → F → Search → Search
  unfolding pivot_index
  narrow es index s =
      let pivot = pivot_index es s in
      record s {
        start = if on_cells lt pivot (some index) then s.pivot_point else s.start;
        end = if on_cells lt (some index) pivot then s.pivot_point else s.end;
      }

  -- The `while` loop, with its `break` where the pivot is the index; `none` means that the fuel ran
  -- out.
  unfoldable pub search : ℕ → List F → F → Search → Option Search
  unfolding narrow next_pivot
  search zero es index s = if ltb 1 s.slice_length then none else some s
  search (suc fuel) es index s =
      let rest = search fuel es index (next_pivot (narrow es index s)) in
      let round =
        if on_cells eq (pivot_index es s) (some index) then some (narrow es index s) else rest in
      if ltb 1 s.slice_length then round else some s

  unfoldable pub initial_search : List F → Search
  initial_search es = record {
    start = 0;
    end = length es / 2;
    slice_length = length es / 2;
    pivot_point = length es / 2 / 2;
  }

  -- The three tests behind the loop; where none holds the source returns `undefined`.
  unfoldable pub position_at : List F → F → Search → Option ℕ
  unfolding pivot_index
  position_at es index s =
      if on_cells eq (pivot_index es s) (some index)
      then some (s.pivot_point * 2)
      else if on_cells lt (some index) (pivot_index es s)
      then some (s.pivot_point * 2)
      else if on_cells lt (pivot_index es s) (some index)
      then some ((s.pivot_point + 1) * 2)
      else none

  -- Arrays hold pairs, so their length is even. `none` is `undefined`, or no fuel left.
  unfoldable pub position_for_index : List F → F → Option ℕ
  unfolding search position_at initial_search
  position_for_index es index =
      if length es == 0 then some 0 else elim (search (length es) es index (initial_search es)) [
        | none ↦ none
        | some s ↦ position_at es index s
      ]

  -- `fn` on the old value, which is `undefined` only past the end of an odd array.
  unfoldable pub update_cell :
      (F → F → Result VectorError F) → ℕ → F → List F → Result VectorError (List F)
  update_cell fn i val es = elim (get_elem? es i) [
    | none ↦ ok es
    | some old ↦ do new_val ← fn old val; ok (set es i new_val)
  ]

  unfoldable pub upsert_at :
      (F → F → Result VectorError F) → F → F → List F → ℕ → Result VectorError (List F)
  unfolding update_cell splice_two
  upsert_at fn index val es position =
      if on_cells eq (get_elem? es position) (some index)
      then update_cell fn (position + 1) val es
      else ok (splice_two position index val es)

  -- The cached magnitude is reset first. `none` is a search that found no position.
  unfoldable pub upsert :
      Vector → F → F → (F → F → Result VectorError F) → Option (Result VectorError Vector)
  upsert v index val fn = elim (position_for_index v.elements index) [
    | none ↦ none
    | some position ↦ some (do
      es ← upsert_at fn index val v.elements position
      ok (record { magnitude_cache = of_nat 0; elements = es }))
  ]

  unfoldable pub insert : Vector → F → F → Option (Result VectorError Vector)
  insert v index val = upsert v index val (λ _ _. err duplicate_index)

  -- The loop of `magnitude` over the values.
  unfoldable pub sum_of_squares : F → List F → F
  sum_of_squares acc (_ ∷ val ∷ es) = sum_of_squares (add acc (mul val val)) es
  sum_of_squares acc _ = acc

  unfoldable pub magnitude : Vector → F × Vector
  unfolding sum_of_squares
  magnitude v =
      if truthy v.magnitude_cache
      then (v.magnitude_cache, v)
      else let m = sqrt (sum_of_squares (of_nat 0) v.elements) in
        (m, record v { magnitude_cache = m })

  -- The `while` loop of `dot` over what is left of both arrays; `none` is a loop that makes no
  -- progress, at indices that do not compare.
  unfoldable pub dot_loop : List F → List F → F → Option F
  dot_loop (i ∷ x ∷ a) (j ∷ y ∷ b) acc =
      let skip_a = dot_loop a (j ∷ y ∷ b) acc in
      let skip_b = dot_loop (i ∷ x ∷ a) b acc in
      let both = dot_loop a b (add acc (mul x y)) in
      if lt i j then skip_a else if lt j i then skip_b else if eq i j then both else none
  dot_loop _ _ acc = some acc

  unfoldable pub dot : Vector → Vector → Option F
  unfolding dot_loop
  dot v w = dot_loop v.elements w.elements (of_nat 0)

  -- `|| 0` turns a quotient that is not truthy into 0.
  unfoldable pub similarity : Vector → Vector → Option (F × Vector)
  unfolding dot magnitude
  similarity v w = elim (dot v w) [
    | none ↦ none
    | some d ↦
        let (m, v') = magnitude v in let q = div d m in some (if truthy q then q else of_nat 0, v')
  ]

  -- The values, in order.
  unfoldable pub to_array : List F → List F
  to_array (_ ∷ val ∷ es) = val ∷ to_array es
  to_array _ = []
