-- ===== src/Pipeline/Edits.antt =====
-- `after`, `before` and `remove` of docs/ui/lunr.js at the first place of a function.

use kubearchive.Prelude.{
  ==_refl, Bool, Bool-cases, List, [], any, ap, drop-append, err, false, inl, inr, length, none, ok,
  refl, some, suc, take-append, ℕ, ◌++◌, ◌==◌, ◌∷◌, ◌≡◌,
}
use kubearchive.Pipeline.{
  Pipeline, Registry, after, before, cannot_find_existing_fn, index_of, insert_at, remove,
  splice_in, splice_out,
}

-- Whether a function is in the stack.
abbrev pub member : ℕ → List ℕ → Bool
member fn gs = any (λ g. g == fn) gs

index_of-absent : (fn : ℕ) (gs : List ℕ) → member fn gs ≡ false → index_of fn gs ≡ none
unfolding index_of
index_of-absent fn [] h = refl
index_of-absent fn (g ∷ gs) h = elim (Bool-cases (g == fn)) [
  | inl hit ↦ let h' = rw hit at h in cc
  | inr miss ↦ let h' = rw miss at h in rw (miss, index_of-absent fn gs h') refl
]

index_of-first :
    (fn : ℕ) (xs ys : List ℕ)
    → member fn xs ≡ false
    → index_of fn (xs ++ (fn ∷ ys)) ≡ some (length xs)
unfolding index_of
index_of-first fn [] ys h = rw (==_refl fn) refl
index_of-first fn (x ∷ xs) ys h = elim (Bool-cases (x == fn)) [
  | inl hit ↦ let h' = rw hit at h in cc
  | inr miss ↦ let h' = rw miss at h in rw (miss, index_of-first fn xs ys h') refl
]

splice_in-before : (fn : ℕ) (xs ys : List ℕ) → splice_in (length xs) fn (xs ++ ys) ≡ xs ++ (fn ∷ ys)
unfolding splice_in
splice_in-before fn xs ys = rw (take-append xs ys, drop-append xs ys) refl

splice_in-after :
    (fn g : ℕ) (xs ys : List ℕ)
    → splice_in (suc (length xs)) fn (xs ++ (g ∷ ys)) ≡ xs ++ (g ∷ fn ∷ ys)
unfolding splice_in
splice_in-after fn g [] ys = refl
splice_in-after fn g (x ∷ xs) ys = ap (λ zs. x ∷ zs) (splice_in-after fn g xs ys)

splice_out-first : (g : ℕ) (xs ys : List ℕ) → splice_out (length xs) (xs ++ (g ∷ ys)) ≡ xs ++ ys
unfolding splice_out
splice_out-first g [] ys = refl
splice_out-first g (x ∷ xs) ys = ap (λ zs. x ∷ zs) (splice_out-first g xs ys)

abbrev pub stack_of : List ℕ → Pipeline
stack_of fns = record { stack = fns }

-- Where a function stands first in the stack, `after` puts the new one right behind it, `before`
-- right in front of it, and `remove` takes this occurrence out; the others stay in their order.
pub edits-first :
    (existing_fn new_fn : ℕ) (xs ys : List ℕ) (r : Registry)
    → member existing_fn xs ≡ false
    → ((after existing_fn new_fn (stack_of (xs ++ (existing_fn ∷ ys))) r).0
        ≡ ok (stack_of (xs ++ (existing_fn ∷ new_fn ∷ ys))))
      × ((before existing_fn new_fn (stack_of (xs ++ (existing_fn ∷ ys))) r).0
          ≡ ok (stack_of (xs ++ (new_fn ∷ existing_fn ∷ ys))))
      × (remove existing_fn (stack_of (xs ++ (existing_fn ∷ ys))) ≡ stack_of (xs ++ ys))
unfolding after before remove
edits-first e n xs ys r h =
    let at = index_of-first e xs ys h in
    (
      rw (at, insert_at) (ap (λ s. ok (stack_of s)) (splice_in-after n e xs ys)),
      rw (at, insert_at) (ap (λ s. ok (stack_of s)) (splice_in-before n xs (e ∷ ys))),
      rw (at, remove) (ap stack_of (splice_out-first e xs ys)),
    )

-- Where a function is not in the stack, `after` and `before` throw, and `remove` does nothing.
edits-absent :
    (existing_fn new_fn : ℕ) (fns : List ℕ) (r : Registry)
    → member existing_fn fns ≡ false
    → ((after existing_fn new_fn (stack_of fns) r).0 ≡ err cannot_find_existing_fn)
      × ((before existing_fn new_fn (stack_of fns) r).0 ≡ err cannot_find_existing_fn)
      × (remove existing_fn (stack_of fns) ≡ stack_of fns)
unfolding after before remove
edits-absent e n fns r h =
    let at = index_of-absent e fns h in
    (rw (at, insert_at) refl, rw (at, insert_at) refl, rw (at, remove) refl)
