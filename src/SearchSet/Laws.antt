-- ===== src/SearchSet/Laws.antt =====
-- lunr.Set of docs/ui/lunr.js is the algebra of its members, whatever its lengths are.
use kubearchive.Prelude.{
  Bool-cases, List, [], arith, inl, inr, ltb, refl, true, ◌&&◌, ◌++◌, ◌||◌, ◌∙◌, ◌∷◌, ◌≡◌,
}
use kubearchive.Text.{Text, text_eq_iff}
use kubearchive.SearchSet.{
  SearchSet, common, complete, contains, empty, has, intersect, new, of, set_keys, union,
}

any-append : (x : Text) (xs ys : List Text) → has x (xs ++ ys) ≡ (has x xs || has x ys)
any-append x [] ys = refl
any-append x (y ∷ xs) ys = ground (arith, any-append x xs ys)

has-set_keys :
    (x : Text) (keys xs : List Text) → has x (set_keys keys xs) ≡ (has x keys || has x xs)
unfolding set_keys
has-set_keys x keys [] = ground arith
has-set_keys x keys (y ∷ xs) = elim (Bool-cases (has y keys)) [
  | inl old ↦ rw (old, has-set_keys x keys xs) (ground (arith, text_eq_iff x y))
  | inr new ↦
      rw (new, has-set_keys x (keys ++ y ∷ []) xs, any-append x keys (y ∷ [])) (ground arith)
]

has-common : (x : Text) (a b : List Text) → has x (common a b) ≡ (has x a && has x b)
unfolding common
has-common x [] b = refl
has-common x (y ∷ a) b = ground (arith, has-common x a b, text_eq_iff x y)

pub contains-new : (x : Text) (xs : List Text) → contains (new xs) x ≡ has x xs
unfolding contains new
contains-new x xs = has-set_keys x [] xs

-- A member of the intersection is a member of both sets, and a member of both is one of it.
pub contains-intersect :
    (a b : SearchSet) (x : Text) → contains (intersect a b) x ≡ (contains a x && contains b x)
unfolding intersect contains
contains-intersect complete b x = refl
contains-intersect empty b x = refl
contains-intersect (of keys n) complete x = ground arith
contains-intersect (of keys n) empty x = ground arith
contains-intersect (of keys n) (of keys' n') x = elim (Bool-cases (ltb n n')) [
  | inl shorter ↦ rw (shorter, contains-new x (common keys keys')) (has-common x keys keys')
  | inr longer ↦
      rw (longer, contains-new x (common keys' keys), has-common x keys' keys) (ground arith)
]

-- A member of the union is a member of one of the sets, and a member of one is one of it.
pub contains-union :
    (a b : SearchSet) (x : Text) → contains (union a b) x ≡ (contains a x || contains b x)
unfolding union contains
contains-union complete b x = refl
contains-union empty b x = refl
contains-union (of keys n) complete x = ground arith
contains-union (of keys n) empty x = ground arith
contains-union (of keys n) (of keys' n') x =
    contains-new x (keys ++ keys') ∙ any-append x keys keys'

pub not_in_empty : (d : Text) → ¬ (contains empty d ≡ true)
unfolding contains
not_in_empty d h = cc
