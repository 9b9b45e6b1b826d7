-- ===== src/SearchSet.antt =====
-- lunr.Set of docs/ui/lunr.js. The two frozen sets are `complete` and `empty`; the keys of
-- `elements` are a list without repetitions, in the order in which they were first set.
use kubearchive.Prelude.{Bool, List, [], any, false, if◌then◌else◌, length, ltb, true, ℕ, ◌++◌, ◌∷◌}
use kubearchive.Text.{Text, text_eq}
pub mod Laws
mod Tests

-- `object in elements`.
abbrev pub has : Text → List Text → Bool
has x = any (text_eq x)

-- The assignments of the constructor, one key after the other.
unfoldable pub set_keys : List Text → List Text → List Text
set_keys keys [] = keys
set_keys keys (x ∷ xs) = set_keys (if has x keys then keys else keys ++ x ∷ []) xs

pub data SearchSet : Type 0 where
  complete : SearchSet
  empty : SearchSet
  of : List Text → ℕ → SearchSet

-- `length` is that of the array, repetitions included.
unfoldable pub new : List Text → SearchSet
unfolding set_keys
new elements = of (set_keys [] elements) (length elements)

unfoldable pub contains : SearchSet → Text → Bool
contains complete x = true
contains empty x = false
contains (of keys n) x = has x keys

-- The loop of `intersect` over the keys of the shorter set.
unfoldable pub common : List Text → List Text → List Text
common [] b = []
common (x ∷ a) b = if has x b then x ∷ common a b else common a b

unfoldable pub intersect : SearchSet → SearchSet → SearchSet
unfolding common new
intersect complete other = other
intersect empty other = empty
intersect (of keys n) complete = of keys n
intersect (of keys n) empty = empty
intersect (of keys n) (of keys' n') =
    if ltb n n' then new (common keys keys') else new (common keys' keys)

unfoldable pub union : SearchSet → SearchSet → SearchSet
unfolding new
union complete other = complete
union empty other = other
union (of keys n) complete = complete
union (of keys n) empty = of keys n
union (of keys n) (of keys' n') = new (keys ++ keys')
