-- ===== src/SearchSet/Tests.antt =====
-- The theorems on lunr.Set of docs/ui/lunr.js at concrete sets.
use kubearchive.Prelude.{[], refl, ◌&&◌, ◌||◌, ◌∷◌, ◌≡◌}
use kubearchive.Text.{lit}
use kubearchive.SearchSet.{SearchSet, contains, intersect, new, of, union}
use kubearchive.SearchSet.Laws.{contains-intersect, contains-union}

sets : Unit {0}
unfolding contains intersect union new
sets = tt

abbrev pods : SearchSet
pods = of (lit "a" ∷ lit "b" ∷ []) 2

abbrev jobs : SearchSet
jobs = of (lit "b" ∷ lit "c" ∷ []) 3

-- A repeated key counts twice in the length of a union.
union_length : union pods jobs ≡ of (lit "a" ∷ lit "b" ∷ lit "c" ∷ []) 4
unfolding sets
union_length = refl

contains-intersect_example :
    contains (intersect pods jobs) (lit "b") ≡ (contains pods (lit "b") && contains jobs (lit "b"))
contains-intersect_example = contains-intersect pods jobs (lit "b")

contains-union_example :
    contains (union pods jobs) (lit "c") ≡ (contains pods (lit "c") || contains jobs (lit "c"))
contains-union_example = contains-union pods jobs (lit "c")
