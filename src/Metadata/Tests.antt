-- ===== src/Metadata/Tests.antt =====
-- Copies of metadata objects of docs/ui/lunr.js.
use kubearchive.Prelude.{[], err, if◌then◌else◌, ok, refl, some, ◌∷◌, ◌≡◌}
use kubearchive.Text.{lit}
use kubearchive.Metadata.{Metadata, clone, get, number, numbers, put, type_error}
use kubearchive.Metadata.Clone.{all_flat, clone_lem}

objects : Unit {0}
unfolding clone put get
objects = tt

abbrev obj : Metadata
obj = (lit "index", number 2) ∷ (lit "position", numbers (0 ∷ 4 ∷ [])) ∷ []

clone_example : clone (some obj) ≡ (if all_flat obj then ok (some obj) else err type_error)
unfolding objects
clone_example = clone_lem obj (refl, (refl, tt))
