-- ===== src/Metadata/Clone.antt =====
-- `lunr.utils.clone` of docs/ui/lunr.js copies what is flat, and throws at the rest.
use kubearchive.Prelude.{
  Bool, Bool-cases, [], all, ap, append-nil, append_assoc, arith, err, false, if◌then◌else◌, inl,
  inr, none, ok, refl, some, true, ◌++◌, ◌∙◌, ◌∷◌, ◌≡◌,
}
use kubearchive.Text.{Text}
use kubearchive.Metadata.{Metadata, Value, clone, clone_onto, get, is_flat, put, type_error}

abbrev pub all_flat : Metadata → Bool
all_flat obj = all (λ e. is_flat e.1) obj

-- No key is set twice, as in every object.
abbrev pub IsObject : Metadata → Metadata → Type 0
IsObject seen [] = Unit
IsObject seen ((k, v) ∷ rest) = (get k seen ≡ none) × IsObject (seen ++ (k, v) ∷ []) rest

put-absent : (k : Text) (v : Value) (d : Metadata) → get k d ≡ none → put k v d ≡ d ++ (k, v) ∷ []
unfolding get put
put-absent k v [] e = refl
put-absent k v ((j, w) ∷ d) e = ground (arith, put-absent k v d)

clone_onto-flat :
    (acc obj : Metadata)
    → IsObject acc obj
    → all_flat obj ≡ true
    → clone_onto acc obj ≡ ok (acc ++ obj)
unfolding clone_onto
clone_onto-flat acc [] distinct h = rw append-nil
clone_onto-flat acc ((key, val) ∷ rest) (new_key, distinct) h =
    let val_flat : is_flat val ≡ true = ground arith in
    let rest_flat : all_flat rest ≡ true = ground arith in
    rw (val_flat, put-absent key val acc new_key)
      (clone_onto-flat (acc ++ (key, val) ∷ []) rest distinct rest_flat
        ∙ ap ok (append_assoc acc ((key, val) ∷ []) rest))

clone_onto-nested :
    (acc obj : Metadata) → all_flat obj ≡ false → clone_onto acc obj ≡ err type_error
unfolding clone_onto
clone_onto-nested acc [] h = cc
clone_onto-nested acc ((key, val) ∷ rest) h =
    ground (arith, clone_onto-nested (put key val acc) rest)

-- Cloning an object whose values are arrays, strings, numbers and booleans gives an equal object;
-- with any other value in it, wherever it stands, `clone` throws a `TypeError`.
pub clone_lem :
    (obj : Metadata)
    → IsObject [] obj
    → clone (some obj) ≡ (if all_flat obj then ok (some obj) else err type_error)
unfolding clone
clone_lem obj distinct = elim (Bool-cases (all_flat obj)) [
  | inl flat ↦ rw (flat, clone_onto-flat [] obj distinct flat)
  | inr mixed ↦ rw (mixed, clone_onto-nested [] obj mixed)
]
