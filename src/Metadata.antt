-- ===== src/Metadata.antt =====
-- Objects of docs/ui/lunr.js that serve as dictionaries, and `lunr.utils`. A dictionary is a list
-- of keys and values in the order in which the keys were first set; the host moves keys that are
-- array indices to the front, which no theorem here depends on.
use kubearchive.Prelude.{
  Bool, List, Option, Result, [], arith, err, false, if◌then◌else◌, none, ok, refl, some, true, ℕ,
  ◌>>=◌, ◌∷◌, ◌≡◌,
}
use kubearchive.Text.{Text, text_eq, text_eq_iff}
pub mod Clone
mod Tests

-- `lunr.utils.asString`, of a value that is `undefined` or `null`, or has a `toString`.
unfoldable pub as_string : Option Text → Text
as_string none = []
as_string (some str) = str

module _ {ℓ} {V : Type ℓ} where
  unfoldable pub get : Text → List (Text × V) → Option V
  get k [] = none
  get k ((j, v) ∷ d) = if text_eq j k then some v else get k d

  unfoldable pub put : Text → V → List (Text × V) → List (Text × V)
  put k v [] = (k, v) ∷ []
  put k v ((j, w) ∷ d) = if text_eq j k then (j, v) ∷ d else (j, w) ∷ put k v d

  pub get-put :
      (k j : Text) (v : V) (d : List (Text × V))
      → get j (put k v d) ≡ (if text_eq k j then some v else get j d)
  unfolding get put
  get-put k j v [] = refl
  get-put k j v ((i, w) ∷ d) =
      ground (arith, text_eq_iff k j, text_eq_iff i k, text_eq_iff i j, get-put k j v d)

-- The values that a metadata object holds, told apart as `clone` does.
pub data Value : Type 0 where
  texts : List Text → Value
  numbers : List ℕ → Value
  text : Text → Value
  number : ℕ → Value
  flag : Bool → Value
  nested : Value

abbrev pub Metadata : Type 0
Metadata = List (Text × Value)

pub data CloneError : Type 0 where
  type_error : CloneError

abbrev pub is_flat : Value → Bool
is_flat nested = false
is_flat _ = true

-- The loop of `clone`: an array is copied by `slice`, a primitive value is kept.
unfoldable pub clone_onto : Metadata → Metadata → Result CloneError Metadata
clone_onto clone [] = ok clone
clone_onto clone ((key, val) ∷ rest) =
    let more = clone_onto (put key val clone) rest in if is_flat val then more else err type_error

-- `none` is `null` or `undefined`.
unfoldable pub clone : Option Metadata → Result CloneError (Option Metadata)
clone none = ok none
clone (some obj) = do copy ← clone_onto [] obj; ok (some copy)
