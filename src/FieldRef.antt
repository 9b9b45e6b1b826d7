-- ===== src/FieldRef.antt =====
-- lunr.FieldRef of docs/ui/lunr.js: the reference of a field of a document, and its text.
pub mod Texts
mod Tests
use kubearchive.Prelude.{
  Option, Result, [], drop, err, if◌then◌else◌, none, ok, some, suc, take, ℕ, ◌++◌, ◌+◌, ◌==◌, ◌∷◌,
}
use kubearchive.Text.{Text}

pub record FieldRef : Type 0 where
  pub doc_ref : Text
  pub field_name : Text
  pub string_value : Option Text

pub data FieldRefError : Type 0 where
  malformed_field_ref : FieldRefError

-- `lunr.FieldRef.joiner`, a slash.
abbrev pub joiner : ℕ
joiner = b'/'

-- `indexOf` of one character.
unfoldable pub index_of : ℕ → Text → Option ℕ
index_of c [] = none
index_of c (x ∷ s) =
    let later = index_of c s in
    if x == c then some 0 else elim later [ none ↦ none | some n ↦ some (suc n) ]

unfoldable pub from_string : Text → Result FieldRefError FieldRef
unfolding index_of
from_string s = elim (index_of joiner s) [
  | none ↦ err malformed_field_ref
  | some n ↦ ok (record { doc_ref = drop (suc n) s; field_name = take n s; string_value = some s })
]

-- The text, and the reference that keeps it.
unfoldable pub to_string : FieldRef → Text × FieldRef
to_string r = elim r.string_value [
  | some str ↦ (str, r)
  | none ↦
      let str = r.field_name ++ (joiner ∷ r.doc_ref) in (str, record r { string_value = some str })
]
