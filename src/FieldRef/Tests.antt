-- ===== src/FieldRef/Tests.antt =====
-- References of docs/ui/lunr.js at concrete texts.
use kubearchive.Prelude.{err, false, none, ok, refl, ◌++◌, ◌∷◌, ◌≡◌, ◌⊎◌}
use kubearchive.Text.{lit}
use kubearchive.FieldRef.{FieldRef, from_string, joiner, malformed_field_ref, to_string}
use kubearchive.FieldRef.Texts.{from_string-to_string, has_joiner, to_string-from_string}

abbrev page : FieldRef
page = record { doc_ref = lit "docs/ui"; field_name = lit "title"; string_value = none }

from_string-to_string_example :
    (from_string (to_string page).0 ≡ ok (to_string page).1)
    × ((to_string page).1.doc_ref ≡ lit "docs/ui")
    × ((to_string page).1.field_name ≡ lit "title")
    × (to_string (to_string page).1 ≡ to_string page)
from_string-to_string_example = from_string-to_string page refl tt

to_string-from_string_example :
    ((has_joiner (lit "text/a/b") ≡ false)
      × (from_string (lit "text/a/b") ≡ err malformed_field_ref))
    ⊎ ((r : FieldRef) × (from_string (lit "text/a/b") ≡ ok r)
        × (lit "text/a/b" ≡ r.field_name ++ (joiner ∷ r.doc_ref))
        × (has_joiner r.field_name ≡ false)
        × ((to_string r).0 ≡ lit "text/a/b"))
to_string-from_string_example = to_string-from_string (lit "text/a/b")
