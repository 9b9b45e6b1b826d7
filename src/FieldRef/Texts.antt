-- ===== src/FieldRef/Texts.antt =====
-- References of docs/ui/lunr.js against their texts.
use kubearchive.Prelude.{
  ==_iff, Bool, Bool-cases, Option, [], any, ap, drop, err, false, inl, inr, length, none, ok, refl,
  some, suc, sym, take, take-append, ℕ, ◌++◌, ◌==◌, ◌∷◌, ◌≡◌, ◌⊎◌,
}
use kubearchive.Text.{Text}
use kubearchive.FieldRef.{FieldRef, from_string, index_of, joiner, malformed_field_ref, to_string}

-- Whether a text has the joiner in it.
abbrev pub has_joiner : Text → Bool
has_joiner s = any (λ c. c == joiner) s

index_of-append :
    (f d : Text) → has_joiner f ≡ false → index_of joiner (f ++ (joiner ∷ d)) ≡ some (length f)
unfolding index_of
index_of-append [] d h = refl
index_of-append (x ∷ f) d h = elim (Bool-cases (x == joiner)) [
  | inl hit ↦ let h' = rw hit at h in cc
  | inr miss ↦ let h' = rw miss at h in rw (miss, index_of-append f d h')
]

-- The index of the joiner, with what stands before and behind it.
abbrev FoundAt : Text → ℕ → Type 0
FoundAt s n =
    (index_of joiner s ≡ some n)
    × (take n s ++ (joiner ∷ drop (suc n) s) ≡ s)
    × (has_joiner (take n s) ≡ false)

index_of-cases :
    (s : Text) → ((index_of joiner s ≡ none) × (has_joiner s ≡ false)) ⊎ ((n : ℕ) × FoundAt s n)
unfolding index_of
index_of-cases [] = inl (refl, refl)
index_of-cases (x ∷ s) = elim (Bool-cases (x == joiner)) [
  | inl hit ↦
      let same : x ≡ joiner = (==_iff x joiner).0 hit in inr (0, (rw hit refl, rw same refl, refl))
  | inr miss ↦ elim (index_of-cases s) [
    | inl (none_of, without) ↦ inl (rw (miss, none_of) refl, rw miss without)
    | inr (n, (found, split, without)) ↦
        inr (suc n, (rw (miss, found) refl, ap (λ t. x ∷ t) split, rw miss without))
  ]
]

drop-past : (f d : Text) (c : ℕ) → drop (suc (length f)) (f ++ (c ∷ d)) ≡ d
drop-past [] d c = refl
drop-past (x ∷ f) d c = drop-past f d c

pub from_string-joined :
    (f d : Text)
    → has_joiner f ≡ false
    → from_string (f ++ (joiner ∷ d))
      ≡ ok (record { doc_ref = d; field_name = f; string_value = some (f ++ (joiner ∷ d)) })
unfolding from_string
from_string-joined f d h =
    rw (index_of-append f d h, from_string, take-append f (joiner ∷ d), drop-past f d joiner) refl

-- The text that a reference keeps, if it keeps one, is its own.
abbrev pub KeepsOwn : Option Text → Text → Type 0
KeepsOwn none own = Unit
KeepsOwn (some kept) own = kept ≡ own

abbrev reference : Text → Text → Option Text → FieldRef
reference d f o = record { doc_ref = d; field_name = f; string_value = o }

read_back :
    (d f : Text) (o : Option Text)
    → has_joiner f ≡ false
    → KeepsOwn o (f ++ (joiner ∷ d))
    → (from_string (to_string (reference d f o)).0 ≡ ok (to_string (reference d f o)).1)
      × ((to_string (reference d f o)).1.doc_ref ≡ d)
      × ((to_string (reference d f o)).1.field_name ≡ f)
      × (to_string (to_string (reference d f o)).1 ≡ to_string (reference d f o))
unfolding to_string
read_back d f none plain _ = (from_string-joined f d plain, refl, refl, refl)
read_back d f (some kept) plain own = (rw own (from_string-joined f d plain), refl, refl, refl)

-- A reference whose field has no slash in its name, and which keeps no text or its own, is read back
-- from its text as `toString` leaves it, with the text kept; and its text stays the same when
-- `toString` is called again.
pub from_string-to_string :
    (r : FieldRef)
    → has_joiner r.field_name ≡ false
    → KeepsOwn r.string_value (r.field_name ++ (joiner ∷ r.doc_ref))
    → (from_string (to_string r).0 ≡ ok (to_string r).1)
      × ((to_string r).1.doc_ref ≡ r.doc_ref)
      × ((to_string r).1.field_name ≡ r.field_name)
      × (to_string (to_string r).1 ≡ to_string r)
from_string-to_string r plain own = read_back r.doc_ref r.field_name r.string_value plain own

-- A text without a slash is refused. Any other text is cut at its first slash, and is the text of
-- the reference it gives.
pub to_string-from_string :
    (s : Text)
    → ((has_joiner s ≡ false) × (from_string s ≡ err malformed_field_ref))
      ⊎ ((r : FieldRef) × (from_string s ≡ ok r)
          × (s ≡ r.field_name ++ (joiner ∷ r.doc_ref))
          × (has_joiner r.field_name ≡ false)
          × ((to_string r).0 ≡ s))
unfolding from_string to_string
to_string-from_string s = elim (index_of-cases s) [
  | inl (none_of, without) ↦ inl (without, rw (from_string, none_of) refl)
  | inr (n, (found, split, without)) ↦ inr (
    record { doc_ref = drop (suc n) s; field_name = take n s; string_value = some s },
    rw (from_string, found) refl,
    sym split,
    without,
    refl,
  )
]
