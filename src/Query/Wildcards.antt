-- ===== src/Query/Wildcards.antt =====
-- Clauses of docs/ui/lunr.js: their wildcards, and one clause for each term.
use kubearchive.Prelude.{
  Bool-cases, [], ap, append-nil, append_assoc, arith, false, if-intro, inl, inr, not, ok, refl,
  some, subst, sym, true, ℕ, ◌&&◌, ◌++◌, ◌==◌, ◌∙◌, ◌∷◌, ◌≡◌, ◌⊎◌,
}
use kubearchive.Text.{Text}
use kubearchive.Query.{
  Clause, Options, Query, add_leading, add_trailing, add_wildcards, clause, ends_with_wildcard,
  is_leading, is_trailing, optional, or_default, starts_with_wildcard, wildcard,
}

abbrev pub bits : Options → ℕ
bits o = or_default o.wildcard 0

abbrev pub with_wildcards : ℕ → Text → Text
with_wildcards w t = add_trailing w (add_leading w t)

starts-add_leading :
    (w : ℕ) (t : Text) → is_leading w ≡ true → starts_with_wildcard (add_leading w t) ≡ true
unfolding add_leading starts_with_wildcard
starts-add_leading w [] e = rw e refl
starts-add_leading w (c ∷ t) e = elim (Bool-cases (c == wildcard)) [
  | inl there ↦ rw (e, there) there
  | inr missing ↦ rw (e, missing) refl
]

starts-concat : (t u : Text) → starts_with_wildcard t ≡ true → starts_with_wildcard (t ++ u) ≡ true
unfolding starts_with_wildcard
starts-concat [] u e = cc
starts-concat (c ∷ t) u e = e

starts-add_trailing :
    (w : ℕ) (t : Text)
    → starts_with_wildcard t ≡ true
    → starts_with_wildcard (add_trailing w t) ≡ true
unfolding add_trailing
starts-add_trailing w t e =
    if-intro (λ s. starts_with_wildcard s ≡ true) (is_trailing w && not (ends_with_wildcard t))
      (starts-concat t (wildcard ∷ []) e) e

ends-concat : (t : Text) → ends_with_wildcard (t ++ wildcard ∷ []) ≡ true
unfolding ends_with_wildcard
ends-concat [] = refl
ends-concat (c ∷ []) = refl
ends-concat (c ∷ d ∷ t) = ends-concat (d ∷ t)

ends-add_trailing :
    (w : ℕ) (t : Text) → is_trailing w ≡ true → ends_with_wildcard (add_trailing w t) ≡ true
unfolding add_trailing
ends-add_trailing w t e = elim (Bool-cases (ends_with_wildcard t)) [
  | inl there ↦ rw (e, there) there
  | inr missing ↦ rw (e, missing) (ends-concat t)
]

add_leading-idle :
    (w : ℕ) (t : Text) → (is_leading w ≡ true → starts_with_wildcard t ≡ true) → add_leading w t ≡ t
unfolding add_leading
add_leading-idle w t h = elim (Bool-cases (is_leading w)) [
  | inl bit ↦ rw (bit, h bit) refl
  | inr clear ↦ rw clear refl
]

add_trailing-idle :
    (w : ℕ) (t : Text) → (is_trailing w ≡ true → ends_with_wildcard t ≡ true) → add_trailing w t ≡ t
unfolding add_trailing
add_trailing-idle w t h = elim (Bool-cases (is_trailing w)) [
  | inl bit ↦ rw (bit, h bit) refl
  | inr clear ↦ rw clear refl
]

-- The clause of the options with the term given, and the defaults of the query.
abbrev pub finished : Query → Options → Text → Clause
finished q o s = record {
  term = some s;
  fields = or_default o.fields q.all_fields;
  boost = or_default o.boost 1;
  use_pipeline = or_default o.use_pipeline true;
  wildcard = bits o;
  presence = or_default o.presence optional;
  edit_distance = o.edit_distance;
}

-- No text, or one wildcard.
abbrev pub IsStar : Text → Type 0
IsStar s = (s ≡ []) ⊎ (s ≡ wildcard ∷ [])

-- What is added at the start and at the end of a term by the bits of `w`: nothing or one wildcard, and
-- nothing where the bit is clear or the term has its wildcard already.
abbrev pub IsAdded : ℕ → Text → Text → Text → Type 0
IsAdded w t lead trail =
    IsStar lead
    × IsStar trail
    × (is_leading w ≡ false → lead ≡ [])
    × (is_trailing w ≡ false → trail ≡ [])
    × (starts_with_wildcard t ≡ true → lead ≡ [])
    × (ends_with_wildcard t ≡ true → trail ≡ [])

ends-cons : (c : ℕ) (t : Text) → ends_with_wildcard t ≡ true → ends_with_wildcard (c ∷ t) ≡ true
unfolding ends_with_wildcard
ends-cons c [] h = cc
ends-cons c (d ∷ t) h = h

add_leading-IsStar :
    (w : ℕ) (t : Text)
    → (lead : Text) × (add_leading w t ≡ lead ++ t)
      × IsStar lead
      × (is_leading w ≡ false → lead ≡ [])
      × (starts_with_wildcard t ≡ true → lead ≡ [])
unfolding add_leading
add_leading-IsStar w t = elim (Bool-cases (is_leading w && not (starts_with_wildcard t))) [
  | inl needed ↦ (
    wildcard ∷ [],
    rw needed refl,
    inr refl,
    λ clear. absurd (let clash : false ≡ true = rw clear at needed in cc),
    λ there. absurd (let clash : false ≡ true = ground (arith) in cc),
  )
  | inr idle ↦ ([], rw idle refl, inl refl, λ _. refl, λ _. refl)
]

add_trailing-IsStar :
    (w : ℕ) (t : Text)
    → (trail : Text) × (add_trailing w t ≡ t ++ trail)
      × IsStar trail
      × (is_trailing w ≡ false → trail ≡ [])
      × (ends_with_wildcard t ≡ true → trail ≡ [])
unfolding add_trailing
add_trailing-IsStar w t = elim (Bool-cases (is_trailing w && not (ends_with_wildcard t))) [
  | inl needed ↦ (
    wildcard ∷ [],
    rw needed refl,
    inr refl,
    λ clear. absurd (let clash : false ≡ true = rw clear at needed in cc),
    λ there. absurd (let clash : false ≡ true = ground (arith) in cc),
  )
  | inr idle ↦ ([], rw idle (sym (append-nil t)), inl refl, λ _. refl, λ _. refl)
]

lead-ends :
    (lead t : Text)
    → IsStar lead
    → ends_with_wildcard t ≡ true
    → ends_with_wildcard (lead ++ t) ≡ true
lead-ends lead t (inl none_added) h = rw none_added h
lead-ends lead t (inr added) h = rw added (ends-cons wildcard t h)

with_wildcards-IsAdded :
    (w : ℕ) (t : Text)
    → (lead : Text) × (trail : Text) × (with_wildcards w t ≡ lead ++ (t ++ trail))
      × IsAdded w t lead trail
with_wildcards-IsAdded w t =
    let (lead, at, star, clear, there) = add_leading-IsStar w t in
    let (trail, at', star', clear', there') = add_trailing-IsStar w (add_leading w t) in
    (
      lead,
      trail,
      at' ∙ ap (λ u. u ++ trail) at ∙ append_assoc lead t trail,
      (star, star', clear, clear', there, λ h. there' (rw at (lead-ends lead t star h))),
    )

-- A clause with a term is always added, last, with the defaults for what is missing. The new term is
-- the given one with nothing or one wildcard before and behind it, nothing where the bit is not set or
-- the wildcard is there. It starts with a wildcard if LEADING is set, and ends with one if TRAILING
-- is set, and has all its wildcards: adding them again changes nothing.
pub clause-wildcards :
    (q : Query) (o : Options) (t : Text)
    → o.term ≡ some t
    → (lead : Text) × (trail : Text) × (clause q o
        ≡ ok (record q { clauses = q.clauses ++ finished q o (lead ++ (t ++ trail)) ∷ [] }))
      × IsAdded (bits o) t lead trail
      × (is_leading (bits o) ≡ true → starts_with_wildcard (lead ++ (t ++ trail)) ≡ true)
      × (is_trailing (bits o) ≡ true → ends_with_wildcard (lead ++ (t ++ trail)) ≡ true)
      × (add_wildcards (bits o) (some (lead ++ (t ++ trail))) ≡ ok (some (lead ++ (t ++ trail))))
unfolding clause add_wildcards
clause-wildcards q o t e =
    let w = bits o in
    let s = with_wildcards w t in
    let leads : is_leading w ≡ true → starts_with_wildcard s ≡ true =
      λ bit. starts-add_trailing w (add_leading w t) (starts-add_leading w t bit) in
    let trails : is_trailing w ≡ true → ends_with_wildcard s ≡ true =
      λ bit. ends-add_trailing w (add_leading w t) bit in
    let again : add_wildcards w (some s) ≡ ok (some s) =
      rw (add_leading-idle w s leads) (ap (λ u. ok (some u)) (add_trailing-idle w s trails)) in
    let (lead, trail, same, is_added) = with_wildcards-IsAdded w t in
    (
      lead,
      trail,
      rw (clause, e, add_wildcards)
          (ap (λ u. ok (record q { clauses = q.clauses ++ finished q o u ∷ [] })) same),
      is_added,
      subst (λ u. is_leading w ≡ true → starts_with_wildcard u ≡ true) same leads,
      subst (λ u. is_trailing w ≡ true → ends_with_wildcard u ≡ true) same trails,
      subst (λ u. add_wildcards w (some u) ≡ ok (some u)) same again,
    )
