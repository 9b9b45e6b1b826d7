-- ===== src/Api/Token.antt =====
-- Which headers `extractBearerToken` of cmd/api/auth/authn.go accepts.
use kubearchive.Prelude.{
  ==_iff, Bool, Bool-cases, List, [], any, ap, err, false, inl, inr, ok, refl, sym, ◌++◌, ◌==◌, ◌↔◌,
  ◌∙◌, ◌∷◌, ◌≡◌, ◌≢◌, ◌⊎◌,
}
use kubearchive.Text.{Text}
use kubearchive.Api.{empty_token, extract_bearer_token, second_of_two, split}

abbrev pub has_space : Text → Bool
has_space t = any (λ c. c == b' ') t

-- A text with one space, between two parts that have none.
abbrev pub IsPair : Text → Text → Text → Type 0
IsPair header scheme token =
    (header ≡ scheme ++ (b' ' ∷ token)) × (has_space scheme ≡ false) × (has_space token ≡ false)

split-one : (t : Text) → has_space t ≡ false → split t ≡ t ∷ []
unfolding split
split-one [] h = refl
split-one (c ∷ t) h = elim (Bool-cases (c == b' ')) [
  | inl space ↦ let h' = rw space at h in cc
  | inr other ↦ let h' = rw other at h in rw (other, split-one t h') refl
]

split-pair :
    (scheme token : Text)
    → has_space scheme ≡ false
    → split (scheme ++ (b' ' ∷ token)) ≡ scheme ∷ split token
unfolding split
split-pair [] token h = refl
split-pair (c ∷ scheme) token h = elim (Bool-cases (c == b' ')) [
  | inl space ↦ let h' = rw space at h in cc
  | inr other ↦ let h' = rw other at h in rw (other, split-pair scheme token h') refl
]

-- A text has no space, or is cut at its first one.
abbrev Cut : Text → Type 0
Cut t =
    ((has_space t ≡ false) × (split t ≡ t ∷ []))
    ⊎ ((part : Text) × (rest : Text) × (t ≡ part ++ (b' ' ∷ rest))
        × (has_space part ≡ false)
        × (split t ≡ part ∷ split rest))

split-cases : (t : Text) → Cut t
unfolding split
split-cases [] = inl (refl, refl)
split-cases (c ∷ t) = elim (Bool-cases (c == b' ')) [
  | inl space ↦
      let e : c ≡ b' ' = (==_iff c (b' ')).0 space in
      inr ([], t, ap (λ x. x ∷ t) e, refl, rw space refl)
  | inr other ↦ elim (split-cases t) [
    | inl (none_of, at) ↦ inl (rw other none_of, rw (other, at) refl)
    | inr (part, rest, cut, none_of, at) ↦
        inr (c ∷ part, rest, ap (λ u. c ∷ u) cut, rw other none_of, rw (other, at) refl)
  ]
]

split-cons : (t : Text) → (part : Text) × (parts : List Text) × (split t ≡ part ∷ parts)
split-cons t = elim (split-cases t) [
  | inl (_, at) ↦ (t, [], at)
  | inr (part, rest, _, _, at) ↦ (part, split rest, at)
]

second-IsPair :
    (header token : Text)
    → second_of_two (split header) ≡ ok token
    → (scheme : Text) × IsPair header scheme token
second-IsPair header token e = elim (split-cases header) [
  | inl (_, one) ↦ let e' = rw one at e in cc
  | inr (scheme, rest, cut, none_of, at) ↦ elim (split-cases rest) [
    | inl (none_of', one) ↦
        let same : rest ≡ token = (let e' = rw (at, one) at e in cc) in
        (scheme, (rw same at cut, none_of, rw same at none_of'))
    | inr (part, more, _, _, two) ↦
        let (third, others, three) = split-cons more in let e' = rw (at, two, three) at e in cc
  ]
]

extract-empty : extract_bearer_token [] ≡ err empty_token
unfolding extract_bearer_token
extract-empty = refl

extract-second :
    (header : Text) → header ≢ [] → extract_bearer_token header ≡ second_of_two (split header)
unfolding extract_bearer_token
extract-second [] ne = absurd (ne refl)
extract-second (c ∷ cs) ne = refl

concat-filled : (scheme token : Text) → scheme ++ (b' ' ∷ token) ≢ []
concat-filled [] token nil = cc
concat-filled (c ∷ cs) token nil = cc

-- A header gives a token if and only if it is a text without a space, one space, and the token,
-- which has no space. The text in front of the token can be any, also the empty one.
pub extract_bearer_token-IsPair :
    (header token : Text)
    → (extract_bearer_token header ≡ ok token) ↔ ((scheme : Text) × IsPair header scheme token)
extract_bearer_token-IsPair header token = (forth header, back)
  where
    forth : (h : Text) → extract_bearer_token h ≡ ok token → (scheme : Text) × IsPair h scheme token
    forth [] e = let e' = sym extract-empty ∙ e in cc
    forth (c ∷ cs) e = second-IsPair (c ∷ cs) token (sym (extract-second (c ∷ cs) (λ nil. cc)) ∙ e)

    back : (scheme : Text) × IsPair header scheme token → extract_bearer_token header ≡ ok token
    back (scheme, (cut, none_of, none_of')) =
        let filled : header ≢ [] = λ nil. concat-filled scheme token (sym cut ∙ nil) in
        extract-second header filled
        ∙ rw (cut, split-pair scheme token none_of, split-one token none_of') refl
