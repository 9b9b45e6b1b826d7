-- ===== src/Builder/Counts.antt =====
-- The frequencies of terms that the builder of docs/ui/lunr.js counts.
use kubearchive.Prelude.{
  Bool-cases, List, Option, Result-cases, [], ap, arith, if◌then◌else◌, inl, inr, none, ok, refl,
  some, suc, sym, zero, ℕ, ◌+◌, ◌∙◌, ◌∷◌, ◌≡◌,
}
use kubearchive.Text.{Text, text_eq, text_eq_iff}
use kubearchive.Metadata.{get, get-put}
use kubearchive.Token.{Token}
use kubearchive.Query.{or_default}
use kubearchive.Builder.{Inverted, count_term, index_term, index_terms}

-- How often a term stands among the tokens.
abbrev pub occurrences : Text → List Token → ℕ
occurrences t [] = 0
occurrences t (x ∷ xs) = if text_eq x.str t then suc (occurrences t xs) else occurrences t xs

-- A count with some more: no count stays none if there are no more.
abbrev pub counted : Option ℕ → ℕ → Option ℕ
counted none zero = none
counted none (suc n) = some (suc n)
counted (some m) n = some (m + n)

counted-zero : (o : Option ℕ) → counted o 0 ≡ o
counted-zero none = refl
counted-zero (some m) = ap some (omega arith)

counted-suc : (o : Option ℕ) (n : ℕ) → counted (some (or_default o 0 + 1)) n ≡ counted o (suc n)
counted-suc none n = ap some (omega arith)
counted-suc (some m) n = ap some (omega arith)

-- Where the loop over the terms of a field returns, the count of every term has grown by how often it
-- stands among them.
pub index_terms-counted :
    (names whitelist : List Text) (field_name doc_ref : Text) (terms : List Token)
    (counts counts' : List (Text × ℕ)) (inv inv' : Inverted) (t : Text)
    → index_terms names whitelist field_name doc_ref terms counts inv ≡ ok (counts', inv')
    → get t counts' ≡ counted (get t counts) (occurrences t terms)
unfolding index_terms count_term
index_terms-counted names whitelist f d [] counts counts' inv inv' t e =
    let same : counts ≡ counts' = cc in sym (counted-zero (get t counts')) ∙ rw same refl
index_terms-counted names whitelist f d (x ∷ xs) counts counts' inv inv' t e =
    elim (Result-cases (index_term names whitelist f d x inv)) [
      | inr (why, thrown) ↦ let e' = rw thrown at e in cc
      | inl (next, done) ↦
          let e' = rw done at e in
          let later =
            index_terms-counted names whitelist f d xs (count_term x.str counts) counts' next inv' t
              e' in
          elim (Bool-cases (text_eq x.str t)) [
            | inl hit ↦
                let same : x.str ≡ t = (text_eq_iff x.str t).0 hit in
                later ∙ rw (get-put, hit, same) (counted-suc (get t counts) (occurrences t xs))
            | inr miss ↦ later ∙ rw (get-put, miss) refl
          ]
    ]
