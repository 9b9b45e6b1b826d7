-- ===== src/Builder/Scores.antt =====
-- lunr.idf and `createFieldVectors` of lunr.Builder in docs/ui/lunr.js, for one field of a document.
use kubearchive.Prelude.{List, Option, Result, [], err, length, none, ok, some, ℕ, ◌+◌, ◌∷◌}
use kubearchive.Text.{Text}
use kubearchive.Metadata.{get, put}
use kubearchive.Vector.{Number, Vector, VectorError, insert}
use kubearchive.Builder.{Inverted, Kept, Posting}

-- The arithmetic of the host beyond that of the vectors.
pub record Arithmetic (num : Number) : Type 0 where
  pub sub : num.F → num.F → num.F
  pub log : num.F → num.F
  pub abs : num.F → num.F
  pub round : num.F → num.F
  pub half : num.F

pub data ScoreError : Type 0 where
  no_posting : ScoreError
  vector_error : VectorError → ScoreError

-- How many documents have the term, summed over the fields.
unfoldable pub documents_with_term : Posting → ℕ
documents_with_term posting = sum posting.fields
  where
    sum : List (Text × List (Text × Kept)) → ℕ
    sum [] = 0
    sum ((field_name, docs) ∷ rest) = length docs + sum rest

module _ (num : Number) (arithmetic : Arithmetic num) where
  open num use {F, of_nat, add, mul, div}
  open arithmetic use {sub, log, abs, round, half}

  unfoldable pub idf : Posting → ℕ → F
  unfolding documents_with_term
  idf posting document_count =
      let with_term = of_nat (documents_with_term posting) in
      let x = div (add (sub (of_nat document_count) with_term) half) (add with_term half) in
      log (add (of_nat 1) (abs x))

  -- What the scores of a field depend on: `_k1`, `_b`, the lengths and the boosts.
  pub record Scoring : Type 0 where
    pub k1 : F
    pub b : F
    pub field_length : F
    pub average_field_length : F
    pub field_boost : F
    pub doc_boost : F

  unfoldable pub score_of : Scoring → F → ℕ → F
  score_of s idf_value tf =
      let norm = add (sub (of_nat 1) s.b) (mul s.b (div s.field_length s.average_field_length)) in
      let score =
        div (mul idf_value (mul (add s.k1 (of_nat 1)) (of_nat tf)))
          (add (mul s.k1 norm) (of_nat tf)) in
      let boosted = mul (mul score s.field_boost) s.doc_boost in
      div (round (mul boosted (of_nat 1000))) (of_nat 1000)

  -- `termIdfCache`: what is cached, or is computed and cached.
  unfoldable pub cached_idf : Text → Posting → ℕ → List (Text × F) → F × List (Text × F)
  unfolding idf
  cached_idf term posting document_count cache = elim (get term cache) [
    | some value ↦ (value, cache)
    | none ↦ let value = idf posting document_count in (value, put term value cache)
  ]

  abbrev pub Scored : Type 0
  Scored = Option (Result ScoreError (Vector num × List (Text × F)))

  abbrev pub then_vector : Option (Result VectorError (Vector num)) → (Vector num → Scored) → Scored
  then_vector none f = none
  then_vector (some (err e)) f = some (err (vector_error e))
  then_vector (some (ok v)) f = f v

  -- The loop over the terms of a field; `none` is a search in the vector that found no position.
  unfoldable pub score_terms :
      Scoring → Inverted → ℕ → List (Text × ℕ) → Vector num → List (Text × F) → Scored
  unfolding cached_idf score_of insert
  score_terms s inv document_count [] v cache = some (ok (v, cache))
  score_terms s inv document_count ((term, tf) ∷ rest) v cache = elim (get term inv.postings) [
    | none ↦ some (err no_posting)
    | some posting ↦
        let (idf_value, cache') = cached_idf term posting document_count cache in
        then_vector (insert num v (of_nat posting.index) (score_of s idf_value tf))
          (λ v'. score_terms s inv document_count rest v' cache')
  ]
