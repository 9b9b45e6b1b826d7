-- ===== src/Filters/Defaults.antt =====
-- The pipelines that docs/ui/lunr.js sets up.
use kubearchive.Prelude.{
  Bool, Bool-cases, List, [], any, ap, if◌then◌else◌, inl, inr, map, refl, suc, zero, ℕ, ◌∙◌, ◌∷◌,
  ◌≡◌,
}
use kubearchive.Text.{Text, text_eq}
use kubearchive.Token.{Token, update}
use kubearchive.Pipeline.{Registry, add, pushed, run}
use kubearchive.Pipeline.Run.{flat_map, run-flat_maps}
use kubearchive.Filters.{
  body, document_pipeline, generate_stop_word_filter, search_pipeline, stemmer, trim, trimmer,
}
use kubearchive.Filters.Words.{stop_words}

abbrev pub trimmed : Token → Token
trimmed t = record t { str = trim t.str }

abbrev pub is_stop_word : Text → Bool
is_stop_word s = any (λ w. text_eq w s) stop_words

-- The tokens whose text is no stop word.
abbrev pub without_stop_words : List Token → List Token
without_stop_words [] = []
without_stop_words (t ∷ ts) =
    if is_stop_word t.str then without_stop_words ts else t ∷ without_stop_words ts

-- What each function makes of a token.
abbrev made : ℕ → Token → List Token
made zero t = trimmed t ∷ []
made (suc zero) t = if is_stop_word t.str then [] else t ∷ []
made (suc (suc _)) t = t ∷ []

body-made : (fn : ℕ) (t : Token) (i : ℕ) (ts : List Token) → pushed (body fn t i ts) ≡ made fn t
unfolding body trimmer update generate_stop_word_filter stemmer
body-made zero t i ts = refl
body-made (suc zero) t i ts = elim (Bool-cases (is_stop_word t.str)) [
  | inl stop ↦ rw stop refl
  | inr other ↦ rw other refl
]
body-made (suc (suc fn)) t i ts = refl

flat_map-stemmer : (ts : List Token) → flat_map (λ t. t ∷ []) ts ≡ ts
flat_map-stemmer [] = refl
flat_map-stemmer (t ∷ ts) = ap (λ us. t ∷ us) (flat_map-stemmer ts)

flat_map-stop_words : (ts : List Token) → flat_map (made 1) ts ≡ without_stop_words ts
flat_map-stop_words [] = refl
flat_map-stop_words (t ∷ ts) = elim (Bool-cases (is_stop_word t.str)) [
  | inl stop ↦ rw stop (flat_map-stop_words ts)
  | inr other ↦ rw other (ap (λ us. t ∷ us) (flat_map-stop_words ts))
]

flat_map-trimmed : (ts : List Token) → flat_map (made 0) ts ≡ map trimmed ts
flat_map-trimmed [] = refl
flat_map-trimmed (t ∷ ts) = ap (λ us. trimmed t ∷ us) (flat_map-trimmed ts)

-- The pipeline for documents, with the stemmer of the library or of the patch, gives the trimmed
-- tokens in their order, but for those that are then stop words; the pipeline for searches leaves
-- its tokens as they are.
pub document_pipeline-run :
    (n : ℕ) (r : Registry) (tokens : List Token)
    → (run body (document_pipeline (suc (suc n)) r).0 tokens
        ≡ without_stop_words (map trimmed tokens))
      × (run body (search_pipeline (suc (suc n)) r).0 tokens ≡ tokens)
unfolding document_pipeline search_pipeline add
document_pipeline-run n r tokens = (
  run-flat_maps body made (record { stack = 0 ∷ 1 ∷ suc (suc n) ∷ [] }) tokens body-made
      ∙ (flat_map-stemmer (flat_map (made 1) (flat_map (made 0) tokens))
          ∙ (flat_map-stop_words (flat_map (made 0) tokens)
              ∙ ap without_stop_words (flat_map-trimmed tokens))),
  run-flat_maps body made (record { stack = suc (suc n) ∷ [] }) tokens body-made
      ∙ flat_map-stemmer tokens,
)
