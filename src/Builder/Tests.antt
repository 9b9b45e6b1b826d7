-- ===== src/Builder/Tests.antt =====
-- Documents added to a builder of docs/ui/lunr.js.
use kubearchive.Prelude.{
  List, Result, [], arith, err, inl, none, ok, refl, some, ℕ, ◌+◌, ◌-◌, ◌∷◌, ◌≡◌, ◌⊎◌,
}
use kubearchive.Text.{Text, lit}
use kubearchive.Token.{Input, Token, items, missing, value}
use kubearchive.Pipeline.{Pipeline, one}
use kubearchive.Builder.{
  Builder, Document, Inverted, Posting, add, add_entry, count_term, extractor_error, index_term,
  index_terms, keep_metadata, new_posting, with_posting,
}
use kubearchive.Vector.Whole.{whole}
use kubearchive.Vector.Upsert.{vector}
use kubearchive.Vector.Sparse.{lookup}
use kubearchive.Builder.Scores.{Arithmetic, Scoring, score_terms}
use kubearchive.Builder.Vectors.{IsScored, score_terms-IsScored}
use kubearchive.Builder.Counts.{counted, index_terms-counted, occurrences}
use kubearchive.Builder.Documents.{IsReady, OneThrows, add-IsReady, field_names}
use kubearchive.Builder.Numbers.{IsNumbered}
use kubearchive.Metadata.{get, put}

indexing : Unit {0}
unfolding index_terms get put new_posting index_term with_posting add_entry keep_metadata count_term
indexing = tt

abbrev word : Text → Token
word s = record { str = s; metadata = [] }

abbrev empty_index : Inverted
empty_index = record { postings = []; term_index = 0 }

abbrev names : List Text
names = lit "title" ∷ lit "text" ∷ []

abbrev pods : List Token
pods = word (lit "pod") ∷ word (lit "job") ∷ word (lit "pod") ∷ []

abbrev counts_of_pods : List (Text × ℕ)
counts_of_pods = (lit "pod", 2) ∷ (lit "job", 1) ∷ []

abbrev posting : ℕ → Posting
posting n = record { index = n; fields = (lit "title", (lit "a", []) ∷ []) ∷ (lit "text", []) ∷ [] }

abbrev index_of_pods : Inverted
index_of_pods = record {
  postings = (lit "pod", posting 0) ∷ (lit "job", posting 1) ∷ [];
  term_index = 2;
}

pods_run :
    index_terms names [] (lit "title") (lit "a") pods [] empty_index
    ≡ ok (counts_of_pods, index_of_pods)
unfolding indexing
pods_run = refl

index_terms-counted_example :
    get (lit "pod") counts_of_pods ≡ counted (get (lit "pod") []) (occurrences (lit "pod") pods)
index_terms-counted_example =
    index_terms-counted names [] (lit "title") (lit "a") pods [] counts_of_pods empty_index
      index_of_pods (lit "pod") pods_run

-- The text of a document's body, and an error for a document without.
abbrev body_text : Document → Result Text Input
body_text doc = elim (doc (lit "body")) [
  | missing ↦ err (lit "TypeError")
  | value s ↦ ok (value s)
  | items ts ↦ ok (items ts)
]

abbrev title_builder : Builder
title_builder = record {
  ref_name = lit "id";
  fields = (lit "title", none) ∷ (lit "body", some body_text) ∷ [];
  documents = [];
  inverted_index = empty_index;
  field_term_frequencies = [];
  field_lengths = [];
  document_count = 0;
  metadata_whitelist = lit "position" ∷ [];
}

-- A document whose properties all read "pod".
abbrev pod_document : Document
pod_document name = value (lit "pod")

abbrev no_pipeline : Pipeline
no_pipeline = record { stack = [] }

add-IsReady_example :
    ((b' : Builder) × (add (λ s. s) (λ fn t i ts. one t) no_pipeline pod_document none title_builder
        ≡ ok b')
      × (field_names (λ s. s) (λ fn t i ts. one t) no_pipeline b' ≡ lit "title" ∷ lit "body" ∷ [])
      × (b'.document_count ≡ 0 + 1)
      × IsReady (λ s. s) (λ fn t i ts. one t) no_pipeline b')
    ⊎ ((thrown : Text) × OneThrows thrown pod_document title_builder.fields
        × (add (λ s. s) (λ fn t i ts. one t) no_pipeline pod_document none title_builder
            ≡ err (extractor_error thrown)))
add-IsReady_example =
    add-IsReady (λ s. s) (λ fn t i ts. one t) no_pipeline pod_document none title_builder
      (refl, ((tt, refl), tt))

-- Arithmetic on whole numbers, where a logarithm is the number itself.
abbrev whole_arithmetic : Arithmetic whole
whole_arithmetic = record { sub = ◌-◌; log = λ n. n; abs = λ n. n; round = λ n. n; half = 0 }

abbrev scoring : Scoring whole whole_arithmetic
scoring = record {
  k1 = 1;
  b = 1;
  field_length = 3;
  average_field_length = 3;
  field_boost = 1;
  doc_boost = 1;
}

index_of_pods-IsNumbered : IsNumbered index_of_pods
index_of_pods-IsNumbered = ((refl, (refl, tt)), refl)

score_terms-IsScored_example :
    (m' : ℕ) × (qs' : List (ℕ × ℕ)) × (cache' : List (Text × ℕ)) × (score_terms whole
        whole_arithmetic scoring index_of_pods 1 counts_of_pods
        (vector whole 0 [])
        []
      ≡ some (ok (vector whole m' qs', cache')))
    × IsScored whole whole_arithmetic index_of_pods index_of_pods-IsNumbered scoring 1 [] qs'
        counts_of_pods
unfolding get lookup
score_terms-IsScored_example =
    score_terms-IsScored whole whole_arithmetic index_of_pods index_of_pods-IsNumbered scoring 1
      counts_of_pods 0 [] [] (omega arith) tt tt
      (refl, (posting 0, refl, refl), (refl, (posting 1, refl, refl), tt)) (λ t p e. inl refl)
