-- ===== src/Builder/Documents.antt =====
-- `add` of the builder in docs/ui/lunr.js always returns.
use kubearchive.Prelude.{
  All, Bool, List, Option, Result-cases, [], any, ap, err, false, inl, inr, length, map, none, ok,
  refl, some, true, ℕ, ◌+◌, ◌||◌, ◌∙◌, ◌∷◌, ◌≡◌, ◌⊎◌,
}
use kubearchive.Text.{Text, lit, text_eq, text_eq_refl}
use kubearchive.Metadata.{Metadata, as_string, clone, clone_onto, put, texts}
use kubearchive.Token.{Input, Token, item_tokens, items, missing, or_empty, tokenizer, value}
use kubearchive.Token.Words.{tokenizer-words}
use kubearchive.Pipeline.{Pipeline, PipelineFunction, run}
use kubearchive.FieldRef.{FieldRef, to_string}
use kubearchive.Builder.{
  Builder, Document, Extractor, add, add_field, add_fields, extractor_error, field_value, name_of,
  terms_of, to_key,
}
use kubearchive.Builder.Numbers.{IsIndex, index_terms-IsIndex}

item_tokens-returns :
    (lower : Text → Text) (metadata copy : Option Metadata) (ts : List (Option Text))
    → clone metadata ≡ ok copy
    → (tokens : List Token) × (item_tokens lower metadata ts ≡ ok tokens)
unfolding item_tokens
item_tokens-returns lower metadata copy [] e = ([], refl)
item_tokens-returns lower metadata copy (t ∷ ts) e =
    let (tokens, rest) = item_tokens-returns lower metadata copy ts e in
    (record { str = lower (as_string t); metadata = or_empty copy } ∷ tokens, rw (e, rest) refl)

tokenizer-returns :
    (lower : Text → Text) (input : Input) (metadata copy : Option Metadata)
    → clone metadata ≡ ok copy
    → (tokens : List Token) × (tokenizer lower input metadata ≡ ok tokens)
unfolding tokenizer
tokenizer-returns lower missing metadata copy e = ([], refl)
tokenizer-returns lower (items ts) metadata copy e = item_tokens-returns lower metadata copy ts e
tokenizer-returns lower (value s) metadata copy e =
    let (ws, tokens, _, _) = tokenizer-words lower s metadata copy e in (_, tokens)

fields-clone :
    (field_name : Text)
    → clone (some ((lit "fields", texts (field_name ∷ [])) ∷ []))
      ≡ ok (some ((lit "fields", texts (field_name ∷ [])) ∷ []))
unfolding clone clone_onto put
fields-clone field_name = refl

-- The names are among the fields of the index.
abbrev pub AllKnown : List Text → List (Text × Extractor) → Type 0
AllKnown names fields =
    All (λ (e : Text × Extractor). any (λ g. text_eq g (name_of e)) names ≡ true) fields

or-true : (b : Bool) → (b || true) ≡ true
or-true true = refl
or-true false = refl

all-known :
    (names : List Text) (fields : List (Text × Extractor))
    → ((f : Text)
        → any (λ g. text_eq g f) (map name_of fields) ≡ true
        → any (λ g. text_eq g f) names ≡ true)
    → AllKnown names fields
all-known names [] h = tt
all-known names ((f, extractor) ∷ rest) h = (
  h f (rw (text_eq_refl f) refl),
  all-known names rest (λ g k. h g (rw (k, or-true (text_eq f g)) refl)),
)

-- No field has the name under which a posting has its number.
abbrev pub IsPlain : List Text → Type 0
IsPlain names = any (λ g. text_eq g (lit "_index")) names ≡ false

-- The function that extracts the field throws this at the document.
abbrev pub Throws : Text → Document → Extractor → Type 0
Throws thrown doc none = ⊥
Throws thrown doc (some extractor) = extractor doc ≡ err thrown

abbrev pub OneThrows : Text → Document → List (Text × Extractor) → Type 0
OneThrows thrown doc [] = ⊥
OneThrows thrown doc ((f, extractor) ∷ rest) =
    Throws thrown doc extractor ⊎ OneThrows thrown doc rest

field_value-cases :
    (field_name : Text) (extractor : Extractor) (doc : Document)
    → ((input : Input) × (field_value field_name extractor doc ≡ ok input))
      ⊎ ((thrown : Text) × Throws thrown doc extractor
          × (field_value field_name extractor doc ≡ err (extractor_error thrown)))
unfolding field_value
field_value-cases field_name none doc = inl (doc field_name, refl)
field_value-cases field_name (some extractor) doc = elim (Result-cases (extractor doc)) [
  | inl (input, extracted) ↦ inl (input, rw extracted refl)
  | inr (thrown, why) ↦ inr (thrown, why, rw why refl)
]

module _ (lower : Text → Text) (body : ℕ → PipelineFunction) (pipeline : Pipeline) where
  terms_of-returns :
      (field_name : Text) (input : Input)
      → (terms : List Token) × (terms_of lower body pipeline field_name input ≡ ok terms)
  unfolding terms_of
  terms_of-returns field_name input =
      let (tokens, e) = tokenizer-returns lower input _ _ (fields-clone field_name) in
      (run body pipeline tokens, rw e refl)

  abbrev pub field_names : Builder → List Text
  field_names b = map name_of b.fields

  -- A builder whose postings are numbered in order and have all its fields, none of which has the name
  -- of the number.
  abbrev pub IsReady : Builder → Type 0
  IsReady b = IsPlain (field_names b) × IsIndex (field_names b) b.inverted_index

  add_field-IsIndex :
      (doc_ref : Text) (doc : Document) (field_name : Text) (extractor : Extractor) (b : Builder)
      → any (λ g. text_eq g field_name) (field_names b) ≡ true
      → IsIndex (field_names b) b.inverted_index
      → ((b' : Builder) × (add_field lower body pipeline doc_ref doc field_name extractor b ≡ ok b')
          × (b'.fields ≡ b.fields)
          × (b'.document_count ≡ b.document_count)
          × IsIndex (field_names b) b'.inverted_index)
        ⊎ ((thrown : Text) × Throws thrown doc extractor
            × (add_field lower body pipeline doc_ref doc field_name extractor b
                ≡ err (extractor_error thrown)))
  unfolding add_field
  add_field-IsIndex doc_ref doc field_name extractor b known h =
      elim (field_value-cases field_name extractor doc) [
        | inr (thrown, why, e) ↦ inr (thrown, why, rw e refl)
        | inl (input, extracted) ↦
            let (terms, e) = terms_of-returns field_name input in
            let (counts, inv, done, h') =
              index_terms-IsIndex (field_names b) b.metadata_whitelist field_name doc_ref terms []
                b.inverted_index known h in
            let ref : FieldRef = record {
              doc_ref = doc_ref;
              field_name = field_name;
              string_value = none;
            } in
            let b' : Builder = record b {
              inverted_index = inv;
              field_term_frequencies = put (to_string ref).0 counts b.field_term_frequencies;
              field_lengths = put (to_string ref).0 (length terms) b.field_lengths;
            } in
            inl (b', rw (extracted, e, done) refl, refl, refl, h')
      ]

  add_fields-IsIndex :
      (names : List Text) (doc_ref : Text) (doc : Document) (rest : List (Text × Extractor))
      (b : Builder)
      → field_names b ≡ names
      → AllKnown names rest
      → IsIndex names b.inverted_index
      → ((b' : Builder) × (add_fields lower body pipeline doc_ref doc rest b ≡ ok b')
          × (field_names b' ≡ names)
          × (b'.document_count ≡ b.document_count)
          × IsIndex names b'.inverted_index)
        ⊎ ((thrown : Text) × OneThrows thrown doc rest
            × (add_fields lower body pipeline doc_ref doc rest b ≡ err (extractor_error thrown)))
  unfolding add_fields
  add_fields-IsIndex names doc_ref doc [] b e known h = inl (b, refl, e, refl, h)
  add_fields-IsIndex names doc_ref doc ((f, extractor) ∷ rest) b e (k, known) h =
      elim (add_field-IsIndex doc_ref doc f extractor b (rw e k) (rw e h)) [
        | inr (thrown, why, failed) ↦ inr (thrown, inl why, rw failed refl)
        | inl (next, done, same, count, h') ↦
            elim (add_fields-IsIndex names doc_ref doc rest next (ap (map name_of) same ∙ e) known
              (rw e at h')) [
                | inr (thrown, why, failed) ↦ inr (thrown, inr why, rw done failed)
                | inl (b', later, same', count', h'') ↦
                    inl (b', rw done later, same', count' ∙ count, h'')
              ]
      ]

  -- While the postings of the index are numbered in order and have all its fields, none of which is
  -- called `_index`, adding a document counts it and keeps the fields, and the postings stay so; or it
  -- throws what one of the functions throws that extract a field.
  pub add-IsReady :
      (doc : Document) (attributes : Option Metadata) (b : Builder)
      → IsReady b
      → ((b' : Builder) × (add lower body pipeline doc attributes b ≡ ok b')
          × (field_names b' ≡ field_names b)
          × (b'.document_count ≡ b.document_count + 1)
          × IsReady b')
        ⊎ ((thrown : Text) × OneThrows thrown doc b.fields
            × (add lower body pipeline doc attributes b ≡ err (extractor_error thrown)))
  unfolding add
  add-IsReady doc attributes b (plain, h) =
      let doc_ref = to_key (doc b.ref_name) in
      let counted : Builder = record b {
        documents = put doc_ref (or_empty attributes) b.documents;
        document_count = b.document_count + 1;
      } in
      elim (add_fields-IsIndex (field_names b) doc_ref doc b.fields counted refl
        (all-known (field_names b) b.fields (λ f k. k)) h) [
          | inr failed ↦ inr failed
          | inl (b', done, same, count, h') ↦
              inl (b', done, same, count, (rw same plain, rw same h'))
        ]
