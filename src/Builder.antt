-- ===== src/Builder.antt =====
-- lunr.Builder of docs/ui/lunr.js: how documents are added to the inverted index. The scores, which
-- `build` computes from it, are not here.
pub mod Counts
pub mod Numbers
pub mod Documents
pub mod Apart
pub mod Scores
pub mod Vectors
mod Tests
use kubearchive.Pipeline.{Pipeline, PipelineFunction, run}
use kubearchive.Prelude.{
  Bool, List, Option, Result, [], any, err, if◌then◌else◌, length, map, none, ok, some, ℕ, ◌++◌,
  ◌+◌, ◌==◌, ◌>>=◌, ◌∷◌,
}
use kubearchive.Text.{Text, lit}
use kubearchive.Metadata.{CloneError, Metadata, Value, as_string, get, put, texts}
use kubearchive.Token.{Input, Token, items, missing, or_empty, tokenizer, value}
use kubearchive.Query.{or_default}
use kubearchive.FieldRef.{joiner, to_string}

-- A document gives the value of each property; a field can have a function that extracts it, or
-- throws something.
abbrev pub Document : Type 0
Document = Text → Input

abbrev pub Extractor : Type 0
Extractor = Option (Document → Result Text Input)

-- What is kept of the tokens of a term, under the keys of the white list.
abbrev pub Kept : Type 0
Kept = List (Text × List (Option Value))

-- The number of a term, and under each field the documents with it. In the source the number is under
-- the key `_index` of the same object, so a field of this name would overwrite it: a posting stands for
-- such an object only where no field has this name.
pub record Posting : Type 0 where
  pub index : ℕ
  pub fields : List (Text × List (Text × Kept))

pub record Inverted : Type 0 where
  pub postings : List (Text × Posting)
  pub term_index : ℕ

pub record Builder : Type 0 where
  pub ref_name : Text
  pub fields : List (Text × Extractor)
  pub documents : List (Text × Metadata)
  pub inverted_index : Inverted
  pub field_term_frequencies : List (Text × List (Text × ℕ))
  pub field_lengths : List (Text × ℕ)
  pub document_count : ℕ
  pub metadata_whitelist : List Text

pub data BuilderError : Type 0 where
  illegal_character : Text → BuilderError
  clone_error : CloneError → BuilderError
  extractor_error : Text → BuilderError
  type_error : BuilderError

unfoldable pub has_slash : Text → Bool
has_slash s = any (λ c. c == joiner) s

unfoldable pub field : Text → Extractor → Builder → Result BuilderError Builder
unfolding has_slash
field field_name extractor b =
    if has_slash field_name
    then err (illegal_character field_name)
    else ok (record b { fields = put field_name extractor b.fields })

-- `fieldTerms[term] += 1`, from 0.
unfoldable pub count_term : Text → List (Text × ℕ) → List (Text × ℕ)
count_term term counts = put term (or_default (get term counts) 0 + 1) counts

unfoldable pub new_posting : ℕ → List Text → Posting
new_posting index names = record { index = index; fields = map (λ f. (f, [])) names }

-- The posting of a term, which is created if there is none.
unfoldable pub with_posting : List Text → Text → Inverted → Posting × Inverted
unfolding new_posting
with_posting names term inv = elim (get term inv.postings) [
  | some posting ↦ (posting, inv)
  | none ↦
      let posting = new_posting inv.term_index names in
      (
        posting,
        record { postings = put term posting inv.postings; term_index = inv.term_index + 1 },
      )
]

-- The loop over the white list.
unfoldable pub keep_metadata : List Text → Metadata → Kept → Kept
keep_metadata [] metadata kept = kept
keep_metadata (key ∷ keys) metadata kept =
    keep_metadata keys metadata
      (put key (or_default (get key kept) [] ++ get key metadata ∷ []) kept)

-- The entry of a document under a field of the posting, which throws where the posting, made before
-- the field was added, has no such field.
unfoldable pub add_entry :
    List Text → Metadata → Text → Text → Posting → Result BuilderError Posting
unfolding keep_metadata
add_entry whitelist metadata field_name doc_ref posting = elim (get field_name posting.fields) [
  | none ↦ err type_error
  | some docs ↦
      let kept = keep_metadata whitelist metadata (or_default (get doc_ref docs) []) in
      ok (record posting { fields = put field_name (put doc_ref kept docs) posting.fields })
]

unfoldable pub index_term :
    List Text → List Text → Text → Text → Token → Inverted → Result BuilderError Inverted
unfolding with_posting add_entry
index_term names whitelist field_name doc_ref term inv = do
  let (posting, inv') = with_posting names term.str inv
  posting' ← add_entry whitelist term.metadata field_name doc_ref posting
  ok (record inv' { postings = put term.str posting' inv'.postings })

-- The loop over the terms of a field: the counts, and the inverted index.
unfoldable pub index_terms :
    List Text
    → List Text
    → Text
    → Text
    → List Token
    → List (Text × ℕ)
    → Inverted
    → Result BuilderError (List (Text × ℕ) × Inverted)
unfolding count_term index_term
index_terms names whitelist field_name doc_ref [] counts inv = ok (counts, inv)
index_terms names whitelist field_name doc_ref (term ∷ terms) counts inv = do
  inv' ← index_term names whitelist field_name doc_ref term inv
  index_terms names whitelist field_name doc_ref terms (count_term term.str counts) inv'

abbrev pub from_extractor : Result Text Input → Result BuilderError Input
from_extractor (ok input) = ok input
from_extractor (err thrown) = err (extractor_error thrown)

-- What `add` has of a field's value, and its text as a key: of an array, the items with commas
-- between them.
unfoldable pub field_value : Text → Extractor → Document → Result BuilderError Input
field_value field_name none doc = ok (doc field_name)
field_value field_name (some extractor) doc = from_extractor (extractor doc)

unfoldable pub join_items : List (Option Text) → Text
join_items [] = []
join_items (t ∷ []) = as_string t
join_items (t ∷ u ∷ ts) = as_string t ++ (b',' ∷ join_items (u ∷ ts))

unfoldable pub to_key : Input → Text
unfolding join_items
to_key missing = lit "undefined"
to_key (items ts) = join_items ts
to_key (value s) = s

abbrev pub from_clone {ℓ} : {A : Type ℓ} → Result CloneError A → Result BuilderError A
from_clone (ok a) = ok a
from_clone (err e) = err (clone_error e)

abbrev pub name_of : Text × Extractor → Text
name_of (field_name, extractor) = field_name

-- `lower` is `toLowerCase`; the pipeline has a stack of functions with these bodies.
module _ (lower : Text → Text) (body : ℕ → PipelineFunction) (pipeline : Pipeline) where
  unfoldable pub terms_of : Text → Input → Result BuilderError (List Token)
  unfolding tokenizer run
  terms_of field_name input = do
    tokens ←
        from_clone (tokenizer lower input (some ((lit "fields", texts (field_name ∷ [])) ∷ [])))
    ok (run body pipeline tokens)

  -- The part of `add` for one field.
  unfoldable pub add_field :
      Text → Document → Text → Extractor → Builder → Result BuilderError Builder
  unfolding terms_of field_value index_terms to_string
  add_field doc_ref doc field_name extractor b = do
    input ← field_value field_name extractor doc
    terms ← terms_of field_name input
    let names = map name_of b.fields
    let (field_ref, _) =
        to_string (record { doc_ref = doc_ref; field_name = field_name; string_value = none })
    (counts, inv) ←
        index_terms names b.metadata_whitelist field_name doc_ref terms [] b.inverted_index
    ok (record b {
      inverted_index = inv;
      field_term_frequencies = put field_ref counts b.field_term_frequencies;
      field_lengths = put field_ref (length terms) b.field_lengths;
    })

  unfoldable pub add_fields :
      Text → Document → List (Text × Extractor) → Builder → Result BuilderError Builder
  unfolding add_field
  add_fields doc_ref doc [] b = ok b
  add_fields doc_ref doc ((field_name, extractor) ∷ rest) b = do
    b' ← add_field doc_ref doc field_name extractor b
    add_fields doc_ref doc rest b'

  unfoldable pub add : Document → Option Metadata → Builder → Result BuilderError Builder
  unfolding add_fields to_key
  add doc attributes b =
      let doc_ref = to_key (doc b.ref_name) in
      add_fields doc_ref doc b.fields (record b {
        documents = put doc_ref (or_empty attributes) b.documents;
        document_count = b.document_count + 1;
      })
