-- ===== src/Index.antt =====
-- lunr.Index of docs/ui/lunr.js: how `query` collects what matches the clauses of a query. The nodes
-- of token sets are in a store, as `fromClause` and `intersect` make new ones.
pub mod Returns
pub mod Keys
pub mod Invariant
pub mod Visits
pub mod Fields
pub mod Terms
pub mod Words
pub mod Adds
pub mod Narrowed
pub mod Clauses
pub mod Results
pub mod Allowed
pub mod Gathered
pub mod Matching
pub mod Exact
pub mod Ranked
pub mod Listed
pub mod Respected
pub mod Answers
mod Tests
pub mod Queries
use kubearchive.Prelude.{
  Bool, List, Option, Result, [], err, false, if◌then◌else◌, map, none, ok, some, true, ℕ, ◌++◌,
  ◌∷◌,
}
use kubearchive.Text.{Text, lit}
use kubearchive.Metadata.{Value, get, put, texts}
use kubearchive.Pipeline.{Pipeline, PipelineFunction, run_string}
use kubearchive.Query.{Clause, Presence, QueryError, optional, or_default, prohibited, required}
use kubearchive.FieldRef.{joiner, to_string}
use kubearchive.SearchSet
use kubearchive.SearchSet.{SearchSet, complete, empty}
use kubearchive.MatchData
use kubearchive.MatchData.{MatchData}
use kubearchive.Builder.{Kept, Posting}
use kubearchive.Vector.{Number, Vector, VectorError, upsert}
use kubearchive.TokenSet.{Store}
use kubearchive.TokenSet.Expand.{expand}

pub data IndexError : Type 0 where
  type_error : IndexError
  malformed_field_ref : IndexError
  vector_error : VectorError → IndexError
  query_error : QueryError → IndexError

-- `none` means that the fuel ran out, or that a loop makes no progress.
abbrev pub Run : Type 0 → Type 0
Run A = Option (Result IndexError A)

abbrev pub pure : {A : Type 0} → A → Run A
pure a = some (ok a)

infixl 5 ◌>>=◌
abbrev pub ◌>>=◌ : {A B : Type 0} → Run A → (A → Run B) → Run B
none >>= f = none
some (err e) >>= f = some (err e)
some (ok a) >>= f = f a

-- A property that is read from `undefined` where there is nothing.
abbrev pub present : {A : Type 0} → Option A → Run A
present none = some (err type_error)
present (some a) = pure a

abbrev pub in_time : {A : Type 0} → Option A → Run A
in_time none = none
in_time (some a) = pure a

abbrev pub of_vector : {A : Type 0} → Option (Result VectorError A) → Run A
of_vector none = none
of_vector (some (err e)) = some (err (vector_error e))
of_vector (some (ok a)) = pure a

abbrev pub keys : {A : Type 0} → List (Text × A) → List Text
keys {A} d = map (λ (e : Text × A). e.0) d

-- What is collected about a match: the terms, the fields and what is kept of the tokens.
abbrev pub Found : Type 0
Found = MatchData (Option Value)

abbrev pub is_cached : Option Bool → Bool
is_cached (some true) = true
is_cached _ = false

abbrev pub is_impossible : List Text → Presence → Bool
is_impossible [] required = true
is_impossible _ _ = false

-- `requiredMatches[field] = lunr.Set.empty` for the fields.
unfoldable pub require_none : List Text → List (Text × SearchSet) → List (Text × SearchSet)
require_none [] required_matches = required_matches
require_none (field ∷ fields) required_matches =
    require_none fields (put field empty required_matches)

-- The loop that narrows the required matches of the fields to those of the clause.
unfoldable pub narrow_required :
    List Text → SearchSet → List (Text × SearchSet) → Run (List (Text × SearchSet))
narrow_required [] clause_matches required_matches = pure required_matches
narrow_required (field ∷ fields) clause_matches required_matches = do
  old ← present (get field required_matches)
  narrow_required fields clause_matches
      (put field (SearchSet.intersect old clause_matches) required_matches)

module _ (num : Number) where
  open num use {of_nat, add}

  pub record Index : Type 0 where
    pub inverted_index : List (Text × Posting)
    pub field_vectors : List (Text × Vector num)
    pub token_set : ℕ
    pub fields : List Text
    pub pipeline : Pipeline

  -- The variables of `query` that the loop over the clauses changes.
  pub record Matches : Type 0 where
    pub query_vectors : List (Text × Vector num)
    pub matching_fields : List (Text × Found)
    pub term_field_cache : List (Text × Bool)
    pub required_matches : List (Text × SearchSet)
    pub prohibited_matches : List (Text × SearchSet)

  -- The loop over the documents that have the term in the field.
  unfoldable pub collect :
      Text → Text → List (Text × Kept) → List (Text × Found) → List (Text × Found)
  collect expanded_term field [] matching = matching
  collect expanded_term field ((doc_ref, metadata) ∷ docs) matching =
      let key =
        (to_string (record { doc_ref = doc_ref; field_name = field; string_value = none })).0 in
      let field_match = elim (get key matching) as (λ _. Found) [
        | none ↦ MatchData.new (Option Value) (some expanded_term) field (some metadata)
        | some old ↦ MatchData.add (Option Value) expanded_term field metadata old
      ] in
      collect expanded_term field docs (put key field_match matching)

  -- The vector of the query, and the matches, unless the term has been seen in the field.
  unfoldable pub score_field : ℕ → Text → ℕ → Text → List (Text × Kept) → Matches → Run Matches
  unfolding collect
  score_field boost expanded_term term_index field field_posting m = do
    v ← present (get field m.query_vectors)
    v' ← of_vector (upsert num v (of_nat term_index) (of_nat boost) (λ a b. ok (add a b)))
    let query_vectors = put field v' m.query_vectors
    let term_field = expanded_term ++ (joiner ∷ field)
    pure (
        if is_cached (get term_field m.term_field_cache)
        then record m { query_vectors = query_vectors }
        else record m {
          query_vectors = query_vectors;
          matching_fields = collect expanded_term field field_posting m.matching_fields;
          term_field_cache = put term_field true m.term_field_cache;
        })

  unfoldable pub note_required : Text → SearchSet → SearchSet × Matches → SearchSet × Matches
  note_required field docs (clause_matches, m) = (
    SearchSet.union clause_matches docs,
    record m {
      required_matches = elim (get field m.required_matches) [
        | none ↦ put field complete m.required_matches
        | some old ↦ m.required_matches
      ];
    },
  )

  unfoldable pub note_prohibited : Text → SearchSet → Matches → Matches
  note_prohibited field docs m = record m {
    prohibited_matches =
        put field (SearchSet.union (or_default (get field m.prohibited_matches) empty) docs)
          m.prohibited_matches;
  }

  -- What is done with a field of the posting, by the presence.
  unfoldable pub visit_by :
      Presence
      → ℕ
      → Text
      → ℕ
      → Text
      → List (Text × Kept)
      → SearchSet × Matches
      → Run (SearchSet × Matches)
  unfolding score_field note_required note_prohibited
  visit_by optional boost expanded_term term_index field field_posting (clause_matches, m) = do
    m' ← score_field boost expanded_term term_index field field_posting m
    pure (clause_matches, m')
  visit_by required boost expanded_term term_index field field_posting state = do
    let (clause_matches, m) = note_required field (SearchSet.new (keys field_posting)) state
    m' ← score_field boost expanded_term term_index field field_posting m
    pure (clause_matches, m')
  visit_by prohibited boost expanded_term term_index field field_posting (clause_matches, m) =
      pure (clause_matches, note_prohibited field (SearchSet.new (keys field_posting)) m)

  -- The loop over the fields of the clause.
  unfoldable pub visit_fields :
      Clause → Text → Posting → List Text → SearchSet × Matches → Run (SearchSet × Matches)
  unfolding visit_by
  visit_fields clause expanded_term posting [] state = pure state
  visit_fields clause expanded_term posting (field ∷ fields) state = do
    field_posting ← present (get field posting.fields)
    state' ←
        visit_by clause.presence clause.boost expanded_term posting.index field field_posting state
    visit_fields clause expanded_term posting fields state'

  -- The loop over the expanded terms.
  unfoldable pub visit_terms :
      Index → Clause → List Text → SearchSet × Matches → Run (SearchSet × Matches)
  unfolding visit_fields
  visit_terms index clause [] state = pure state
  visit_terms index clause (expanded_term ∷ terms) state = do
    posting ← present (get expanded_term index.inverted_index)
    state' ← visit_fields clause expanded_term posting clause.fields state
    visit_terms index clause terms state'

  unfoldable pub stop : List Text → Matches → Matches
  unfolding require_none
  stop fields m = record m { required_matches = require_none fields m.required_matches }

  -- The loop over the terms of the pipeline, with its `break`.
  unfoldable pub visit_words :
      ℕ
      → Index
      → Clause
      → List Text
      → (SearchSet × Matches) × Store
      → Run ((SearchSet × Matches) × Store)
  unfolding visit_terms stop expand
  visit_words fuel index clause [] state = pure state
  visit_words fuel index clause (term ∷ terms) ((clause_matches, m), s) = do
    (expanded_terms, s') ← in_time (expand fuel index.token_set term clause.edit_distance s)
    let more = (do
      state' ← visit_terms index clause expanded_terms (clause_matches, m)
      visit_words fuel index clause terms (state', s'))
    if is_impossible expanded_terms clause.presence
        then pure ((clause_matches, stop clause.fields m), s')
        else more

  unfoldable pub narrow_by : Presence → List Text → SearchSet → Matches → Run Matches
  unfolding narrow_required
  narrow_by required fields clause_matches m = do
    required_matches ← narrow_required fields clause_matches m.required_matches
    pure (record m { required_matches = required_matches })
  narrow_by _ fields clause_matches m = pure m

  module _ (body : ℕ → PipelineFunction) where
    -- The terms of the pipeline, or the term itself.
    unfoldable pub terms_of : Index → Clause → Text → List Text
    unfolding run_string
    terms_of index clause term =
        if clause.use_pipeline
        then run_string body index.pipeline term (some ((lit "fields", texts clause.fields) ∷ []))
        else term ∷ []

    -- A term that is `undefined` becomes the empty text of a token for the pipeline, and cannot be made
    -- a token set of without it.
    unfoldable pub clause_terms : Index → Clause → Run (List Text)
    unfolding terms_of
    clause_terms index clause = elim clause.term [
      | some term ↦ pure (terms_of index clause term)
      | none ↦
          if clause.use_pipeline then pure (terms_of index clause []) else some (err type_error)
    ]

    unfoldable pub visit_clause : ℕ → Index → Clause → Matches × Store → Run (Matches × Store)
    unfolding clause_terms visit_words narrow_by
    visit_clause fuel index clause (m, s) = do
      terms ← clause_terms index clause
      ((clause_matches, m'), s') ← visit_words fuel index clause terms ((empty, m), s)
      m'' ← narrow_by clause.presence clause.fields clause_matches m'
      pure (m'', s')

    unfoldable pub visit_clauses : ℕ → Index → List Clause → Matches × Store → Run (Matches × Store)
    unfolding visit_clause
    visit_clauses fuel index [] state = pure state
    visit_clauses fuel index (clause ∷ clauses) state = do
      state' ← visit_clause fuel index clause state
      visit_clauses fuel index clauses state'
