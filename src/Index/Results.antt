-- ===== src/Index/Results.antt =====
-- lunr.Index of docs/ui/lunr.js: how `query` turns the fields that match into results.
use kubearchive.Prelude.{List, Option, [], err, if◌then◌else◌, none, not, ok, some, ◌&&◌, ◌∷◌}
use kubearchive.Text.{Text, text_eq}
use kubearchive.Metadata.{Value, get, put}
use kubearchive.FieldRef
use kubearchive.FieldRef.{FieldRef}
use kubearchive.SearchSet
use kubearchive.SearchSet.{SearchSet}
use kubearchive.MatchData
use kubearchive.MatchData.{MatchData}
use kubearchive.Vector.{Number, Vector, similarity}
use kubearchive.Index.{Found, Index, Run, in_time, malformed_field_ref, present, pure, ◌>>=◌}

-- `allRequiredMatches` and `allProhibitedMatches`, from what the fields require and prohibit.
unfoldable pub all_required : List Text → List (Text × SearchSet) → SearchSet → SearchSet
all_required [] required_matches acc = acc
all_required (field ∷ fields) required_matches acc =
    all_required fields required_matches (elim (get field required_matches) as (λ _. SearchSet) [
      | none ↦ acc
      | some docs ↦ SearchSet.intersect acc docs
    ])

unfoldable pub all_prohibited : List Text → List (Text × SearchSet) → SearchSet → SearchSet
all_prohibited [] prohibited_matches acc = acc
all_prohibited (field ∷ fields) prohibited_matches acc =
    all_prohibited fields prohibited_matches
      (elim (get field prohibited_matches) as (λ _. SearchSet) [
        | none ↦ acc
        | some docs ↦ SearchSet.union acc docs
      ])

unfoldable pub read_ref : Text → Run FieldRef
read_ref s = elim (FieldRef.from_string s) [
  | err _ ↦ some (err malformed_field_ref)
  | ok field_ref ↦ pure field_ref
]

-- The blank matches of a negated query, for all the fields of documents.
unfoldable pub blank_matches : List Text → List (Text × Found) → Run (List (Text × Found))
unfolding read_ref
blank_matches [] matching = pure matching
blank_matches (ref ∷ refs) matching = do
  field_ref ← read_ref ref
  blank_matches refs (put ref (MatchData.new (Option Value) none [] none) matching)

module _ (num : Number) where
  open num use {F, lt, add}

  -- A match: what is in `results` and, under its `ref`, in `matches`.
  pub record Match : Type 0 where
    pub ref : Text
    pub score : F
    pub match_data : Found

  unfoldable pub add_match : Text → F → Found → List Match → List Match
  add_match doc_ref score match_data [] =
      record { ref = doc_ref; score = score; match_data = match_data } ∷ []
  add_match doc_ref score match_data (m ∷ results) =
      if text_eq m.ref doc_ref
      then record m {
        score = add m.score score;
        match_data = MatchData.combine (Option Value) m.match_data match_data;
      }
        ∷ results
      else m ∷ add_match doc_ref score match_data results

  -- The loop over the fields that match; `similarity` leaves a magnitude in the vector of the query.
  unfoldable pub collect_results :
      Index num
      → SearchSet
      → SearchSet
      → List (Text × Found)
      → List Text
      → List (Text × Vector num)
      → List Match
      → Run (List Match)
  unfolding read_ref add_match
  collect_results index required_docs prohibited_docs matching [] query_vectors results =
      pure results
  collect_results index required_docs prohibited_docs matching (ref ∷ refs) query_vectors results =
      do
        field_ref ← read_ref ref
        let skip =
            collect_results index required_docs prohibited_docs matching refs query_vectors results
        let keep = (do
          query_vector ← present (get field_ref.field_name query_vectors)
          field_vector ← present (get ref index.field_vectors)
          (score, query_vector') ← in_time (similarity num query_vector field_vector)
          match_data ← present (get ref matching)
          collect_results index required_docs prohibited_docs matching refs
              (put field_ref.field_name query_vector' query_vectors)
              (add_match field_ref.doc_ref score match_data results))
        if SearchSet.contains required_docs field_ref.doc_ref
              && not (SearchSet.contains prohibited_docs field_ref.doc_ref)
            then keep
            else skip

  -- `results.sort`, which is stable: the first of two stays before the other unless it scores less.
  unfoldable pub insert_match : Match → List Match → List Match
  insert_match m [] = m ∷ []
  insert_match m (n ∷ sorted) =
      if lt n.score m.score then m ∷ n ∷ sorted else n ∷ insert_match m sorted

  unfoldable pub sort_matches : List Match → List Match → List Match
  unfolding insert_match
  sort_matches [] sorted = sorted
  sort_matches (m ∷ results) sorted = sort_matches results (insert_match m sorted)
