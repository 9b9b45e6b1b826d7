-- ===== src/Index/Queries.antt =====
-- `query` and `search` of lunr.Index in docs/ui/lunr.js.
use kubearchive.Prelude.{List, Option, Result, [], err, if◌then◌else◌, none, ok, some, ℕ, ◌∷◌}
use kubearchive.Text.{Text}
use kubearchive.Metadata.{put}
use kubearchive.Query
use kubearchive.Query.{Query, QueryError, is_negated}
use kubearchive.Pipeline.{PipelineFunction}
use kubearchive.Parser.{parse}
use kubearchive.SearchSet.{complete, empty}
use kubearchive.Vector
use kubearchive.Vector.{Number, Vector}
use kubearchive.TokenSet.{Store}
use kubearchive.Index.{Found, Index, Matches, Run, keys, pure, query_error, visit_clauses, ◌>>=◌}
use kubearchive.Index.Results.{
  Match, all_prohibited, all_required, blank_matches, collect_results, sort_matches,
}

abbrev pub of_query : Option (Result QueryError Query) → Run Query
of_query none = none
of_query (some (err e)) = some (err (query_error e))
of_query (some (ok q)) = pure q

module _ (num : Number) (body : ℕ → PipelineFunction) where
  unfoldable pub empty_vectors : List Text → List (Text × Vector num) → List (Text × Vector num)
  empty_vectors [] query_vectors = query_vectors
  empty_vectors (field ∷ fields) query_vectors =
      empty_vectors fields (put field (Vector.new num []) query_vectors)

  -- An empty vector for each field, and nothing matched.
  unfoldable pub no_matches : List Text → Matches num
  unfolding empty_vectors
  no_matches fields = record {
    query_vectors = empty_vectors fields [];
    matching_fields = [];
    term_field_cache = [];
    required_matches = [];
    prohibited_matches = [];
  }

  -- The fields that match, with what is known about the matches.
  unfoldable pub matching_refs :
      Index num → Query → Matches num → Run (List Text × List (Text × Found))
  unfolding blank_matches
  matching_refs index q m =
      if is_negated q
      then (do
        matching ← blank_matches (keys index.field_vectors) m.matching_fields
        pure (keys index.field_vectors, matching))
      else pure (keys m.matching_fields, m.matching_fields)

  -- What follows the loop over the clauses.
  unfoldable pub finish : Index num → Query → Matches num → Run (List (Match num))
  unfolding matching_refs collect_results sort_matches all_required all_prohibited
  finish index q m = do
    (refs, matching) ← matching_refs index q m
    results ←
        collect_results num index (all_required index.fields m.required_matches complete)
          (all_prohibited index.fields m.prohibited_matches empty) matching refs m.query_vectors []
    pure (sort_matches num results [])

  -- `query` with the callback `fn`, which may throw.
  unfoldable pub query :
      ℕ → Index num → (Query → Run Query) → Store → Run (List (Match num) × Store)
  unfolding no_matches visit_clauses finish
  query fuel index fn s = do
    q ← fn (Query.new index.fields)
    (m, s') ← visit_clauses num body fuel index q.clauses (no_matches index.fields, s)
    results ← finish index q m
    pure (results, s')

  -- `lower` is toLowerCase.
  unfoldable pub search :
      (Text → Text) → ℕ → Index num → Text → Store → Run (List (Match num) × Store)
  unfolding query parse
  search lower fuel index query_string s =
      query fuel index (λ q. of_query (parse lower query_string q)) s
