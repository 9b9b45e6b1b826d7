-- ===== src/Index/Answers.antt =====
-- What `query` of docs/ui/lunr.js answers: the documents that it returns respect what the clauses
-- require and prohibit.

use kubearchive.Index.Returns.{Gives, Returns}
use kubearchive.Prelude.{All, List, [], false, inl, inr, refl, some, true, ℕ, ◌↔◌, ◌∷◌, ◌≡◌, ◌⊎◌}
use kubearchive.Text.{Text}
use kubearchive.SearchSet.{complete, empty}
use kubearchive.Vector.{Number, Vector}
use kubearchive.Vector
use kubearchive.Metadata.{get, put}
use kubearchive.Pipeline.{PipelineFunction, run}
use kubearchive.Query.{Clause, Query, is_negated}
use kubearchive.Query
use kubearchive.TokenSet.{Store}
use kubearchive.TokenSet.Spelled.{IsIn}
use kubearchive.TokenSet.Expand.{IsTokenSet}
use kubearchive.Index.{Index, Matches, Run, keys, pure}
use kubearchive.Index.Invariant.{IsGood, IsRef, IsVector, get-put-elim, get-put_self}
use kubearchive.Index.Words.{AreIndexed, IsSame}
use kubearchive.Index.Clauses.{IsClause, IsRespected, MatchesIn, visit_clauses-Returns}
use kubearchive.Index.Results.{Match, all_prohibited, all_required, sort_matches}
use kubearchive.Index.Queries.{empty_vectors, finish, no_matches, query}
use kubearchive.Index.Ranked.{
  IsDistinct, IsRanked, refs_of, sort_matches-IsDistinct, sort_matches-IsRanked,
}
use kubearchive.Index.Allowed.{sort_matches-All}
use kubearchive.Index.Adds.{AddsAll}
use kubearchive.Index.Matching.{matching_refs-Gives}
use kubearchive.Index.Exact.{IsCandidate, IsExcluded, NotRequired, results-exact}
use kubearchive.Index.Respected.{IsAllowed, allowed-free, clauses-IsAllowed}
use kubearchive.Index.Gathered.{HaveNoSlash, collect_results-Gives}

module _ (num : Number) (body : ℕ → PipelineFunction) (index : Index num) (s0 : Store) (h : ℕ) where
  open num use {F, lt, of_nat}

  -- An index whose words have postings with vectors, under field names without a slash.
  pub record IsIndex : Type 0 where
    pub token_set : IsTokenSet s0 index.token_set h
    pub indexed : AreIndexed num index s0 h
    pub no_slash : HaveNoSlash num index
    pub refs : All (IsRef num index) (keys index.field_vectors)

  -- Documents that the clauses allow, each once, none of which scores less than the next.
  abbrev pub AreAnswers : List Clause → List (Match num) → Type 0
  AreAnswers clauses results =
      All (λ (m : Match num). All (λ c. IsAllowed num body index s0 h c m.ref) clauses) results
      × IsDistinct (refs_of num results)
      × IsRanked num results

  empty_vectors-HasVectors :
      (fields : List Text) (query_vectors : List (Text × Vector num)) (f : Text)
      → (IsIn f fields ⊎ ((v : Vector num) × (get f query_vectors ≡ some v) × IsVector num v))
      → (v : Vector num) × (get f (empty_vectors num body fields query_vectors) ≡ some v)
        × IsVector num v
  unfolding empty_vectors
  empty_vectors-HasVectors [] qv f (inl no_field) = absurd no_field
  empty_vectors-HasVectors [] qv f (inr there) = there
  empty_vectors-HasVectors (g ∷ fields) qv f known =
      let blank = Vector.new num [] in
      let is_blank : IsVector num blank = unfold Vector.new in (of_nat 0, [], refl, tt, tt) in
      empty_vectors-HasVectors fields (put g blank qv) f (elim known [
        | inl (inl same) ↦ inr (blank, rw same (get-put_self g blank qv), is_blank)
        | inl (inr there) ↦ inl there
        | inr old ↦ inr (
            get-put-elim (λ o. (v : Vector num) × (o ≡ some v) × IsVector num v) g f blank qv
              (λ _. (blank, refl, is_blank)) old)
      ])

  no_matches-IsGood : HaveNoSlash num index → IsGood num index (no_matches num body index.fields)
  unfolding no_matches get
  no_matches-IsGood no_slash = record {
    vectors = λ f is_in. empty_vectors-HasVectors index.fields [] f (inl is_in);
    refs = λ key found none_found. cc;
    no_slash = no_slash;
    cached = λ w f d p is_in hit. cc;
  }

  -- The results are, where no clause is required, the documents in question that are not excluded.
  abbrev IsExact : Query → List (Match num) → Type 0
  IsExact q results =
      All NotRequired q.clauses
      → (d : Text)
      → IsIn d (refs_of num results) ↔ (
          IsCandidate num body index s0 h (is_negated q) q.clauses d
          × ¬ IsExcluded num body index s0 h q.clauses d)

  results-allowed :
      {P Q : Text → Type 0} (results : List (Match num))
      → ((d : Text) → P d → Q d)
      → All (λ (r : Match num). P r.ref) results
      → All (λ (r : Match num). Q r.ref) results
  results-allowed [] each _ = tt
  results-allowed (r ∷ results) each (here, rest) =
      (each r.ref here, results-allowed results each rest)

  finish-Gives :
      (q : Query) (m : Matches num)
      → ((a b : F) → lt a b ≡ true → lt b a ≡ false)
      → IsIndex
      → IsGood num index m
      → All (IsClause num body index s0 h) q.clauses
      → All (λ c. IsRespected num body index s0 h c m) q.clauses
      → AddsAll num (MatchesIn num body index s0 h) q.clauses (no_matches num body index.fields) m
      → Gives
          (finish num body index q m)
          (λ results. AreAnswers q.clauses results × IsExact q results)
  unfolding finish
  finish-Gives q m asym is_index good are_clauses respected adds =
      let req = all_required index.fields m.required_matches complete in
      let pro = all_prohibited index.fields m.prohibited_matches empty in
      let ((refs, matching), run, (known, taken)) =
        matching_refs-Gives num index is_index.no_slash body q m good is_index.refs in
      let (results, ran, ((left, distinct), listed)) =
        collect_results-Gives num index is_index.no_slash req pro matching refs m.query_vectors []
          known (λ f is_in. good.vectors f is_in) (tt, tt) in
      let allowed =
        results-allowed results
          (λ d is_left.
            clauses-IsAllowed num body index s0 h m d is_left q.clauses are_clauses respected)
          left in
      (
        sort_matches num results [],
        rw (run, ran) refl,
        (
          (
            sort_matches-All num (λ d. All (λ c. IsAllowed num body index s0 h c d) q.clauses)
                results [] allowed tt,
            sort_matches-IsDistinct num results [] distinct tt (λ e _ no_ref. no_ref),
            sort_matches-IsRanked num asym results [] tt,
          ),
          λ none_required.
              results-exact num body index s0 h is_index.no_slash q.clauses are_clauses
                none_required m adds (is_negated q) refs results taken
                (λ d is_left. allowed-free num body index s0 h q.clauses d (
                  clauses-IsAllowed num body index s0 h m d is_left q.clauses are_clauses
                    respected))
                listed,
        ),
      )

  query-Gives :
      (fn : Query → Run Query) (q : Query)
      → ((a b : F) → lt a b ≡ true → lt b a ≡ false)
      → IsIndex
      → fn (Query.new index.fields) ≡ pure q
      → All (IsClause num body index s0 h) q.clauses
      → Returns
          (λ fuel. query num body fuel index fn s0)
          (λ r. (AreAnswers q.clauses r.0 × IsExact q r.0) × IsSame num index s0 h r.1)
  unfolding query
  query-Gives fn q asym is_index asked are_clauses =
      let (k, (m, s'), run, (good, later, respected, same, adds)) =
        visit_clauses-Returns num body index s0 h is_index.indexed q.clauses
          (no_matches num body index.fields) s0 (no_matches-IsGood is_index.no_slash)
          (is_index.token_set, λ w. (λ k. k, λ k. k)) are_clauses in
      let (results, ran, answers) =
        finish-Gives q m asym is_index good are_clauses respected adds in
      (k, (results, s'), λ fuel. rw (asked, run fuel, ran) refl, (answers, same))

  -- A query on a well-formed index, in which the words of the token set have postings and the
  -- documents of those have vectors, whose callback leaves clauses on fields of the index, with terms
  -- of which the pipeline leaves some and none that is empty,
  -- returns for some amount of fuel, and then for more, where the order of numbers is asymmetric. Each
  -- document is at most once among the results, and no result scores less than the next. Each has, for
  -- each required clause with fields, a word for which the clause stands, and has none for which a
  -- prohibited clause stands. The token set stays what it was.
  pub query-AreAnswers :
      (fn : Query → Run Query) (q : Query)
      → ((a b : F) → lt a b ≡ true → lt b a ≡ false)
      → IsIndex
      → fn (Query.new index.fields) ≡ pure q
      → All (IsClause num body index s0 h) q.clauses
      → Returns
          (λ fuel. query num body fuel index fn s0)
          (λ r. AreAnswers q.clauses r.0 × IsSame num index s0 h r.1)
  query-AreAnswers fn q asym is_index asked are_clauses =
      let (k, r, run, ((answers, _), same)) = query-Gives fn q asym is_index asked are_clauses in
      (k, r, run, (answers, same))

  -- A query on a well-formed index, in which the words of the token set have postings and the
  -- documents of those have vectors, whose callback leaves clauses on fields of the index, none of them
  -- required, with terms of which the pipeline leaves some and none that is empty, returns for some amount of fuel, and then for more, where the order of
  -- numbers is asymmetric. The documents among the results are exactly those with a word for which an
  -- optional clause stands, or, if all clauses are prohibited, all documents with a field in the index,
  -- less those with a word for which a prohibited clause stands.
  pub query-exact :
      (fn : Query → Run Query) (q : Query)
      → ((a b : F) → lt a b ≡ true → lt b a ≡ false)
      → IsIndex
      → fn (Query.new index.fields) ≡ pure q
      → All (IsClause num body index s0 h) q.clauses
      → All NotRequired q.clauses
      → Returns
          (λ fuel. query num body fuel index fn s0)
          (λ r.
            (d : Text)
            → IsIn d (refs_of num r.0) ↔ (
                IsCandidate num body index s0 h (is_negated q) q.clauses d
                × ¬ IsExcluded num body index s0 h q.clauses d))
  query-exact fn q asym is_index asked are_clauses none_required =
      let (k, r, run, ((_, exact), _)) = query-Gives fn q asym is_index asked are_clauses in
      (k, r, run, exact none_required)
