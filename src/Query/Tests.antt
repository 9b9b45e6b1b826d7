-- ===== src/Query/Tests.antt =====
-- Clauses of docs/ui/lunr.js at concrete terms.
use kubearchive.Prelude.{[], ok, refl, some, true, ◌++◌, ◌∷◌, ◌≡◌}
use kubearchive.Text.{Text, lit}
use kubearchive.Query.{
  Options, Query, add_terms, add_wildcards, clause, ends_with_wildcard, is_leading, is_negated,
  is_trailing, new, no_options, starts_with_wildcard,
}
use kubearchive.Query.Wildcards.{IsAdded, clause-wildcards, finished}
use kubearchive.Query.Negated.{add_terms-clauses, finished_clauses}

queries : Unit {0}
unfolding new add_terms is_negated starts_with_wildcard ends_with_wildcard
queries = tt

abbrev both_ends : Options
both_ends = record no_options { term = some (lit "po"); wildcard = some 3 }

abbrev empty_query : Query
empty_query = record { clauses = []; all_fields = lit "title" ∷ [] }

both_wildcards :
    add_terms (lit "po" ∷ lit "*" ∷ []) both_ends empty_query
    ≡ ok (record empty_query {
      clauses =
          finished empty_query both_ends (lit "*po*")
          ∷ finished empty_query both_ends (lit "*")
          ∷ [];
    })
unfolding queries
both_wildcards = refl

clause-wildcards_example :
    (lead : Text) × (trail : Text) × (clause empty_query both_ends
      ≡ ok (record empty_query {
        clauses = [] ++ finished empty_query both_ends (lead ++ (lit "po" ++ trail)) ∷ [];
      }))
    × IsAdded 3 (lit "po") lead trail
    × (is_leading 3 ≡ true → starts_with_wildcard (lead ++ (lit "po" ++ trail)) ≡ true)
    × (is_trailing 3 ≡ true → ends_with_wildcard (lead ++ (lit "po" ++ trail)) ≡ true)
    × (add_wildcards 3 (some (lead ++ (lit "po" ++ trail)))
        ≡ ok (some (lead ++ (lit "po" ++ trail))))
clause-wildcards_example = clause-wildcards empty_query both_ends (lit "po") refl

add_terms-clauses_example :
    add_terms (lit "a" ∷ lit "b" ∷ []) both_ends empty_query
    ≡ ok (record empty_query {
      clauses = [] ++ finished_clauses empty_query both_ends (lit "a" ∷ lit "b" ∷ []);
    })
add_terms-clauses_example = add_terms-clauses (lit "a" ∷ lit "b" ∷ []) both_ends empty_query
