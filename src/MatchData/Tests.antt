-- ===== src/MatchData/Tests.antt =====
-- Match data of docs/ui/lunr.js at concrete terms.
use kubearchive.Prelude.{List, [], refl, some, ℕ, ◌∷◌, ◌≡◌}
use kubearchive.Text.{lit}
use kubearchive.Metadata.{get, put}
use kubearchive.MatchData.{Keys, MatchData, add, combine, merge, new}
use kubearchive.MatchData.Combine.{both, values_at, values_at-combine}

match_data : Unit {0}
unfolding new combine add merge get put
match_data = tt

abbrev positions : List ℕ → Keys ℕ
positions at = (lit "position", at) ∷ []

abbrev in_title : MatchData ℕ
in_title = record { metadata = (lit "pod", (lit "title", positions (3 ∷ [])) ∷ []) ∷ [] }

abbrev in_both : MatchData ℕ
in_both = record {
  metadata =
      (lit "pod", (lit "title", positions (8 ∷ [])) ∷ (lit "text", positions (1 ∷ [])) ∷ []) ∷ [];
}

new_run : new ℕ (some (lit "pod")) (lit "title") (some (positions (3 ∷ []))) ≡ in_title
unfolding match_data
new_run = refl

values_at-combine_example :
    values_at ℕ (lit "pod") (lit "title") (lit "position") (combine ℕ in_title in_both)
    ≡ both ℕ
        (values_at ℕ (lit "pod") (lit "title") (lit "position") in_title)
        (values_at ℕ (lit "pod") (lit "title") (lit "position") in_both)
unfolding match_data
values_at-combine_example =
    values_at-combine ℕ in_title in_both (lit "pod") (lit "title") (lit "position")
      ((refl, tt), (((refl, (refl, tt)), ((refl, tt), ((refl, tt), tt))), tt))
