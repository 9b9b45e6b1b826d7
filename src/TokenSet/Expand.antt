-- ===== src/TokenSet/Expand.antt =====
-- The terms of an index that a clause stands for, which `query` of docs/ui/lunr.js reads with
-- `fromClause`, `intersect` and `toArray`.

use kubearchive.TokenSet.Fuzzy.Words.{from_fuzzy_string-Near}
use kubearchive.TokenSet.Intersect.Words.{intersect-Spells}
use kubearchive.TokenSet.Wildcards.{from_string-Fits}
use kubearchive.Prelude.{
  List, Option, [], ap, arith, none, refl, some, suc, ℕ, ◌+◌, ◌<◌, ◌↔◌, ◌∙◌, ◌≡◌, ◌≢◌, ◌≤◌,
}
use kubearchive.Text.{Text}
use kubearchive.TokenSet.{Store, from_string}
use kubearchive.TokenSet.Patterns.{Accepts, Fits, iff_trans}
use kubearchive.TokenSet.Closed.{HasHeight-old, Spells-old, from_string-above}
use kubearchive.TokenSet.Spelled.{HasHeight, IsClosed, IsIn, Spells}
use kubearchive.TokenSet.Arrays.{to_array}
use kubearchive.TokenSet.Arrays.Words.{to_array-Spells}
use kubearchive.TokenSet.Intersect.{intersect}
use kubearchive.TokenSet.Fuzzy.{from_clause}
use kubearchive.TokenSet.Fuzzy.Edits.{Near}

-- `tokenSet.intersect(lunr.TokenSet.fromClause(clause)).toArray()`.
unfoldable pub expand : ℕ → ℕ → Text → Option ℕ → Store → Option (List Text × Store)
unfolding from_clause intersect to_array
expand fuel token_set term edit_distance s = elim (from_clause fuel term edit_distance s) [
  | none ↦ none
  | some (b, t) ↦ elim (intersect fuel token_set b t) [
    | none ↦ none
    | some (root, u) ↦ elim (to_array fuel root u) [ none ↦ none | some words ↦ some (words, u) ]
  ]
]

-- The words that a clause stands for.
abbrev pub IsMeant : Text → Option ℕ → Text → Type 0
IsMeant term none w = Fits term w
IsMeant term (some edit_distance) w = Near edit_distance term w

-- Each clause's set is built for some amount of fuel, and then for more, above what was there.
abbrev Builds : Store → Text → Option ℕ → Type 0
Builds s term edit_distance =
    (k : ℕ) × (b : ℕ) × (t : Store) × ((fuel : ℕ)
      → from_clause (suc k + fuel) term edit_distance s ≡ some (b, t))
    × ((i : ℕ) → i < s.next_id → t.nodes i ≡ s.nodes i)
    × (s.next_id ≤ t.next_id)
    × (b < t.next_id)
    × IsClosed t
    × ((w : Text) → Accepts t b w ↔ IsMeant term edit_distance w)

from_clause-Builds :
    (s : Store) (term : Text) (edit_distance : Option ℕ)
    → term ≢ []
    → IsClosed s
    → Builds s term edit_distance
unfolding from_clause
from_clause-Builds s term none ne closed =
    let (closed', old, le, known) = from_string-above term s closed in
    (
      0,
      (from_string term s).0,
      (from_string term s).1,
      λ fuel. refl,
      old,
      le,
      known,
      closed',
      λ w. from_string-Fits term s w ne,
    )
from_clause-Builds s term (some edit_distance) ne closed =
    from_fuzzy_string-Near term edit_distance s ne closed

module _ (s : Store) (token_set h : ℕ) where
  -- The token set of an index: a node whose paths end, in a store whose edges lead to nodes.
  abbrev pub IsTokenSet : Type 0
  IsTokenSet = IsClosed s × (token_set < s.next_id) × HasHeight h s token_set

expand-run :
    (fuel token_set : ℕ) (term : Text) (edit_distance : Option ℕ) (b root : ℕ) (s t u : Store)
    (words : List Text)
    → from_clause fuel term edit_distance s ≡ some (b, t)
    → intersect fuel token_set b t ≡ some (root, u)
    → to_array fuel root u ≡ some words
    → expand fuel token_set term edit_distance s ≡ some (words, u)
unfolding expand
expand-run fuel token_set term edit_distance b root s t u words made met listed =
    rw (expand, made) (rw met (rw listed refl))

-- The terms of an index for a term that is not empty and, it may be, an edit distance are found for
-- some amount of fuel, and then for more. They are the words of the token set, but for the empty
-- word, that fit the term as a pattern with wildcards or, where there is an edit distance, that are
-- the term after at most so many edits. The token set stays what it was.
pub expand-IsMeant :
    (s : Store) (token_set h : ℕ) (term : Text) (edit_distance : Option ℕ)
    → IsTokenSet s token_set h
    → term ≢ []
    → (k : ℕ) × (words : List Text) × (u : Store) × ((fuel : ℕ)
        → expand (suc k + fuel) token_set term edit_distance s ≡ some (words, u))
      × IsTokenSet u token_set h
      × ((w : Text) → Spells u token_set w ↔ Spells s token_set w)
      × ((w : Text)
          → IsIn w words ↔ ((w ≢ []) × Spells s token_set w × IsMeant term edit_distance w))
expand-IsMeant s token_set h term edit_distance (closed, lt, high) ne =
    let (k1, b, t, made, old, le, b_lt, closed1, meant) =
      from_clause-Builds s term edit_distance ne closed in
    let high1 = HasHeight-old s t closed old h token_set lt high in
    let token_lt : token_set < t.next_id = omega arith in
    let (k2, root, u, met, old2, le2, closed2, (h', high2), spells) =
      intersect-Spells t h token_set b closed1 token_lt b_lt high1 in
    let (k3, words, listed, in_words) = to_array-Spells u h' root high2 in
    (
      k1 + k2 + k3,
      words,
      u,
      λ fuel.
          let count1 : suc (k1 + k2 + k3) + fuel ≡ suc k1 + (k2 + k3 + fuel) = omega arith in
          let count2 : suc (k1 + k2 + k3) + fuel ≡ suc k2 + (k1 + k3 + fuel) = omega arith in
          let count3 : suc (k1 + k2 + k3) + fuel ≡ suc k3 + (k1 + k2 + fuel) = omega arith in
          expand-run (suc (k1 + k2 + k3) + fuel) token_set term edit_distance b root s t u words
            (ap (λ m. from_clause m term edit_distance s) count1 ∙ made (k2 + k3 + fuel))
            (ap (λ m. intersect m token_set b t) count2 ∙ met (k1 + k3 + fuel))
            (ap (λ m. to_array m root u) count3 ∙ listed (k1 + k2 + fuel)),
      (closed2, omega arith, HasHeight-old t u closed1 old2 h token_set token_lt high1),
      λ w.
          iff_trans (Spells-old t u closed1 old2 w token_set token_lt)
            (Spells-old s t closed old w token_set lt),
      λ w.
          let (forth, back) = in_words w in
          let (of_both, to_both) = spells w in
          let (same, same') = Spells-old s t closed old w token_set lt in
          let (to_meant, from_meant) = meant w in
          (
            λ is_in.
                let (some_word, spelled, accepted) = of_both (forth is_in) in
                (some_word, same spelled, to_meant accepted),
            λ (some_word, spelled, is_meant).
                back (to_both (some_word, same' spelled, from_meant is_meant)),
          ),
    )
