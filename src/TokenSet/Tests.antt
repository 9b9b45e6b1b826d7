-- ===== src/TokenSet/Tests.antt =====
-- Token sets of docs/ui/lunr.js at concrete strings.
use kubearchive.Prelude.{
  List, [], arith, false, inl, inr, none, refl, some, suc, true, zero, ℕ, ◌+◌, ◌<◌, ◌↔◌, ◌∷◌, ◌≡◌,
  ◌≢◌, ◌≤◌,
}
use kubearchive.Text.{Text, lit}
use kubearchive.Query.{wildcard}
use kubearchive.TokenSet.{
  Node, Store, add_chars, from_string, new_node, put_edge, put_node, set_edge, set_final,
}
use kubearchive.TokenSet.Patterns.{Accepts, Fits}
use kubearchive.TokenSet.Wildcards.{from_string-Fits}
use kubearchive.TokenSet.Spelled.{HasHeight, IsClosed, IsIn, Spells}
use kubearchive.TokenSet.Arrays.{to_array}
use kubearchive.TokenSet.Arrays.Words.{to_array-Spells}
use kubearchive.TokenSet.Intersect.{intersect}
use kubearchive.TokenSet.Intersect.Words.{intersect-Spells}
use kubearchive.TokenSet.Fuzzy.{from_fuzzy_string}
use kubearchive.TokenSet.Fuzzy.Edits.{Near}
use kubearchive.TokenSet.Fuzzy.Words.{from_fuzzy_string-Near}
use kubearchive.TokenSet.Expand.{IsMeant, IsTokenSet, expand, expand-IsMeant}

token_sets : Unit {0}
unfolding from_string add_chars set_final set_edge new_node put_node put_edge
token_sets = tt

abbrev empty_store : Store
empty_store = record { next_id = 1; nodes = λ i. record { final = false; edges = [] } }

-- The nodes of "p*": the root, and a final node with a loop.
wildcard_nodes :
    ((from_string (lit "p*") empty_store).1.nodes 1
      ≡ record { final = false; edges = (b'p', 2) ∷ [] })
    × ((from_string (lit "p*") empty_store).1.nodes 2
        ≡ record { final = true; edges = (wildcard, 2) ∷ [] })
unfolding token_sets
wildcard_nodes = (refl, refl)

from_string-Fits_example :
    Accepts
      (from_string (lit "p*d") empty_store).1
      (from_string (lit "p*d") empty_store).0
      (lit "pod")
    ↔ Fits (lit "p*d") (lit "pod")
from_string-Fits_example = from_string-Fits (lit "p*d") empty_store (lit "pod") (λ e. cc)

-- The words "a", "b", "ac" and "bc", in nodes 0, 1 and 2.
abbrev word_nodes : ℕ → Node
word_nodes zero = record { final = false; edges = (b'a', 1) ∷ (b'b', 1) ∷ [] }
word_nodes (suc zero) = record { final = true; edges = (b'c', 2) ∷ [] }
word_nodes (suc (suc i)) = record { final = true; edges = [] }

abbrev word_store : Store
word_store = record { next_id = 3; nodes = word_nodes }

word_store-IsClosed : IsClosed word_store
word_store-IsClosed zero c id below (inl (_, at)) = omega arith
word_store-IsClosed zero c id below (inr (inl (_, at))) = omega arith
word_store-IsClosed zero c id below (inr (inr no_edge)) = absurd no_edge
word_store-IsClosed (suc zero) c id below (inl (_, at)) = omega arith
word_store-IsClosed (suc zero) c id below (inr no_edge) = absurd no_edge
word_store-IsClosed (suc (suc i)) c id below no_edge = absurd no_edge

last_node-HasHeight : HasHeight 1 word_store 2
last_node-HasHeight c id no_edge = absurd no_edge

next_node-HasHeight : HasHeight 2 word_store 1
next_node-HasHeight c id (inl (_, at)) = rw at last_node-HasHeight
next_node-HasHeight c id (inr no_edge) = absurd no_edge

word_store-HasHeight : HasHeight 3 word_store 0
word_store-HasHeight c id (inl (_, at)) = rw at next_node-HasHeight
word_store-HasHeight c id (inr (inl (_, at))) = rw at next_node-HasHeight
word_store-HasHeight c id (inr (inr no_edge)) = absurd no_edge

to_array-Spells_example :
    (k : ℕ) × (words : List Text) × ((fuel : ℕ) → to_array (suc k + fuel) 0 word_store ≡ some words)
    × ((w : Text) → IsIn w words ↔ Spells word_store 0 w)
to_array-Spells_example = to_array-Spells word_store 3 0 word_store-HasHeight

intersect-Spells_example :
    (k : ℕ) × (root : ℕ) × (t : Store) × ((fuel : ℕ)
      → intersect (suc k + fuel) 0 1 word_store ≡ some (root, t))
    × ((i : ℕ) → i < 3 → t.nodes i ≡ word_nodes i)
    × (3 ≤ t.next_id)
    × IsClosed t
    × ((h' : ℕ) × HasHeight h' t root)
    × ((w : Text) → Spells t root w ↔ ((w ≢ []) × Spells word_store 0 w × Accepts word_store 1 w))
intersect-Spells_example =
    intersect-Spells word_store 3 0 1 word_store-IsClosed (omega arith) (omega arith)
      word_store-HasHeight

from_fuzzy_string-Near_example :
    (k : ℕ) × (root : ℕ) × (t : Store) × ((fuel : ℕ)
      → from_fuzzy_string (suc k + fuel) (lit "ac") 1 word_store ≡ some (root, t))
    × ((i : ℕ) → i < 3 → t.nodes i ≡ word_nodes i)
    × (3 ≤ t.next_id)
    × (root < t.next_id)
    × IsClosed t
    × ((w : Text) → Accepts t root w ↔ Near 1 (lit "ac") w)
from_fuzzy_string-Near_example =
    from_fuzzy_string-Near (lit "ac") 1 word_store (λ e. cc) word_store-IsClosed

expand-IsMeant_example :
    (k : ℕ) × (words : List Text) × (u : Store) × ((fuel : ℕ)
      → expand (suc k + fuel) 0 (lit "b*") none word_store ≡ some (words, u))
    × IsTokenSet u 0 3
    × ((w : Text) → Spells u 0 w ↔ Spells word_store 0 w)
    × ((w : Text) → IsIn w words ↔ ((w ≢ []) × Spells word_store 0 w × IsMeant (lit "b*") none w))
expand-IsMeant_example =
    expand-IsMeant word_store 0 3 (lit "b*") none
      (word_store-IsClosed, omega arith, word_store-HasHeight) (λ e. cc)
