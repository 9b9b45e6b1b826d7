-- ===== src/TokenSet.antt =====
-- lunr.TokenSet of docs/ui/lunr.js: automata whose nodes are objects that refer to one another, here
-- numbers in a store. The number of a node is its `id`.
pub mod Patterns
pub mod Nodes
pub mod Wildcards
pub mod Spelled
pub mod Arrays
pub mod Tree
pub mod Intersect
pub mod Fuzzy
pub mod Closed
pub mod Expand
mod Tests
use kubearchive.Prelude.{
  Bool, List, Option, [], false, if◌then◌else◌, none, some, true, ℕ, ◌+◌, ◌==◌, ◌∷◌,
}
use kubearchive.Text.{Text}
use kubearchive.Query.{wildcard}

-- A node: whether a word ends there, and the edges by their characters.
pub record Node : Type 0 where
  pub final : Bool
  pub edges : List (ℕ × ℕ)

-- The nodes, and `lunr.TokenSet._nextId`.
pub record Store : Type 0 where
  pub next_id : ℕ
  pub nodes : ℕ → Node

unfoldable pub put_node : ℕ → Node → (ℕ → Node) → ℕ → Node
put_node id node nodes i = if i == id then node else nodes i

-- `edges[char] = node`.
unfoldable pub put_edge : ℕ → ℕ → List (ℕ × ℕ) → List (ℕ × ℕ)
put_edge c id [] = (c, id) ∷ []
put_edge c id ((d, i) ∷ es) = if d == c then (d, id) ∷ es else (d, i) ∷ put_edge c id es

-- `edges[char]`, of a character that may have no edge.
unfoldable pub get_edge : ℕ → List (ℕ × ℕ) → Option ℕ
get_edge c [] = none
get_edge c ((d, i) ∷ es) = if d == c then some i else get_edge c es

-- A new node with its `final`.
unfoldable pub new_node : Bool → Store → Store
unfolding put_node
new_node final s = record {
  next_id = s.next_id + 1;
  nodes = put_node s.next_id (record { final = final; edges = [] }) s.nodes;
}

unfoldable pub set_edge : ℕ → ℕ → ℕ → Store → Store
unfolding put_node put_edge
set_edge node c id s = record s {
  nodes =
      put_node node (record (s.nodes node) { edges = put_edge c id (s.nodes node).edges }) s.nodes;
}

unfoldable pub set_final : ℕ → Bool → Store → Store
unfolding put_node
set_final node final s = record s {
  nodes = put_node node (record (s.nodes node) { final = final }) s.nodes;
}

abbrev pub is_last : Text → Bool
is_last [] = true
is_last (c ∷ cs) = false

-- The loop of `fromString` over what is left of the string, at `node`.
unfoldable pub add_chars : Text → ℕ → Store → Store
unfolding set_final set_edge new_node
add_chars [] node s = s
add_chars (c ∷ rest) node s =
    let next = s.next_id in
    let looped = add_chars rest node (set_final node (is_last rest) (set_edge node c node s)) in
    let extended = add_chars rest next (set_edge node c next (new_node (is_last rest) s)) in
    if c == wildcard then looped else extended

-- The root, and the store with the nodes of the string.
unfoldable pub from_string : Text → Store → ℕ × Store
unfolding add_chars
from_string str s = (s.next_id, add_chars str s.next_id (new_node false s))
