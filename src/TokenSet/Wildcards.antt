-- ===== src/TokenSet/Wildcards.antt =====
-- The words that a set made by `fromString` of docs/ui/lunr.js accepts in a query.
use kubearchive.Prelude.{
  ==_iff, ==_refl, Bool, Bool-cases, [], arith, false, inl, inr, refl, true, ℕ, ◌++◌, ◌<◌, ◌==◌,
  ◌↔◌, ◌∷◌, ◌≡◌, ◌≢◌,
}
use kubearchive.Text.{Text}
use kubearchive.Query.{wildcard}
use kubearchive.TokenSet.{
  Store, add_chars, from_string, is_last, new_node, put_node, set_edge, set_final,
}
use kubearchive.TokenSet.Patterns.{Accepts, Fits, Loops, Loops-tame, Loops-wild, iff_trans}
use kubearchive.TokenSet.Nodes.{
  IsOpen, add_chars-others, inner-node, last-node, loop_edges, put_edge-inner, put_edge-loop,
}

-- The store behind a wildcard, and behind any other character.
abbrev looped : ℕ → Text → ℕ → Store → Store
looped c rest node s = set_final node (is_last rest) (set_edge node c node s)

abbrev extended : ℕ → Text → ℕ → Store → Store
extended c rest node s = set_edge node c s.next_id (new_node (is_last rest) s)

looped-IsOpen :
    (c : ℕ) (rest : Text) (node : ℕ) (s : Store) (loop : Bool)
    → c ≡ wildcard
    → IsOpen s node loop (c ∷ rest)
    → IsOpen (looped c rest node s) node true rest
unfolding set_final set_edge put_node
looped-IsOpen c rest node s loop wild o = record {
  known = o.known;
  edges_lem = rw (==_refl node, wild, o.edges_lem) (put_edge-loop loop node);
  final_lem = rw (==_refl node) refl;
}

extended-known :
    (c : ℕ) (rest : Text) (node : ℕ) (s : Store)
    → node < s.next_id
    → node < (extended c rest node s).next_id
unfolding set_edge new_node
extended-known c rest node s lt = omega arith

extended-IsOpen :
    (c : ℕ) (rest : Text) (node : ℕ) (s : Store) (loop : Bool)
    → IsOpen s node loop (c ∷ rest)
    → IsOpen (extended c rest node s) s.next_id false rest
unfolding set_edge new_node put_node
extended-IsOpen c rest node s loop o =
    let lt : node < s.next_id = o.known in
    let apart : (s.next_id == node) ≡ false = ground arith in
    record {
      known = omega arith;
      edges_lem = rw (apart, ==_refl s.next_id) refl;
      final_lem = rw (apart, ==_refl s.next_id) refl;
    }

-- The node at which the new edge starts.
extended-node :
    (c : ℕ) (rest : Text) (node : ℕ) (s : Store) (loop : Bool)
    → c ≢ wildcard
    → IsOpen s node loop (c ∷ rest)
    → (((extended c rest node s).nodes node).edges ≡ loop_edges loop node ++ (c, s.next_id) ∷ [])
      × (((extended c rest node s).nodes node).final ≡ false)
unfolding set_edge new_node put_node
extended-node c rest node s loop ne o =
    let lt : node < s.next_id = o.known in
    let apart : (node == s.next_id) ≡ false = ground arith in
    (
      rw (==_refl node, apart, o.edges_lem) (put_edge-inner loop node c s.next_id ne),
      rw (==_refl node, apart) o.final_lem,
    )

new-IsOpen : (c : ℕ) (cs : Text) (s : Store) → IsOpen (new_node false s) s.next_id false (c ∷ cs)
unfolding new_node put_node
new-IsOpen c cs s = record {
  known = omega arith;
  edges_lem = rw (==_refl s.next_id) refl;
  final_lem = rw (==_refl s.next_id) refl;
}

Accepts-Fits :
    (rest : Text) (node : ℕ) (s : Store) (loop : Bool)
    → IsOpen s node loop rest
    → (w : Text) → Accepts (add_chars rest node s) node w ↔ Loops loop (Fits rest) w
unfolding add_chars
Accepts-Fits [] node s loop o w = last-node s node loop o.edges_lem o.final_lem w
Accepts-Fits (c ∷ rest) node s loop o w = elim (Bool-cases (c == wildcard)) [
  | inl wild ↦
      let e : c ≡ wildcard = (==_iff c wildcard).0 wild in
      let later =
        Accepts-Fits rest node (looped c rest node s) true (looped-IsOpen c rest node s loop e o)
          w in
      rw wild (iff_trans later (Loops-wild loop c rest w wild))
  | inr tame ↦
      let ne : c ≢ wildcard = λ e. cc in
      let lt : node < s.next_id = o.known in
      let t = extended c rest node s in
      let final_store = add_chars rest s.next_id t in
      let later = Accepts-Fits rest s.next_id t false (extended-IsOpen c rest node s loop o) in
      let same : final_store.nodes node ≡ t.nodes node =
        add_chars-others rest s.next_id t node (extended-known c rest node s lt)
          (λ e. omega arith) in
      let (edges, final) = extended-node c rest node s loop ne o in
      let here =
        inner-node final_store node loop c s.next_id (Fits rest) ne (rw same edges) (rw same final)
          later w in
      rw tame (iff_trans here (Loops-tame loop c rest w tame))
]

-- A set made from a string that is not empty accepts the words that fit the string, in which a
-- wildcard stands for any characters, also for none.
pub from_string-Fits :
    (str : Text) (s : Store) (w : Text)
    → str ≢ []
    → Accepts (from_string str s).1 (from_string str s).0 w ↔ Fits str w
unfolding from_string
from_string-Fits [] s w ne = absurd (ne refl)
from_string-Fits (c ∷ cs) s w ne =
    Accepts-Fits (c ∷ cs) s.next_id (new_node false s) false (new-IsOpen c cs s) w
