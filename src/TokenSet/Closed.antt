-- ===== src/TokenSet/Closed.antt =====
-- Stores of docs/ui/lunr.js in which edges lead to nodes, and what stays when nodes are added.
use kubearchive.Prelude.{
  ==_iff, Bool, Bool-cases, List, [], arith, false, inl, inr, refl, suc, zero, ℕ, ◌+◌, ◌<◌, ◌==◌,
  ◌↔◌, ◌∙◌, ◌∷◌, ◌≡◌, ◌≤◌, ◌⊎◌,
}
use kubearchive.Text.{Text}
use kubearchive.Query.{new, wildcard}
use kubearchive.TokenSet.{
  Store, add_chars, from_string, is_last, new_node, put_edge, put_node, set_edge, set_final,
}
use kubearchive.TokenSet.Patterns.{HasEdge}
use kubearchive.TokenSet.Spelled.{HasHeight, IsClosed, Spells}
use kubearchive.TokenSet.Nodes.{add_chars-others}

put_edge-parts :
    (n next c id : ℕ) (es : List (ℕ × ℕ))
    → HasEdge c id (put_edge n next es)
    → HasEdge c id es ⊎ (id ≡ next)
unfolding put_edge
put_edge-parts n next c id [] (inl (_, at)) = inr at
put_edge-parts n next c id [] (inr no_edge) = absurd no_edge
put_edge-parts n next c id ((d, i) ∷ es) h = elim (Bool-cases (d == n)) [
  | inl same ↦ elim (rw same at h) [ inl (_, at) ↦ inr at | inr later ↦ inl (inr later) ]
  | inr other ↦ elim (rw other at h) [
    | inl here ↦ inl (inl here)
    | inr later ↦ elim (put_edge-parts n next c id es later) [ inl a ↦ inl (inr a) | inr b ↦ inr b ]
  ]
]

set_edge-IsClosed :
    (node c next : ℕ) (s : Store)
    → IsClosed s
    → node < s.next_id
    → next < s.next_id
    → IsClosed (set_edge node c next s)
unfolding set_edge put_node
set_edge-IsClosed node c next s closed known lt i d id below edge = elim (Bool-cases (i == node)) [
  | inl same ↦ elim (put_edge-parts c next d id (s.nodes node).edges (rw same at edge)) [
    | inl was ↦ closed node d id known was
    | inr new ↦ omega arith
  ]
  | inr other ↦ closed i d id below (rw other at edge)
]

set_final-IsClosed : (node : ℕ) (b : Bool) (s : Store) → IsClosed s → IsClosed (set_final node b s)
unfolding set_final put_node
set_final-IsClosed node b s closed i d id below edge = elim (Bool-cases (i == node)) [
  | inl same ↦
      let at : i ≡ node = (==_iff i node).0 same in closed i d id below (rw at (rw same at edge))
  | inr other ↦ closed i d id below (rw other at edge)
]

pub new_node-IsClosed : (b : Bool) (s : Store) → IsClosed s → IsClosed (new_node b s)
unfolding new_node put_node
new_node-IsClosed b s closed i d id below edge = elim (Bool-cases (i == s.next_id)) [
  | inl same ↦ absurd (rw same at edge)
  | inr other ↦
      let lt : i < s.next_id = ground arith in
      let within : id < s.next_id = closed i d id lt (rw other at edge) in omega arith
]

pub add_chars-IsClosed :
    (rest : Text) (node : ℕ) (s : Store)
    → IsClosed s
    → node < s.next_id
    → IsClosed (add_chars rest node s) × (s.next_id ≤ (add_chars rest node s).next_id)
unfolding add_chars
add_chars-IsClosed [] node s closed lt = (closed, omega arith)
add_chars-IsClosed (c ∷ rest) node s closed lt = elim (Bool-cases (c == wildcard)) [
  | inl wild ↦
      let t = set_final node (is_last rest) (set_edge node c node s) in
      let closed' =
        set_final-IsClosed node (is_last rest) _ (set_edge-IsClosed node c node s closed lt lt) in
      let same_id : t.next_id ≡ s.next_id = unfold set_final set_edge in refl in
      let (later, le) = add_chars-IsClosed rest node t closed' (omega arith) in
      rw wild (later, omega arith)
  | inr tame ↦
      let u = new_node (is_last rest) s in
      let grown : u.next_id ≡ s.next_id + 1 = unfold new_node in refl in
      let t = set_edge node c s.next_id u in
      let same_id : t.next_id ≡ u.next_id = unfold set_edge in refl in
      let closed' =
        set_edge-IsClosed node c s.next_id u (new_node-IsClosed (is_last rest) s closed)
          (omega arith) (omega arith) in
      let (later, le) = add_chars-IsClosed rest s.next_id t closed' (omega arith) in
      rw tame (later, omega arith)
]

-- A set made from a string is above the nodes that were there.
pub from_string-above :
    (str : Text) (s : Store)
    → IsClosed s
    → IsClosed (from_string str s).1
      × ((i : ℕ) → i < s.next_id → (from_string str s).1.nodes i ≡ s.nodes i)
      × (s.next_id ≤ (from_string str s).1.next_id)
      × ((from_string str s).0 < (from_string str s).1.next_id)
unfolding from_string
from_string-above str s closed =
    let u = new_node false s in
    let grown : u.next_id ≡ s.next_id + 1 = unfold new_node in refl in
    let (closed', le) =
      add_chars-IsClosed str s.next_id u (new_node-IsClosed false s closed) (omega arith) in
    (
      closed',
      λ i lt.
          let known : (i == s.next_id) ≡ false = ground arith in
          add_chars-others str s.next_id u i (omega arith) (λ e. omega arith)
          ∙ (unfold new_node put_node in rw known refl),
      omega arith,
      omega arith,
    )

module _ (s t : Store) (closed : IsClosed s)
    (old : (i : ℕ) → i < s.next_id → t.nodes i ≡ s.nodes i) where
  pub Spells-old : (w : Text) (node : ℕ) → node < s.next_id → Spells t node w ↔ Spells s node w
  Spells-old [] node lt = rw (old node lt) (λ h. h, λ h. h)
  Spells-old (c ∷ w) node lt = (
    λ (id, edge, spelled).
        let edge' = rw (old node lt) at edge in
        (id, edge', (Spells-old w id (closed node c id lt edge')).0 spelled),
    λ (id, edge, spelled).
        (id, rw (old node lt) edge, (Spells-old w id (closed node c id lt edge)).1 spelled),
  )

  pub HasHeight-old : (h node : ℕ) → node < s.next_id → HasHeight h s node → HasHeight h t node
  HasHeight-old zero node lt high = absurd high
  HasHeight-old (suc h) node lt high = λ c id edge.
      let edge' = rw (old node lt) at edge in
      HasHeight-old h id (closed node c id lt edge') (high c id edge')
