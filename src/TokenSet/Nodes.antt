-- ===== src/TokenSet/Nodes.antt =====
-- The nodes that `fromString` of docs/ui/lunr.js builds, and what they accept.
use kubearchive.Prelude.{
  ==_ne, Bool, Bool-cases, List, [], arith, false, inl, inr, refl, sym, true, ℕ, ◌++◌, ◌<◌, ◌==◌,
  ◌↔◌, ◌∙◌, ◌∷◌, ◌≡◌, ◌≢◌, ◌⊎◌,
}
use kubearchive.Text.{Text}
use kubearchive.Query.{wildcard}
use kubearchive.TokenSet.{
  Store, add_chars, is_last, new_node, put_edge, put_node, set_edge, set_final,
}
use kubearchive.TokenSet.Patterns.{Accepts, After, Loops}

abbrev pub loop_edges : Bool → ℕ → List (ℕ × ℕ)
loop_edges false node = []
loop_edges true node = (wildcard, node) ∷ []

-- The node at which the loop of `fromString` has arrived, with what is left of the string.
pub record IsOpen (s : Store) (node : ℕ) (loop : Bool) (rest : Text) : Type 0 where
  pub known : node < s.next_id
  pub edges_lem : (s.nodes node).edges ≡ loop_edges loop node
  pub final_lem : (s.nodes node).final ≡ is_last rest

-- Older nodes than the store's next, but for the current one, stay as they are.
pub add_chars-others :
    (rest : Text) (node : ℕ) (s : Store) (i : ℕ)
    → i < s.next_id
    → i ≢ node
    → (add_chars rest node s).nodes i ≡ s.nodes i
unfolding add_chars set_final set_edge new_node put_node
add_chars-others [] node s i lt ne = refl
add_chars-others (c ∷ rest) node s i lt ne = elim (Bool-cases (c == wildcard)) [
  | inl wild ↦
      let apart : (i == node) ≡ false = ==_ne i node ne in
      rw wild (add_chars-others rest node _ i lt ne ∙ rw apart refl)
  | inr tame ↦
      let apart : (i == node) ≡ false = ==_ne i node ne in
      let fresh : (i == s.next_id) ≡ false = ground arith in
      rw tame (
        add_chars-others rest s.next_id _ i (omega arith) (λ e. omega arith)
        ∙ rw (apart, fresh) refl)
]

-- The last node accepts what is left by its loop, or nothing more.
pub last-node :
    (s : Store) (node : ℕ) (loop : Bool)
    → (s.nodes node).edges ≡ loop_edges loop node
    → (s.nodes node).final ≡ true
    → (w : Text) → Accepts s node w ↔ Loops loop (λ v. v ≡ []) w
last-node s node false e f [] = (λ _. refl, λ _. f)
last-node s node true e f [] = (λ _. refl, λ _. f)
last-node s node false e f (x ∷ w) =
    (λ (c, id, edge, _, _). let none_there = rw e at edge in absurd none_there, λ nil. cc)
last-node s node true e f (x ∷ w) =
    let (forth, back) = last-node s node true e f w in
    (
      λ (c, id, edge, _, rest). elim (rw e at edge) [
        | inl (_, same) ↦ inr (forth (rw same at rest))
        | inr impossible ↦ absurd impossible
      ],
      λ h. elim h [
        | inl nil ↦ cc
        | inr later ↦ (wildcard, node, rw e (inl (refl, refl)), inr refl, back later)
      ],
    )

pub follows : (c d x : ℕ) → c ≢ wildcard → d ≡ c → (d ≡ x) ⊎ (d ≡ wildcard) → c ≡ x
follows c d x ne label (inl same) = sym label ∙ same
follows c d x ne label (inr wild) = absurd (ne (sym label ∙ wild))

-- A node with an edge for one more character.
pub inner-node :
    (s : Store) (node : ℕ) (loop : Bool) (c next : ℕ) (P : Text → Type 0)
    → c ≢ wildcard
    → (s.nodes node).edges ≡ loop_edges loop node ++ (c, next) ∷ []
    → (s.nodes node).final ≡ false
    → ((w : Text) → Accepts s next w ↔ P w)
    → (w : Text) → Accepts s node w ↔ Loops loop (After c P) w
inner-node s node false c next P ne e f h [] = (λ g. cc, λ g. absurd g)
inner-node s node true c next P ne e f h [] = (λ g. cc, λ g. absurd g)
inner-node s node false c next P ne e f h (x ∷ w) = (
  λ (d, id, edge, taken, rest). elim (rw e at edge) [
    | inl (label, same) ↦ (follows c d x ne label taken, (h w).0 (rw same at rest))
    | inr impossible ↦ absurd impossible
  ],
  λ (label, p). (c, next, rw e (inl (refl, refl)), inl label, (h w).1 p),
)
inner-node s node true c next P ne e f h (x ∷ w) =
    let (forth, back) = inner-node s node true c next P ne e f h w in
    (
      λ (d, id, edge, taken, rest). elim (rw e at edge) [
        | inl (_, same) ↦ inr (forth (rw same at rest))
        | inr (inl (label, same)) ↦ inl (follows c d x ne label taken, (h w).0 (rw same at rest))
        | inr (inr impossible) ↦ absurd impossible
      ],
      λ g. elim g [
        | inl (label, p) ↦ (c, next, rw e (inr (inl (refl, refl))), inl label, (h w).1 p)
        | inr later ↦ (wildcard, node, rw e (inl (refl, refl)), inr refl, back later)
      ],
    )

pub put_edge-loop :
    (loop : Bool) (node : ℕ) → put_edge wildcard node (loop_edges loop node) ≡ loop_edges true node
unfolding put_edge
put_edge-loop false node = refl
put_edge-loop true node = refl

pub put_edge-inner :
    (loop : Bool) (node c next : ℕ)
    → c ≢ wildcard
    → put_edge c next (loop_edges loop node) ≡ loop_edges loop node ++ (c, next) ∷ []
unfolding put_edge
put_edge-inner false node c next ne = refl
put_edge-inner true node c next ne =
    let other : (wildcard == c) ≡ false = ground arith in rw other refl
