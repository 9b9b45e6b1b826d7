-- ===== src/TokenSet/Intersect.antt =====
-- `intersect` of lunr.TokenSet in docs/ui/lunr.js. The stack of frames is a list whose first frame is
-- the top; the loop over it runs on fuel.
pub mod Output
pub mod Visit
pub mod Loops
pub mod Frames
pub mod Words
use kubearchive.Prelude.{
  Bool, List, Option, [], false, if◌then◌else◌, none, some, suc, zero, ℕ, ◌&&◌, ◌==◌, ◌||◌, ◌∷◌,
}
use kubearchive.Query.{wildcard}
use kubearchive.TokenSet.{Store, get_edge, new_node, set_edge, set_final}

-- A frame of the stack of `intersect`.
pub record Frame : Type 0 where
  pub q_node : ℕ
  pub output : ℕ
  pub node : ℕ

-- The node behind the edge `n_edge` of the output, made if it is not there.
unfoldable pub output_node : ℕ → ℕ → Bool → Store → ℕ × Store
unfolding get_edge set_edge set_final new_node
output_node output n_edge final s = elim (get_edge n_edge (s.nodes output).edges) [
  | some next ↦ (next, set_final next ((s.nodes next).final || final) s)
  | none ↦ (s.next_id, set_edge output n_edge s.next_id (new_node final s))
]

-- The body of the two inner loops, at an edge of the query and an edge of the set.
unfoldable pub visit : Frame → ℕ × ℕ → ℕ × ℕ → Store × List Frame → Store × List Frame
unfolding output_node
visit frame (q_edge, q_node) (n_edge, node) (s, stack) =
    let final = (s.nodes node).final && (s.nodes q_node).final in
    let (next, t) = output_node frame.output n_edge final s in
    if n_edge == q_edge || q_edge == wildcard
    then (t, record { q_node = q_node; output = next; node = node } ∷ stack)
    else (s, stack)

unfoldable pub visit_n_edges :
    Frame → ℕ × ℕ → List (ℕ × ℕ) → Store × List Frame → Store × List Frame
unfolding visit
visit_n_edges frame q [] state = state
visit_n_edges frame q (n ∷ ns) state = visit_n_edges frame q ns (visit frame q n state)

unfoldable pub visit_q_edges :
    Frame → List (ℕ × ℕ) → List (ℕ × ℕ) → Store × List Frame → Store × List Frame
unfolding visit_n_edges
visit_q_edges frame [] ns state = state
visit_q_edges frame (q ∷ qs) ns state = visit_q_edges frame qs ns (visit_n_edges frame q ns state)

-- The loop over the stack; `none` means that the fuel ran out.
unfoldable pub intersect_frames : ℕ → Store × List Frame → Option Store
unfolding visit_q_edges
intersect_frames zero state = none
intersect_frames (suc fuel) (s, []) = some s
intersect_frames (suc fuel) (s, frame ∷ stack) =
    intersect_frames fuel
      (visit_q_edges frame (s.nodes frame.q_node).edges (s.nodes frame.node).edges (s, stack))

-- `a.intersect(b)`: the root of the output, and the store with its nodes.
unfoldable pub intersect : ℕ → ℕ → ℕ → Store → Option (ℕ × Store)
unfolding intersect_frames new_node
intersect fuel a b s =
    elim (intersect_frames fuel
      (new_node false s, record { q_node = b; output = s.next_id; node = a } ∷ [])) [
        | none ↦ none
        | some t ↦ some (s.next_id, t)
      ]
