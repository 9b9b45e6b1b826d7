-- ===== src/TokenSet/Intersect/Output.antt =====
-- The node of the output behind an edge, which `intersect` of docs/ui/lunr.js finds or makes.

use kubearchive.Prelude.{Bool, Option-cases, arith, inl, inr, refl, ℕ, ◌<◌, ◌||◌, ◌≤◌}
use kubearchive.Text.{Text}
use kubearchive.TokenSet.{Store, get_edge, set_final}
use kubearchive.TokenSet.Patterns.{HasEdge}
use kubearchive.TokenSet.Tree.{Extends, IsTree}
use kubearchive.TokenSet.Tree.Edges.{get_edge-HasEdge}
use kubearchive.TokenSet.Tree.Final.{finished-Holds, finished-IsTree}
use kubearchive.TokenSet.Tree.Child.{longer-Extends}
use kubearchive.TokenSet.Intersect.{output_node}

module _ (base : Store) (path : ℕ → Text) (s : Store) (output n : ℕ) (final : Bool)
    (tree : IsTree base path s) (above : base.next_id ≤ output) (below : output < s.next_id) where
  finished-Extends :
      (next : ℕ)
      → HasEdge n next (s.nodes output).edges
      → Extends base path s output n final next (set_final next ((s.nodes next).final || final) s)
  unfolding set_final
  finished-Extends next edge =
      let (after, known, labels) = tree.children output n next above below edge in
      let lo : base.next_id ≤ next = omega arith in
      (
        path,
        λ i lt. refl,
        finished-IsTree base path s next final tree lo known,
        omega arith,
        omega arith,
        known,
        labels,
        λ w. rw labels at (finished-Holds base path s next final tree lo known w),
      )

  -- `output_node` adds one word at most.
  pub output_node-Extends :
      Extends base path s output n final
        (output_node output n final s).0
        (output_node output n final s).1
  unfolding output_node
  output_node-Extends = elim (Option-cases (get_edge n (s.nodes output).edges)) [
    | inl missing ↦
        rw (output_node, missing)
          (longer-Extends base path s output n final tree above below missing)
    | inr (next, found) ↦
        rw (output_node, found) (finished-Extends next (get_edge-HasEdge n next _ found))
  ]
