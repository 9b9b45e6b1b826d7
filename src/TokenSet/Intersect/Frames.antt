-- ===== src/TokenSet/Intersect/Frames.antt =====
-- The loop over the stack in `intersect` of docs/ui/lunr.js works off its frames.

use kubearchive.TokenSet.Intersect.Loops.{AreEdges, visit_q_edges-Progress}
use kubearchive.TokenSet.Tree.Work.{AreFrames}
use kubearchive.TokenSet.Tree.Drains.{Drains, Drains-nil, Drains-step}
use kubearchive.TokenSet.Tree.{IsTree}
use kubearchive.TokenSet.Intersect.{Frame, intersect_frames, visit_q_edges}
use kubearchive.TokenSet.Spelled.{HasHeight, IsClosed}
use kubearchive.Query.{new}
use kubearchive.Prelude.{
  All, List, [], ap, inl, inr, refl, subst, suc, zero, ℕ, ◌++◌, ◌<◌, ◌↔◌, ◌∙◌, ◌∷◌, ◌≡◌,
}
use kubearchive.Text.{Text}
use kubearchive.TokenSet.{Node, Store}
use kubearchive.TokenSet.Patterns.{HasEdge}
use kubearchive.TokenSet.Intersect.Visit.{
  BehindAll, BehindQuery, Gives, InBoth, IsTaken, Ok, out, visit_q_edges-append,
}

module _ (base : Store) where
  BehindQuery-edges :
      (p : Text) (q_edge q_node : ℕ) (ns : List (ℕ × ℕ)) (w : Text)
      → BehindQuery base p (q_edge, q_node) ns w ↔ (
          (c : ℕ) × (id : ℕ) × (v : Text) × HasEdge c id ns
          × IsTaken c q_edge
          × (p ++ c ∷ v ≡ w)
          × InBoth base id q_node v)
  BehindQuery-edges p q_edge q_node [] w =
      (λ no_word. absurd no_word, λ (c, id, v, edge, taken, e, both). absurd edge)
  BehindQuery-edges p q_edge q_node ((n_edge, node) ∷ ns) w =
      let (forth, back) = BehindQuery-edges p q_edge q_node ns w in
      (
        λ h. elim h [
          | inl (taken, (v, e, both)) ↦ (n_edge, node, v, inl (refl, refl), taken, e, both)
          | inr later ↦
              let (c, id, v, edge, taken, e, both) = forth later in
              (c, id, v, inr edge, taken, e, both)
        ],
        λ (c, id, v, one_edge, taken, e, both). elim one_edge [
          | inl (label, at) ↦ inl (rw label at taken, (v, rw label at e, rw at at both))
          | inr edge ↦ inr (back (c, id, v, edge, taken, e, both))
        ],
      )

  BehindAll-edges :
      (p : Text) (qs ns : List (ℕ × ℕ)) (w : Text)
      → BehindAll base p qs ns w ↔ (
          (q_edge : ℕ) × (q_node : ℕ) × HasEdge q_edge q_node qs
          × BehindQuery base p (q_edge, q_node) ns w)
  BehindAll-edges p [] ns w = (λ no_word. absurd no_word, λ (q, i, edge, later). absurd edge)
  BehindAll-edges p ((q_edge, q_node) ∷ qs) ns w =
      let (forth, back) = BehindAll-edges p qs ns w in
      (
        λ h. elim h [
          | inl here ↦ (q_edge, q_node, inl (refl, refl), here)
          | inr later ↦ let (q, i, edge, behind) = forth later in (q, i, inr edge, behind)
        ],
        λ (q, i, one_edge, behind). elim one_edge [
          | inl (label, at) ↦ inl (
              subst (λ j. BehindQuery base p (q_edge, j) ns w) at
                (subst (λ r. BehindQuery base p (r, i) ns w) label behind))
          | inr edge ↦ inr (back (q, i, edge, behind))
        ],
      )

  -- The words behind the edges of two nodes are those of both, without the empty one.
  BehindAll-Gives :
      (p : Text) (q_node output node : ℕ) (w : Text)
      → BehindAll base p (base.nodes q_node).edges (base.nodes node).edges w ↔ (
          (v : Text) × (p ++ v ≡ w)
          × Gives base (record { q_node = q_node; output = output; node = node }) v)
  BehindAll-Gives p q_node output node w = (
    λ h.
        let (q, i, q_edge, behind) =
          (BehindAll-edges p (base.nodes q_node).edges (base.nodes node).edges w).0 h in
        let (c, id, v, edge, taken, e, (spelled, accepted)) =
          (BehindQuery-edges p q i (base.nodes node).edges w).0 behind in
        (c ∷ v, e, ((id, edge, spelled), (q, i, q_edge, taken, accepted))),
    λ (v, e, given). behind v e given,
  )
    where
      behind :
          (v : Text)
          → p ++ v ≡ w
          → Gives base (record { q_node = q_node; output = output; node = node }) v
          → BehindAll base p (base.nodes q_node).edges (base.nodes node).edges w
      behind [] e no_word = absurd no_word
      behind (c ∷ v) e ((id, edge, spelled), (q, i, q_edge, taken, accepted)) =
          (BehindAll-edges p (base.nodes q_node).edges (base.nodes node).edges w).1 (
            q,
            i,
            q_edge,
            (BehindQuery-edges p q i (base.nodes node).edges w).1
                (c, id, v, edge, taken, e, (spelled, accepted)),
          )

  module _ (closed : IsClosed base) where
    edges-below :
        (i : ℕ)
        → i < base.next_id
        → (es : List (ℕ × ℕ)) → ((c id : ℕ) → HasEdge c id es → HasEdge c id (base.nodes i).edges)
        → All (λ (e : ℕ × ℕ). e.1 < base.next_id) es
    edges-below i lt [] part = tt
    edges-below i lt ((c, id) ∷ es) part = (
      closed i c id lt (part c id (inl (refl, refl))),
      edges-below i lt es (λ d j e. part d j (inr e)),
    )

    edges-AreEdges :
        (h i : ℕ)
        → i < base.next_id
        → HasHeight (suc h) base i
        → (es : List (ℕ × ℕ)) → ((c id : ℕ) → HasEdge c id es → HasEdge c id (base.nodes i).edges)
        → AreEdges base h es
    edges-AreEdges h i lt high [] part = tt
    edges-AreEdges h i lt high ((c, id) ∷ es) part =
        let edge = part c id (inl (refl, refl)) in
        (
          (closed i c id lt edge, high c id edge),
          edges-AreEdges h i lt high es (λ d j e. part d j (inr e)),
        )

    top-frame :
        (m : ℕ) (path : ℕ → Text) (s : Store) (f : Frame) (others : List Frame)
        → IsTree base path s
        → f.node < base.next_id
        → f.q_node < base.next_id
        → intersect_frames (suc m) (s, f ∷ others)
          ≡ intersect_frames m
              (visit_q_edges f (base.nodes f.q_node).edges (base.nodes f.node).edges (s, others))
    unfolding intersect_frames
    top-frame m path s f others tree lt q_lt =
        ap
          (λ (n : Node).
            intersect_frames m (visit_q_edges f n.edges (s.nodes f.node).edges (s, others)))
          (tree.old f.q_node q_lt)
        ∙ ap
            (λ (n : Node).
              intersect_frames m (visit_q_edges f (base.nodes f.q_node).edges n.edges (s, others)))
            (tree.old f.node lt)

    pub drain :
        (h : ℕ) (frames others : List Frame) (path : ℕ → Text) (s : Store)
        → IsTree base path s
        → AreFrames base out (Gives base) (Ok base h) s frames
        → Drains base out (Gives base) intersect_frames path s frames others
    drain h [] others path s tree _ =
        Drains-nil base out (Gives base) intersect_frames path s others tree
    drain zero (f ∷ frames) others path s tree ((lo, hi, (lt, q_lt, high)), rest) = absurd high
    drain (suc h) (f ∷ frames) others path s tree ((lo, hi, (lt, q_lt, high)), rest) =
        let qs = (base.nodes f.q_node).edges in
        let ns = (base.nodes f.node).edges in
        let (t, new) = visit_q_edges f qs ns (s, []) in
        Drains-step base out (Gives base) intersect_frames (Ok base h) (Ok base (suc h)) path s f
          frames others t new (BehindAll base (path f.output) qs ns)
          (λ fuel.
            top-frame fuel path s f (frames ++ others) tree lt q_lt
            ∙ ap (intersect_frames fuel) (visit_q_edges-append f qs ns s [] (frames ++ others)))
          (visit_q_edges-Progress base h path s [] f (path f.output) qs ns (tree, tt, lo, hi, refl)
            (edges-below f.q_node q_lt qs (λ c id e. e))
            (edges-AreEdges h f.node lt high ns (λ c id e. e)))
          (λ w. BehindAll-Gives (path f.output) f.q_node f.output f.node w) rest
          (λ path1 tree1 all1. drain h new (frames ++ others) path1 t tree1 all1)
          (λ path2 u tree2 all2. drain (suc h) frames others path2 u tree2 all2)
