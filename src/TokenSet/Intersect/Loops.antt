-- ===== src/TokenSet/Intersect/Loops.antt =====
-- The inner loops of `intersect` in docs/ui/lunr.js add the words behind the pairs of edges.

use kubearchive.Prelude.{
  ==_iff, ==_refl, All, Bool, Bool-cases, List, [], arith, false, inl, inr, or-true, refl, subst,
  sym, true, ℕ, ◌&&◌, ◌<◌, ◌==◌, ◌||◌, ◌↔◌, ◌∙◌, ◌∷◌, ◌≡◌, ◌⊎◌,
}
use kubearchive.Text.{Text}
use kubearchive.Query.{wildcard}
use kubearchive.TokenSet.{Store}
use kubearchive.TokenSet.Spelled.{HasHeight}
use kubearchive.TokenSet.Intersect.{Frame, output_node, visit, visit_n_edges, visit_q_edges}
use kubearchive.TokenSet.Tree.Work.{IsReady, Progress}
use kubearchive.TokenSet.Tree.Progress.{
  BehindEdge, Progress-map, Progress-none, Progress-push, Progress-then,
}
use kubearchive.TokenSet.Intersect.Output.{output_node-Extends}
use kubearchive.TokenSet.Intersect.Visit.{
  BehindAll, BehindPair, BehindQuery, Gives, InBoth, IsTaken, Ok, out,
}

test-IsTaken :
    (n_edge q_edge : ℕ) → ((n_edge == q_edge || q_edge == wildcard) ≡ true) ↔ IsTaken n_edge q_edge
test-IsTaken n_edge q_edge = (
  λ h. elim (Bool-cases (n_edge == q_edge)) [
    | inl same ↦ inl (sym ((==_iff n_edge q_edge).0 same))
    | inr other ↦ inr ((==_iff q_edge wildcard).0 (rw other at h))
  ],
  λ h. elim h [
    | inl same ↦ rw (same, ==_refl n_edge) refl
    | inr wild ↦ rw (wild, ==_refl wildcard) (or-true (n_edge == wildcard))
  ],
)

and_true : (a b : Bool) → ((a && b) ≡ true) ↔ ((a ≡ true) × (b ≡ true))
and_true a b = ground arith

module _ (base : Store) (h : ℕ) where
  -- A pair of nodes gives the empty word if both are final.
  BehindEdge-BehindPair :
      (p : Text) (n_edge q_edge : ℕ) (f : Frame) (w : Text)
      → IsTaken n_edge q_edge
      → BehindEdge base out
          (Gives base)
          (Ok base h)
          p
          n_edge
          ((base.nodes f.node).final && (base.nodes f.q_node).final)
          f
          w
        ↔ BehindPair base p (q_edge, f.q_node) (n_edge, f.node) w
  BehindEdge-BehindPair p n_edge q_edge f w taken =
      let (split, join) = and_true (base.nodes f.node).final (base.nodes f.q_node).final in
      (
        λ (v, e, given). elim given [
          | inl (fin, nil) ↦
              (taken, (v, e, subst (InBoth base f.node f.q_node) (sym nil) (split fin)))
          | inr deeper ↦ (taken, (v, e, nonempty v deeper))
        ],
        λ (_, (v, e, both)). (v, e, by_cases v both),
      )
    where
      nonempty : (v : Text) → Gives base f v → InBoth base f.node f.q_node v
      nonempty [] no_word = absurd no_word
      nonempty (c ∷ v) both = both

      by_cases :
          (v : Text)
          → InBoth base f.node f.q_node v
          → ((((base.nodes f.node).final && (base.nodes f.q_node).final) ≡ true) × (v ≡ []))
            ⊎ Gives base f v
      by_cases [] both =
          inl ((and_true (base.nodes f.node).final (base.nodes f.q_node).final).1 both, refl)
      by_cases (c ∷ v) both = inr both

  visit-Progress :
      (path : ℕ → Text) (s : Store) (frames : List Frame) (f : Frame) (p : Text)
      (q_edge q_node n_edge node : ℕ)
      → IsReady base out (Gives base) (Ok base h) path s frames f.output p
      → q_node < base.next_id
      → node < base.next_id
      → HasHeight h base node
      → Progress base out
          (Gives base)
          (Ok base h)
          path
          s
          frames
          (BehindPair base p (q_edge, q_node) (n_edge, node))
          (visit f (q_edge, q_node) (n_edge, node) (s, frames))
  unfolding visit
  visit-Progress path s frames f p q_edge q_node n_edge node ready q_lt lt high =
      let (tree, all_frames, lo, hi, at) = ready in
      elim (Bool-cases (n_edge == q_edge || q_edge == wildcard)) [
        | inr skipped ↦ rw skipped (
            Progress-none base out (Gives base) (Ok base h) path s frames _ tree all_frames
              (λ w (taken, _).
                let yes_taken = (test-IsTaken n_edge q_edge).1 taken in
                let both : true ≡ false = sym yes_taken ∙ skipped in cc))
        | inl taken ↦
            let final = (s.nodes node).final && (s.nodes q_node).final in
            let same_final : final ≡ ((base.nodes node).final && (base.nodes q_node).final) =
              rw (tree.old node lt, tree.old q_node q_lt) refl in
            let (next, t) = output_node f.output n_edge final s in
            let pushed : Frame = record { q_node = q_node; output = next; node = node } in
            rw taken (
              Progress-map base out (Gives base) (Ok base h) path s frames _ _ (t, pushed ∷ frames)
                (λ w. rw same_final (
                  BehindEdge-BehindPair p n_edge q_edge pushed w
                    ((test-IsTaken n_edge q_edge).0 taken)))
                (Progress-push base out (Gives base) (Ok base h) path s frames f.output p n_edge
                  final next t pushed ready
                  (output_node-Extends base path s f.output n_edge final tree lo hi) refl
                  (lt, q_lt, high)))
      ]

  abbrev pub AreEdges : List (ℕ × ℕ) → Type 0
  AreEdges ns = All (λ (e : ℕ × ℕ). (e.1 < base.next_id) × HasHeight h base e.1) ns

  visit_n_edges-Progress :
      (path : ℕ → Text) (s : Store) (frames : List Frame) (f : Frame) (p : Text) (q_edge q_node : ℕ)
      (ns : List (ℕ × ℕ))
      → IsReady base out (Gives base) (Ok base h) path s frames f.output p
      → q_node < base.next_id
      → AreEdges ns
      → Progress base out
          (Gives base)
          (Ok base h)
          path
          s
          frames
          (BehindQuery base p (q_edge, q_node) ns)
          (visit_n_edges f (q_edge, q_node) ns (s, frames))
  unfolding visit_n_edges
  visit_n_edges-Progress path s frames f p q_edge q_node [] (tree, all_frames, lo, hi, at) q_lt _ =
      Progress-none base out (Gives base) (Ok base h) path s frames _ tree all_frames
        (λ w no_word. no_word)
  visit_n_edges-Progress path s frames f p q_edge q_node ((n_edge, node) ∷ ns) ready q_lt
        ((lt, high), rest) =
      let (t, frames1) = visit f (q_edge, q_node) (n_edge, node) (s, frames) in
      Progress-then base out (Gives base) (Ok base h) path s frames f.output p _ _ t frames1
        (visit_n_edges f (q_edge, q_node) ns (t, frames1)) ready
        (visit-Progress path s frames f p q_edge q_node n_edge node ready q_lt lt high)
        (λ path1 ready1.
          visit_n_edges-Progress path1 t frames1 f p q_edge q_node ns ready1 q_lt rest)

  pub visit_q_edges-Progress :
      (path : ℕ → Text) (s : Store) (frames : List Frame) (f : Frame) (p : Text)
      (qs ns : List (ℕ × ℕ))
      → IsReady base out (Gives base) (Ok base h) path s frames f.output p
      → All (λ (e : ℕ × ℕ). e.1 < base.next_id) qs
      → AreEdges ns
      → Progress base out
          (Gives base)
          (Ok base h)
          path
          s
          frames
          (BehindAll base p qs ns)
          (visit_q_edges f qs ns (s, frames))
  unfolding visit_q_edges
  visit_q_edges-Progress path s frames f p [] ns (tree, all_frames, lo, hi, at) _ _ =
      Progress-none base out (Gives base) (Ok base h) path s frames _ tree all_frames
        (λ w no_word. no_word)
  visit_q_edges-Progress path s frames f p ((q_edge, q_node) ∷ qs) ns ready (q_lt, rest) edges =
      let (t, frames1) = visit_n_edges f (q_edge, q_node) ns (s, frames) in
      Progress-then base out (Gives base) (Ok base h) path s frames f.output p _ _ t frames1
        (visit_q_edges f qs ns (t, frames1)) ready
        (visit_n_edges-Progress path s frames f p q_edge q_node ns ready q_lt edges)
        (λ path1 ready1. visit_q_edges-Progress path1 t frames1 f p qs ns ready1 rest edges)
