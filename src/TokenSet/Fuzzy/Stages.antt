-- ===== src/TokenSet/Fuzzy/Stages.antt =====
-- What following an edge and the last deletion do to the tree that `fromFuzzyString` of
-- docs/ui/lunr.js builds.

use kubearchive.Prelude.{
  Bool, List, Option-cases, [], append-nil, arith, false, if◌then◌else◌, inl, inr, or-true, refl,
  subst, sym, true, ℕ, ◌++◌, ◌<◌, ◌||◌, ◌↔◌, ◌∙◌, ◌∷◌, ◌≡◌, ◌≤◌, ◌⊎◌,
}
use kubearchive.Text.{Text}
use kubearchive.TokenSet.{Store, get_edge, set_final}
use kubearchive.TokenSet.Tree.{Extends, Holds, IsTree}
use kubearchive.TokenSet.Tree.Edges.{get_edge-HasEdge}
use kubearchive.TokenSet.Tree.Final.{finished-Holds, finished-IsTree}
use kubearchive.TokenSet.Tree.Child.{longer-Extends}
use kubearchive.TokenSet.Tree.Work.{IsReady, Progress}
use kubearchive.TokenSet.Tree.Progress.{BehindEdge, Progress-map, Progress-push}
use kubearchive.TokenSet.Fuzzy.{Frame, edge_node, follow}
use kubearchive.TokenSet.Fuzzy.Edits.{Adds, Then}

-- The node to whose words a frame adds, and the labels that it adds.
abbrev pub out : Frame → ℕ
out f = f.node

abbrev pub Gives : Frame → Text → Type 0
Gives f v = Adds f.edits_remaining f.str v

-- Words that start with some labels.
abbrev pub At : Text → (Text → Type 0) → Text → Type 0
At p P w = (v : Text) × (p ++ v ≡ w) × P v

module _ (base : Store) where
  edge_node-Extends :
      (path : ℕ → Text) (s : Store) (node c : ℕ)
      → IsTree base path s
      → base.next_id ≤ node
      → node < s.next_id
      → Extends base path s node c false (edge_node node c s).0 (edge_node node c s).1
  unfolding edge_node
  edge_node-Extends path s node c tree lo hi =
      elim (Option-cases (get_edge c (s.nodes node).edges)) [
        | inl missing ↦
            rw (edge_node, missing) (longer-Extends base path s node c false tree lo hi missing)
        | inr (next, found) ↦
            let (after, known, labels) =
              tree.children node c next lo hi (get_edge-HasEdge c next _ found) in
            rw (edge_node, found)
              (
                path,
                λ i lt. refl,
                tree,
                omega arith,
                omega arith,
                known,
                labels,
                λ w. (
                  λ h. inl h,
                  λ h. elim h [
                    | inl held ↦ held
                    | inr (_, not_final) ↦ let both : false ≡ true = not_final in cc
                  ],
                ),
              )
      ]

  -- The node behind the edge becomes final.
  Extends-final :
      (path : ℕ → Text) (s : Store) (node c next : ℕ) (t : Store)
      → Extends base path s node c false next t
      → Extends base path s node c true next (set_final next true t)
  unfolding set_final
  Extends-final path s node c next t (path', same, tree, le, after, known, labels, words) =
      let lo : base.next_id ≤ next = omega arith in
      let is_final : ((t.nodes next).final || true) ≡ true = or-true (t.nodes next).final in
      let tree' = finished-IsTree base path' t next true tree lo known in
      (
        path',
        same,
        subst (λ b. IsTree base path' (set_final next b t)) is_final tree',
        le,
        after,
        known,
        labels,
        λ w.
            let (forth, back) = words w in
            let (split, join) =
              subst
                (λ b.
                  Holds base path' (set_final next b t) w
                  ↔ (Holds base path' t w ⊎ ((path' next ≡ w) × (true ≡ true))))
                is_final (finished-Holds base path' t next true tree lo known w) in
            (
              λ h. elim (split h) [
                | inl held ↦ elim (forth held) [
                  | inl old ↦ inl old
                  | inr (_, not_final) ↦ let both : false ≡ true = not_final in cc
                ]
                | inr (e, fin) ↦ inr (sym labels ∙ e, fin)
              ],
              λ h. elim h [
                | inl old ↦ join (inl (back (inl old)))
                | inr (e, fin) ↦ join (inr (labels ∙ e, fin))
              ],
            ),
      )

  Extends-if :
      (path : ℕ → Text) (s : Store) (node c next : ℕ) (t : Store) (final : Bool)
      → Extends base path s node c false next t
      → Extends base path s node c final next (if final then set_final next true t else t)
  Extends-if path s node c next t true h = Extends-final path s node c next t h
  Extends-if path s node c next t false h = h

  module _ (Ok : Frame → Type 0) where
    pub follow-Progress :
        (path : ℕ → Text) (s : Store) (frames : List Frame) (node : ℕ) (p : Text) (c : ℕ)
        (final : Bool) (edits : ℕ) (rest : Text)
        → IsReady base out Gives Ok path s frames node p
        → ((next : ℕ) → Ok (record { node = next; edits_remaining = edits; str = rest }))
        → Progress base out Gives Ok path s frames
            (At p (Then c final (Adds edits rest)))
            (follow node c final edits rest (s, frames))
    unfolding follow
    follow-Progress path s frames node p c final edits rest ready good =
        let (tree, all_frames, lo, hi, at) = ready in
        let (next, t) = edge_node node c s in
        let pushed : Frame = record { node = next; edits_remaining = edits; str = rest } in
        let u = if final then set_final next true t else t in
        Progress-map base out Gives Ok path s frames (BehindEdge base out Gives Ok p c final pushed)
          (At p (Then c final (Adds edits rest))) (u, pushed ∷ frames)
          (λ w. (λ (v, e, given). (c ∷ v, e, (refl, given)), behind w))
          (Progress-push base out Gives Ok path s frames node p c final next u pushed ready
            (Extends-if path s node c next t final (edge_node-Extends path s node c tree lo hi))
            refl (good next))
      where
        behind :
            (w : Text)
            → At p (Then c final (Adds edits rest)) w
            → (v : Text) × (p ++ c ∷ v ≡ w) × (((final ≡ true) × (v ≡ [])) ⊎ Adds edits rest v)
        behind w ([], e, no_label) = absurd no_label
        behind w (d ∷ v, e, (label, given)) = (v, rw (← label) at e, given)

    -- The last deletion adds the labels of the node itself.
    pub final-Progress :
        (path : ℕ → Text) (s : Store) (frames : List Frame) (node : ℕ) (p : Text)
        → IsReady base out Gives Ok path s frames node p
        → Progress base out Gives Ok path s frames
            (At p (λ v. v ≡ []))
            (set_final node true s, frames)
    unfolding set_final
    final-Progress path s frames node p (tree, all_frames, lo, hi, at) =
        let is_final : ((s.nodes node).final || true) ≡ true = or-true (s.nodes node).final in
        (
          path,
          λ i lt. refl,
          subst (λ b. IsTree base path (set_final node b s)) is_final
              (finished-IsTree base path s node true tree lo hi),
          omega arith,
          all_frames,
          λ w.
              let (split, join) =
                subst
                  (λ b.
                    Holds base path (set_final node b s) w
                    ↔ (Holds base path s w ⊎ ((path node ≡ w) × (true ≡ true))))
                  is_final (finished-Holds base path s node true tree lo hi w) in
              (
                λ h. elim h [
                  | inl held ↦ elim (split held) [
                    | inl old ↦ inl (inl old)
                    | inr (e, fin) ↦ inr ([], append-nil p ∙ sym at ∙ e, refl)
                  ]
                  | inr pending ↦ inl (inr pending)
                ],
                λ h. elim h [
                  | inl (inl old) ↦ inl (join (inl old))
                  | inl (inr pending) ↦ inr pending
                  | inr (v, e, nil) ↦ inl (join (inr (at ∙ sym (append-nil p) ∙ rw nil at e, refl)))
                ],
              ),
        )
