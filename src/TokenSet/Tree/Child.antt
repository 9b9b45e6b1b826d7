-- ===== src/TokenSet/Tree/Child.antt =====
-- A new node behind a new edge in a tree of docs/ui/lunr.js.
use kubearchive.Prelude.{
  ==_iff, ==_refl, Bool, Bool-cases, [], ap, arith, false, if◌then◌else◌, inl, inr, none, refl, sym,
  true, ℕ, ◌++◌, ◌+◌, ◌<◌, ◌==◌, ◌∙◌, ◌∷◌, ◌≡◌, ◌≢◌, ◌≤◌, ◌⊎◌,
}
use kubearchive.Text.{Text}
use kubearchive.TokenSet.{Store, get_edge, new_node, put_edge, put_node, set_edge}
use kubearchive.TokenSet.Patterns.{HasEdge}
use kubearchive.TokenSet.Tree.{Extends, Holds, IsTree}
use kubearchive.TokenSet.Tree.Edges.{
  put_edge-HasEdge, with_child, with_child-edges, with_child-final,
}

module _ (base : Store) (path : ℕ → Text) (s : Store) (output n : ℕ) (final : Bool)
    (tree : IsTree base path s) (above : base.next_id ≤ output) (below : output < s.next_id) where
  module _ (missing : get_edge n (s.nodes output).edges ≡ none) where
    abbrev longer : Store
    longer = with_child output n final s

    abbrev path_longer : ℕ → Text
    path_longer i = if i == s.next_id then path output ++ n ∷ [] else path i

    known-path : (i : ℕ) → i < s.next_id → path_longer i ≡ path i
    known-path i lt = let apart : (i == s.next_id) ≡ false = ground arith in rw apart refl

    new-path : path_longer s.next_id ≡ path output ++ n ∷ []
    new-path = rw (==_refl s.next_id) refl

    longer-next : longer.next_id ≡ s.next_id + 1
    unfolding set_edge new_node
    longer-next = refl

    longer-old : (i : ℕ) → i < base.next_id → longer.nodes i ≡ base.nodes i
    unfolding set_edge new_node put_node
    longer-old i lt =
        let grown : base.next_id < s.next_id = tree.grown in
        let apart : (i == output) ≡ false = ground arith in
        let apart' : (i == s.next_id) ≡ false = ground arith in rw (apart, apart') (tree.old i lt)

    -- The edges are the old ones and the new one.
    longer-edges :
        (o c id : ℕ)
        → o < longer.next_id
        → HasEdge c id (longer.nodes o).edges
        → ((o < s.next_id) × HasEdge c id (s.nodes o).edges)
          ⊎ ((o ≡ output) × (c ≡ n) × (id ≡ s.next_id))
    longer-edges o c id hi e =
        let next = longer-next in
        let e' = rw (with_child-edges output n final s o below) at e in
        elim (Bool-cases (o == output)) [
          | inl same ↦
              let at : o ≡ output = (==_iff o output).0 same in
              elim ((put_edge-HasEdge n s.next_id c id _ missing).0 (rw same at e')) [
                | inl was ↦ inl (omega arith, rw at was)
                | inr (label, new) ↦ inr (at, label, new)
              ]
          | inr other ↦ elim (Bool-cases (o == s.next_id)) [
            | inl fresh ↦ absurd (rw (other, fresh) at e')
            | inr known ↦
                let ne : o ≢ s.next_id = λ e. let both = rw (e, ==_refl s.next_id) at known in cc in
                inl (omega arith, rw (other, known) at e')
          ]
        ]

    old-edges :
        (o c id : ℕ)
        → o < s.next_id
        → HasEdge c id (s.nodes o).edges
        → HasEdge c id (longer.nodes o).edges
    old-edges o c id lt e =
        let known : (o == s.next_id) ≡ false = ground arith in
        rw (with_child-edges output n final s o below)
          (elim (Bool-cases (o == output))
            as (λ _. HasEdge c id (
              if o == output
              then put_edge n s.next_id (s.nodes output).edges
              else if o == s.next_id
              then []
              else (s.nodes o).edges)) [
                | inl same ↦
                    let at : o ≡ output = (==_iff o output).0 same in
                    rw same ((put_edge-HasEdge n s.next_id c id _ missing).1 (inl (rw at at e)))
                | inr other ↦ rw (other, known) e
              ])

    new-edge : HasEdge n s.next_id (longer.nodes output).edges
    new-edge =
        rw (with_child-edges output n final s output below, ==_refl output)
          ((put_edge-HasEdge n s.next_id n s.next_id _ missing).1 (inr (refl, refl)))

    longer-IsTree : IsTree base path_longer longer
    longer-IsTree = record {
      old = longer-old;
      grown = let next = longer-next in let g = tree.grown in omega arith;
      root_path = known-path base.next_id tree.grown ∙ tree.root_path;
      children = λ o c id lo hi e.
          let next = longer-next in
          elim (longer-edges o c id hi e) [
            | inl (lt, was) ↦
                let (after, known, labels) = tree.children o c id lo lt was in
                (
                  after,
                  omega arith,
                  known-path id known ∙ labels ∙ ap (λ t. t ++ c ∷ []) (sym (known-path o lt)),
                )
            | inr (at, label, new) ↦ (
              omega arith,
              omega arith,
              rw (at, label, new)
                  (new-path ∙ ap (λ t. t ++ n ∷ []) (sym (known-path output below))),
            )
          ];
      parents = λ id lo hi.
          let next = longer-next in
          elim (Bool-cases (id == s.next_id)) [
            | inl same ↦
                let at : id ≡ s.next_id = (==_iff id s.next_id).0 same in
                (
                  output,
                  n,
                  above,
                  omega arith,
                  rw at new-edge,
                  rw at (new-path ∙ ap (λ t. t ++ n ∷ []) (sym (known-path output below))),
                )
            | inr other ↦
                let lt : id < s.next_id = ground arith in
                let (o, c, lo', lt', e, labels) = tree.parents id lo lt in
                (
                  o,
                  c,
                  lo',
                  lt',
                  old-edges o c id (omega arith) e,
                  known-path id lt
                      ∙ labels
                      ∙ ap (λ t. t ++ c ∷ []) (sym (known-path o (omega arith))),
                )
          ];
    }

    longer-fewer :
        (w : Text)
        → Holds base path_longer longer w
        → Holds base path s w ⊎ ((path output ++ n ∷ [] ≡ w) × (final ≡ true))
    longer-fewer w (id, lo, hi, e, f) =
        let next = longer-next in
        let f' = sym (with_child-final output n final s id below) ∙ f in
        elim (Bool-cases (id == s.next_id)) [
          | inl same ↦
              let at : id ≡ s.next_id = (==_iff id s.next_id).0 same in
              inr (sym new-path ∙ rw at at e, rw same at f')
          | inr other ↦
              let lt : id < s.next_id = ground arith in
              inl (id, lo, lt, sym (known-path id lt) ∙ e, rw other at f')
        ]

    longer-more :
        (w : Text)
        → Holds base path s w ⊎ ((path output ++ n ∷ [] ≡ w) × (final ≡ true))
        → Holds base path_longer longer w
    longer-more w (inl (id, lo, lt, e, f)) =
        let next = longer-next in
        let other : (id == s.next_id) ≡ false = ground arith in
        (
          id,
          lo,
          omega arith,
          known-path id lt ∙ e,
          with_child-final output n final s id below ∙ rw other f,
        )
    longer-more w (inr (e, f)) =
        let next = longer-next in
        (
          s.next_id,
          omega arith,
          omega arith,
          new-path ∙ e,
          with_child-final output n final s s.next_id below ∙ rw (==_refl s.next_id) f,
        )

    pub longer-Extends : Extends base path s output n final s.next_id longer
    longer-Extends =
        let next = longer-next in
        (
          path_longer,
          known-path,
          longer-IsTree,
          omega arith,
          tree.grown,
          omega arith,
          new-path,
          λ w. (longer-fewer w, longer-more w),
        )
