-- ===== src/TokenSet/Tree/Final.antt =====
-- A node of a tree of docs/ui/lunr.js that becomes final.
use kubearchive.Prelude.{
  ==_iff, ==_refl, Bool, Bool-cases, arith, false, if◌then◌else◌, inl, inr, or-true, refl, sym,
  true, ℕ, ◌<◌, ◌==◌, ◌||◌, ◌↔◌, ◌∙◌, ◌≡◌, ◌≤◌, ◌⊎◌,
}
use kubearchive.Text.{Text}
use kubearchive.TokenSet.{Store, put_node, set_final}
use kubearchive.TokenSet.Tree.{Holds, IsTree}
use kubearchive.TokenSet.Tree.Edges.{set_final-edges, set_final-final}

module _ (base : Store) (path : ℕ → Text) (s : Store) (next : ℕ) (final : Bool)
    (tree : IsTree base path s) (above : base.next_id ≤ next) (known : next < s.next_id) where
  abbrev pub finished : Store
  finished = set_final next ((s.nodes next).final || final) s

  pub finished-IsTree : IsTree base path finished
  unfolding set_final
  finished-IsTree =
      let edges = set_final-edges next ((s.nodes next).final || final) s in
      record {
        old = λ i lt.
            let apart : (i == next) ≡ false = ground arith in
            unfold put_node in rw apart (tree.old i lt);
        grown = tree.grown;
        root_path = tree.root_path;
        children = λ o c id lo hi e. tree.children o c id lo hi (rw (edges o) at e);
        parents = λ id lo hi.
            let (o, c, lo', lt, e, p) = tree.parents id lo hi in (o, c, lo', lt, rw (edges o) e, p);
      }

  finished-fewer :
      (w : Text)
      → Holds base path finished w
      → Holds base path s w ⊎ ((path next ≡ w) × (final ≡ true))
  unfolding set_final
  finished-fewer w (id, lo, hi, e, f) =
      let finals = set_final-final next ((s.nodes next).final || final) s id in
      elim (Bool-cases (id == next)) [
        | inl same ↦
            let at : id ≡ next = (==_iff id next).0 same in
            let f' : ((s.nodes next).final || final) ≡ true = rw same at (sym finals ∙ f) in
            elim (Bool-cases (s.nodes next).final) [
              | inl was ↦ inl (next, omega arith, known, rw at at e, was)
              | inr was_not ↦ inr (rw at at e, rw was_not at f')
            ]
        | inr other ↦ inl (id, lo, hi, e, rw other at (sym finals ∙ f))
      ]

  finished-more :
      (w : Text)
      → Holds base path s w ⊎ ((path next ≡ w) × (final ≡ true))
      → Holds base path finished w
  unfolding set_final
  finished-more w (inl (id, lo, hi, e, f)) =
      let finals = set_final-final next ((s.nodes next).final || final) s id in
      let f' =
        elim (Bool-cases (id == next))
          as (λ _.
            (if id == next then (s.nodes next).final || final else (s.nodes id).final) ≡ true) [
              | inl same ↦
                  let at : id ≡ next = (==_iff id next).0 same in
                  let was : (s.nodes next).final ≡ true = rw at at f in rw (same, was) refl
              | inr other ↦ rw other f
            ] in
      (id, lo, hi, e, finals ∙ f')
  finished-more w (inr (e, f)) =
      let finals = set_final-final next ((s.nodes next).final || final) s next in
      (next, omega arith, known, e, finals ∙ rw (==_refl next, f) (or-true (s.nodes next).final))

  -- The path of the node is one more word, if it is final now.
  pub finished-Holds :
      (w : Text)
      → Holds base path finished w ↔ (Holds base path s w ⊎ ((path next ≡ w) × (final ≡ true)))
  finished-Holds w = (finished-fewer w, finished-more w)
