-- ===== src/TokenSet/Tree.antt =====
-- The nodes that `intersect` and `fromFuzzyString` of docs/ui/lunr.js make are a tree above the nodes
-- that were there. `path` gives for each of them the labels from the root.
pub mod Edges
pub mod Final
pub mod Child
pub mod Work
pub mod Progress
pub mod Drains
pub mod Root
use kubearchive.Prelude.{
  ==_iff, Bool, Bool-cases, [], ap, append-nil, append_assoc, arith, inl, inr, suc, sym, true, zero,
  ℕ, ◌++◌, ◌+◌, ◌<◌, ◌==◌, ◌↔◌, ◌∙◌, ◌∷◌, ◌≡◌, ◌≤◌, ◌⊎◌,
}
use kubearchive.Text.{Text}
use kubearchive.TokenSet.{Store}
use kubearchive.TokenSet.Patterns.{HasEdge}
use kubearchive.TokenSet.Spelled.{HasHeight, Spells}

pub record IsTree (base : Store) (path : ℕ → Text) (s : Store) : Type 0 where
  pub old : (i : ℕ) → i < base.next_id → s.nodes i ≡ base.nodes i
  pub grown : base.next_id < s.next_id
  pub root_path : path base.next_id ≡ []
  pub children :
      (o c id : ℕ)
      → base.next_id ≤ o
      → o < s.next_id
      → HasEdge c id (s.nodes o).edges
      → (o < id) × (id < s.next_id) × (path id ≡ path o ++ c ∷ [])
  pub parents :
      (id : ℕ)
      → base.next_id < id
      → id < s.next_id
      → (o : ℕ) × (c : ℕ) × (base.next_id ≤ o)
        × (o < id)
        × HasEdge c id (s.nodes o).edges
        × (path id ≡ path o ++ c ∷ [])

-- A final node of the tree has the word as its path.
abbrev pub Holds : Store → (ℕ → Text) → Store → Text → Type 0
Holds base path s w =
    (id : ℕ) × (base.next_id ≤ id) × (id < s.next_id) × (path id ≡ w) × ((s.nodes id).final ≡ true)

module _ (base : Store) (path : ℕ → Text) (s : Store) (tree : IsTree base path s) where
  Spells-Holds :
      (w : Text) (o : ℕ)
      → base.next_id ≤ o
      → o < s.next_id
      → Spells s o w
      → Holds base path s (path o ++ w)
  Spells-Holds [] o lo hi final = (o, lo, hi, sym (append-nil (path o)), final)
  Spells-Holds (c ∷ w) o lo hi (id, edge, spelled) =
      let (above, below, labels) = tree.children o c id lo hi edge in
      let (i, lo', hi', e, final) = Spells-Holds w id (omega arith) below spelled in
      (i, lo', hi', e ∙ ap (λ t. t ++ w) labels ∙ append_assoc (path o) (c ∷ []) w, final)

  path-Spells :
      (bound id : ℕ) (v : Text)
      → id < bound
      → base.next_id ≤ id
      → id < s.next_id
      → Spells s id v
      → Spells s base.next_id (path id ++ v)
  path-Spells zero id v lt lo hi spelled = absurd (omega arith)
  path-Spells (suc bound) id v lt lo hi spelled = elim (Bool-cases (id == base.next_id)) [
    | inl root ↦
        let e : id ≡ base.next_id = (==_iff id base.next_id).0 root in
        rw (e, tree.root_path) (rw e at spelled)
    | inr inner ↦
        let (o, c, lo', lt', edge, labels) = tree.parents id (ground arith) hi in
        rw (labels, append_assoc (path o) (c ∷ []) v)
          (path-Spells bound o (c ∷ v) (omega arith) lo' (omega arith) (id, edge, spelled))
  ]

  -- The words of the root are the paths of final nodes.
  pub root-Holds : (w : Text) → Spells s base.next_id w ↔ Holds base path s w
  root-Holds w = (
    λ spelled.
        let h = Spells-Holds w base.next_id (omega arith) tree.grown spelled in
        rw tree.root_path at h,
    λ (id, lo, hi, e, final).
        let h = path-Spells (suc id) id [] (omega arith) lo hi final in
        let word : path id ++ [] ≡ w = append-nil (path id) ∙ e in rw word at h,
  )

  pub tree-HasHeight :
      (k o : ℕ) → s.next_id ≤ o + k → base.next_id ≤ o → o < s.next_id → HasHeight k s o
  tree-HasHeight zero o far lo hi = absurd (omega arith)
  tree-HasHeight (suc k) o far lo hi = λ c id edge.
      let (above, below, labels) = tree.children o c id lo hi edge in
      tree-HasHeight k id (omega arith) (omega arith) below

-- The tree has a node `next` behind the edge `n` of `output`, and one more word if it is final.
abbrev pub Extends : Store → (ℕ → Text) → Store → ℕ → ℕ → Bool → ℕ → Store → Type 0
Extends base path s output n final next t =
    (path' : ℕ → Text) × ((i : ℕ) → i < s.next_id → path' i ≡ path i)
    × IsTree base path' t
    × (s.next_id ≤ t.next_id)
    × (base.next_id < next)
    × (next < t.next_id)
    × (path' next ≡ path output ++ n ∷ [])
    × ((w : Text)
        → Holds base path' t w
          ↔ (Holds base path s w ⊎ ((path output ++ n ∷ [] ≡ w) × (final ≡ true))))
