-- ===== src/TokenSet/Tree/Root.antt =====
-- The tree of docs/ui/lunr.js that is a new root, and trees above closed sets.
use kubearchive.Prelude.{
  ==_refl, [], arith, false, inl, inr, lt_or_eq_or_gt, refl, true, ℕ, ◌<◌, ◌==◌, ◌≡◌,
}
use kubearchive.Text.{Text}
use kubearchive.TokenSet.{Store, new_node, put_node}
use kubearchive.TokenSet.Spelled.{IsClosed}
use kubearchive.TokenSet.Tree.{Holds, IsTree}

pub root-IsTree : (s : Store) → IsTree s (λ i. []) (new_node false s)
unfolding new_node put_node
root-IsTree s = record {
  old = λ i lt. let known : (i == s.next_id) ≡ false = ground arith in rw known refl;
  grown = omega arith;
  root_path = refl;
  children = λ o c id lo hi e.
      let at : o ≡ s.next_id = omega arith in
      let none_there : ⊥ = rw (at, ==_refl s.next_id) at e in absurd none_there;
  parents = λ id lo hi. absurd (omega arith);
}

pub root-empty : (s : Store) (w : Text) → ¬ Holds s (λ i. []) (new_node false s) w
unfolding new_node put_node
root-empty s w (id, lo, hi, e, f) =
    let at : id ≡ s.next_id = omega arith in
    let not_final : false ≡ true = rw (at, ==_refl s.next_id) at f in cc

pub tree-IsClosed :
    (base : Store) (path : ℕ → Text) (s : Store) → IsTree base path s → IsClosed base → IsClosed s
tree-IsClosed base path s tree closed node c id lt edge = elim (lt_or_eq_or_gt node base.next_id) [
  | inl (inl below) ↦
      let grown : base.next_id < s.next_id = tree.grown in
      let within : id < base.next_id = closed node c id below (rw (tree.old node below) at edge) in
      omega arith
  | inl (inr root) ↦ (tree.children node c id (omega arith) lt edge).1
  | inr above ↦ (tree.children node c id (omega arith) lt edge).1
]
