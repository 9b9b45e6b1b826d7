-- ===== src/TokenSet/Fuzzy/Words.antt =====
-- The words of the set that `fromFuzzyString` of docs/ui/lunr.js returns.
use kubearchive.TokenSet.Fuzzy.Near.{Adds-Covers}
use kubearchive.TokenSet.Spelled.{IsClosed}
use kubearchive.TokenSet.Patterns.{Accepts}
use kubearchive.Prelude.{
  [], ap, arith, false, inl, inr, refl, some, subst, suc, ℕ, ◌+◌, ◌<◌, ◌↔◌, ◌∙◌, ◌∷◌, ◌≡◌, ◌≢◌, ◌≤◌,
}
use kubearchive.Text.{Text}
use kubearchive.TokenSet.{Store, new_node}
use kubearchive.TokenSet.Tree.Root.{root-IsTree, root-empty, tree-IsClosed}
use kubearchive.TokenSet.Tree.{root-Holds}
use kubearchive.TokenSet.Fuzzy.{from_fuzzy_string, fuzzy_frames}
use kubearchive.TokenSet.Fuzzy.Edits.{Accepts-Covers, Adds, Near}
use kubearchive.TokenSet.Fuzzy.Works.{frame, works}

fuzzy-frames :
    (fuel : ℕ) (str : Text) (k : ℕ) (s t : Store)
    → fuzzy_frames fuel (new_node false s, frame s.next_id k str ∷ []) ≡ some t
    → from_fuzzy_string fuel str k s ≡ some (s.next_id, t)
unfolding from_fuzzy_string
fuzzy-frames fuel str k s t run = rw (from_fuzzy_string, run) refl

-- A set for a string that is not empty and an edit distance is returned for some amount of fuel, and
-- then for more. It accepts the words that are the string after at most so many edits. The nodes of
-- before stay as they are, and edges lead to nodes if they did before.
pub from_fuzzy_string-Near :
    (str : Text) (edit_distance : ℕ) (s : Store)
    → str ≢ []
    → IsClosed s
    → (k : ℕ) × (root : ℕ) × (t : Store) × ((fuel : ℕ)
        → from_fuzzy_string (suc k + fuel) str edit_distance s ≡ some (root, t))
      × ((i : ℕ) → i < s.next_id → t.nodes i ≡ s.nodes i)
      × (s.next_id ≤ t.next_id)
      × (root < t.next_id)
      × IsClosed t
      × ((w : Text) → Accepts t root w ↔ Near edit_distance str w)
unfolding fuzzy_frames
from_fuzzy_string-Near str edit_distance s ne closed =
    let start = new_node false s in
    let tree = root-IsTree s in
    let grown : s.next_id < start.next_id = tree.grown in
    let (k, path, t, run, same, tree', le, words) =
      works s edit_distance str s.next_id (λ i. []) start [] tree (omega arith) grown in
    let grown' : s.next_id < t.next_id = tree'.grown in
    (
      k,
      s.next_id,
      t,
      λ fuel.
          let count : suc k + fuel ≡ k + suc fuel = omega arith in
          fuzzy-frames (suc k + fuel) str edit_distance s t (
            ap (λ m. fuzzy_frames m (start, frame s.next_id edit_distance str ∷ [])) count
            ∙ run (suc fuel)),
      tree'.old,
      omega arith,
      grown',
      tree-IsClosed s path t tree' closed,
      λ w.
          let (covered, accepts) = Accepts-Covers t w s.next_id in
          let (near, adds) = Adds-Covers edit_distance str w ne in
          (
            λ accepted.
                let (p, spelled, cov) = covered accepted in
                elim ((words p).0 ((root-Holds s path t tree' p).0 spelled)) [
                  | inl old ↦ absurd (root-empty s p old)
                  | inr (inl (v, e, added)) ↦ near (p, subst (Adds edit_distance str) e added, cov)
                  | inr (inr no_word) ↦ absurd no_word
                ],
            λ is_near.
                let (p, added, cov) = adds is_near in
                accepts (
                  p,
                  (root-Holds s path t tree' p).1 ((words p).1 (inr (inl (p, refl, added)))),
                  cov,
                ),
          ),
    )
