-- ===== src/TokenSet/Intersect/Words.antt =====
-- The words of the set that `intersect` of docs/ui/lunr.js returns.

use kubearchive.Prelude.{
  [], ap, arith, false, inl, inr, refl, some, subst, suc, ℕ, ◌+◌, ◌<◌, ◌↔◌, ◌∙◌, ◌∷◌, ◌≡◌, ◌≢◌, ◌≤◌,
}
use kubearchive.Text.{Text}
use kubearchive.TokenSet.{Store, new_node}
use kubearchive.TokenSet.Patterns.{Accepts}
use kubearchive.TokenSet.Spelled.{HasHeight, IsClosed, Spells}
use kubearchive.TokenSet.Intersect.{Frame, intersect, intersect_frames}
use kubearchive.TokenSet.Tree.Root.{root-IsTree, root-empty, tree-IsClosed}
use kubearchive.TokenSet.Tree.{root-Holds, tree-HasHeight}
use kubearchive.TokenSet.Intersect.Visit.{Gives}
use kubearchive.TokenSet.Intersect.Frames.{drain}

intersect-frames :
    (fuel a b : ℕ) (s t : Store)
    → intersect_frames fuel
        (new_node false s, record { q_node = b; output = s.next_id; node = a } ∷ [])
      ≡ some t
    → intersect fuel a b s ≡ some (s.next_id, t)
unfolding intersect
intersect-frames fuel a b s t run = rw (intersect, run) refl

-- The intersection of two sets whose nodes are known, of which `a` has only paths of fewer than `h`
-- edges, is returned for some amount of fuel, and then for more. The set that is returned has only
-- paths that end, as the nodes of the output are a tree. Its words are those of `a`, but for the
-- empty word, that `b` accepts, where an edge of `b` with a wildcard is followed by any character.
-- The nodes of before stay as they are, and edges still lead to nodes.
pub intersect-Spells :
    (s : Store) (h a b : ℕ)
    → IsClosed s
    → a < s.next_id
    → b < s.next_id
    → HasHeight h s a
    → (k : ℕ) × (root : ℕ) × (t : Store) × ((fuel : ℕ)
        → intersect (suc k + fuel) a b s ≡ some (root, t))
      × ((i : ℕ) → i < s.next_id → t.nodes i ≡ s.nodes i)
      × (s.next_id ≤ t.next_id)
      × IsClosed t
      × ((h' : ℕ) × HasHeight h' t root)
      × ((w : Text) → Spells t root w ↔ ((w ≢ []) × Spells s a w × Accepts s b w))
unfolding intersect_frames
intersect-Spells s h a b closed lt q_lt high =
    let start = new_node false s in
    let tree = root-IsTree s in
    let grown : s.next_id < start.next_id = tree.grown in
    let (k, path, t, run, same, tree', le, words) =
      drain s closed h (first ∷ []) [] (λ i. []) start tree
        ((omega arith, grown, (lt, q_lt, high)), tt) in
    (
      k,
      s.next_id,
      t,
      λ fuel.
          let count : suc k + fuel ≡ k + suc fuel = omega arith in
          intersect-frames (suc k + fuel) a b s t
            (ap (λ m. intersect_frames m (start, first ∷ [])) count ∙ run (suc fuel)),
      tree'.old,
      (let grown' : s.next_id < t.next_id = tree'.grown in omega arith),
      tree-IsClosed s path t tree' closed,
      (
        t.next_id,
        tree-HasHeight s path t tree' t.next_id s.next_id (omega arith) (omega arith) tree'.grown,
      ),
      λ w.
          let (holds, spells) = root-Holds s path t tree' w in
          let (forth, back) = words w in
          (
            λ spelled. elim (forth (holds spelled)) [
              | inl old ↦ absurd (root-empty s w old)
              | inr (inl (v, e, given)) ↦
                  subst (λ u. (u ≢ []) × Spells s a u × Accepts s b u) e (in_both v given)
              | inr (inr no_word) ↦ absurd no_word
            ],
            λ (some_word, in_a, in_b).
                spells (back (inr (inl (w, refl, from_word w some_word in_a in_b)))),
          ),
    )
  where
    first : Frame
    first = record { q_node = b; output = s.next_id; node = a }

    in_both : (v : Text) → Gives s first v → (v ≢ []) × Spells s a v × Accepts s b v
    in_both [] no_word = absurd no_word
    in_both (c ∷ v) (in_a, in_b) = (λ nil. cc, in_a, in_b)

    from_word : (w : Text) → w ≢ [] → Spells s a w → Accepts s b w → Gives s first w
    from_word [] ne in_a in_b = absurd (ne refl)
    from_word (c ∷ v) ne in_a in_b = (in_a, in_b)
