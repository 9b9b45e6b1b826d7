-- ===== src/TokenSet/Tree/Progress.antt =====
-- The steps by which a frame of a loop of docs/ui/lunr.js makes a tree grow.
use kubearchive.Prelude.{
  Bool, List, [], ap, append_assoc, arith, inl, inr, refl, sym, true, ℕ, ◌++◌, ◌<◌, ◌↔◌, ◌∙◌, ◌∷◌,
  ◌≡◌, ◌≤◌, ◌⊎◌,
}
use kubearchive.Text.{Text}
use kubearchive.TokenSet.{Store}
use kubearchive.TokenSet.Tree.{Extends, IsTree}
use kubearchive.TokenSet.Tree.Work.{
  AreFrames, AreFrames-grow, GivesAt, IsReady, Pending-path, Progress,
}

module _ (base : Store) {Frame : Type 0} (out : Frame → ℕ) (Gives : Frame → Text → Type 0)
    (Ok : Frame → Type 0) where
  pub Progress-none :
      (path : ℕ → Text) (s : Store) (frames : List Frame) (More : Text → Type 0)
      → IsTree base path s
      → AreFrames base out Gives Ok s frames
      → ((w : Text) → More w → ⊥)
      → Progress base out Gives Ok path s frames More (s, frames)
  Progress-none path s frames More tree all_frames none_more = (
    path,
    λ i lt. refl,
    tree,
    omega arith,
    all_frames,
    λ w. (λ a. inl a, λ a. elim a [ inl old ↦ old | inr more ↦ absurd (none_more w more) ]),
  )

  pub Progress-then :
      (path : ℕ → Text) (s : Store) (frames : List Frame) (node : ℕ) (p : Text)
      (More Later : Text → Type 0) (t : Store) (frames1 : List Frame) (r : Store × List Frame)
      → IsReady base out Gives Ok path s frames node p
      → Progress base out Gives Ok path s frames More (t, frames1)
      → ((path1 : ℕ → Text)
          → IsReady base out Gives Ok path1 t frames1 node p
          → Progress base out Gives Ok path1 t frames1 Later r)
      → Progress base out Gives Ok path s frames (λ w. More w ⊎ Later w) r
  Progress-then path s frames node p More Later t frames1 (u, frames2)
        (tree, all_frames, lo, hi, at) (path1, same1, tree1, le1, all1, words1) later =
      let (path2, same2, tree2, le2, all2, words2) =
        later path1 (tree1, all1, lo, omega arith, same1 node hi ∙ at) in
      (
        path2,
        λ i lt. same2 i (omega arith) ∙ same1 i lt,
        tree2,
        omega arith,
        all2,
        λ w.
            let (forth1, back1) = words1 w in
            let (forth2, back2) = words2 w in
            (
              λ a. elim (forth2 a) [
                | inl b ↦ elim (forth1 b) [ inl old ↦ inl old | inr more ↦ inr (inl more) ]
                | inr c ↦ inr (inr c)
              ],
              λ a. back2 (elim a [
                | inl old ↦ inl (back1 (inl old))
                | inr (inl more) ↦ inl (back1 (inr more))
                | inr (inr c) ↦ inr c
              ]),
            ),
      )

  pub Progress-map :
      (path : ℕ → Text) (s : Store) (frames : List Frame) (More Same : Text → Type 0)
      (r : Store × List Frame)
      → ((w : Text) → More w ↔ Same w)
      → Progress base out Gives Ok path s frames More r
      → Progress base out Gives Ok path s frames Same r
  Progress-map path s frames More Same (t, frames') more (path', same, tree, le, all', words) = (
    path',
    same,
    tree,
    le,
    all',
    λ w.
        let (forth, back) = words w in
        let (to, from) = more w in
        (
          λ a. elim (forth a) [ inl old ↦ inl old | inr b ↦ inr (to b) ],
          λ a. back (elim a [ inl old ↦ inl old | inr b ↦ inr (from b) ]),
        ),
  )

  -- A frame for a node that is in the tree.
  pub Progress-again :
      (path : ℕ → Text) (s : Store) (frames : List Frame) (f : Frame)
      → IsTree base path s
      → AreFrames base out Gives Ok s frames
      → base.next_id ≤ out f
      → out f < s.next_id
      → Ok f
      → Progress base out Gives Ok path s frames (GivesAt base out Gives path f) (s, f ∷ frames)
  Progress-again path s frames f tree all_frames lo hi good = (
    path,
    λ i lt. refl,
    tree,
    omega arith,
    ((lo, hi, good), all_frames),
    λ w. (
      λ a. elim a [
        | inl old ↦ inl (inl old)
        | inr (inl here) ↦ inr here
        | inr (inr pending) ↦ inl (inr pending)
      ],
      λ a. elim a [
        | inl (inl old) ↦ inl old
        | inl (inr pending) ↦ inr (inr pending)
        | inr here ↦ inr (inl here)
      ],
    ),
  )

  -- The words behind a new edge: the edge itself, if the node behind it is final, and what the frame
  -- for that node gives.
  abbrev pub BehindEdge : Text → ℕ → Bool → Frame → Text → Type 0
  BehindEdge p n final f w =
      (v : Text) × (p ++ n ∷ v ≡ w) × (((final ≡ true) × (v ≡ [])) ⊎ Gives f v)

  pub Progress-push :
      (path : ℕ → Text) (s : Store) (frames : List Frame) (node : ℕ) (p : Text) (n : ℕ)
      (final : Bool) (next : ℕ) (t : Store) (f : Frame)
      → IsReady base out Gives Ok path s frames node p
      → Extends base path s node n final next t
      → out f ≡ next
      → Ok f
      → Progress base out Gives Ok path s frames (BehindEdge p n final f) (t, f ∷ frames)
  Progress-push path s frames node p n final next t f (tree, all_frames, lo, hi, at)
        (path', same, tree', le, after, known, labels, words) is_next good =
      let all' = AreFrames-grow base out Gives Ok s t frames le all_frames in
      let out_path : path' (out f) ≡ p ++ n ∷ [] =
        ap path' is_next ∙ labels ∙ ap (λ q. q ++ n ∷ []) at in
      let lo' : base.next_id ≤ out f = rw is_next (omega arith) in
      let hi' : out f < t.next_id = rw is_next known in
      (
        path',
        same,
        tree',
        le,
        ((lo', hi', good), all'),
        λ w.
            let (forth, back) = words w in
            let (old_path, new_path) =
              Pending-path base out Gives Ok path path' s frames w same all_frames in
            (
              λ a. elim a [
                | inl held ↦ elim (forth held) [
                  | inl old ↦ inl (inl old)
                  | inr (e, fin) ↦ inr ([], rw at at e, inl (fin, refl))
                ]
                | inr (inl (v, e, given)) ↦
                    inr (v, sym (append_assoc p (n ∷ []) v) ∙ rw out_path at e, inr given)
                | inr (inr pending) ↦ inl (inr (old_path pending))
              ],
              λ a. elim a [
                | inl (inl old) ↦ inl (back (inl old))
                | inl (inr pending) ↦ inr (inr (new_path pending))
                | inr (v, e, inl (fin, nil)) ↦ inl (back (inr (rw (at, ← nil) e, fin)))
                | inr (v, e, inr given) ↦
                    inr (inl (v, rw out_path (append_assoc p (n ∷ []) v ∙ e), given))
              ],
            ),
      )
