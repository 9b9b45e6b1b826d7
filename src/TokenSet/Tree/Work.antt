-- ===== src/TokenSet/Tree/Work.antt =====
-- Loops of docs/ui/lunr.js that build a tree from a stack of frames: what a frame adds to the words of
-- the tree, and how frames are worked off. `out` is the node of the tree to which a frame adds, and
-- `Gives` says which words, read from there.

use kubearchive.Prelude.{All, List, [], arith, inl, inr, ℕ, ◌++◌, ◌<◌, ◌↔◌, ◌∷◌, ◌≡◌, ◌≤◌, ◌⊎◌}
use kubearchive.Text.{Text}
use kubearchive.TokenSet.{Store}
use kubearchive.TokenSet.Tree.{Holds, IsTree}

module _ (base : Store) {Frame : Type 0} (out : Frame → ℕ) (Gives : Frame → Text → Type 0) where
  abbrev pub GivesAt : (ℕ → Text) → Frame → Text → Type 0
  GivesAt path f w = (v : Text) × (path (out f) ++ v ≡ w) × Gives f v

  -- The words that the frames still add.
  abbrev pub Pending : (ℕ → Text) → List Frame → Text → Type 0
  Pending path [] w = ⊥
  Pending path (f ∷ frames) w = GivesAt path f w ⊎ Pending path frames w

  abbrev pub Words : (ℕ → Text) → Store → List Frame → Text → Type 0
  Words path s frames w = Holds base path s w ⊎ Pending path frames w

  module _ (Ok : Frame → Type 0) where
    abbrev pub AreFrames : Store → List Frame → Type 0
    AreFrames s frames =
        All (λ (f : Frame). (base.next_id ≤ out f) × (out f < s.next_id) × Ok f) frames

    -- The tree has grown, and has with the stack the words of before and more.
    abbrev pub Progress :
        (ℕ → Text) → Store → List Frame → (Text → Type 0) → Store × List Frame → Type 0
    Progress path s frames More (t, frames') =
        (path' : ℕ → Text) × ((i : ℕ) → i < s.next_id → path' i ≡ path i)
        × IsTree base path' t
        × (s.next_id ≤ t.next_id)
        × AreFrames t frames'
        × ((w : Text) → Words path' t frames' w ↔ (Words path s frames w ⊎ More w))

    -- A node of the tree to which something is added.
    abbrev pub IsReady : (ℕ → Text) → Store → List Frame → ℕ → Text → Type 0
    IsReady path s frames node p =
        IsTree base path s
        × AreFrames s frames
        × (base.next_id ≤ node)
        × (node < s.next_id)
        × (path node ≡ p)

    pub Pending-path :
        (path path' : ℕ → Text) (s : Store) (frames : List Frame) (w : Text)
        → ((i : ℕ) → i < s.next_id → path' i ≡ path i)
        → AreFrames s frames
        → Pending path' frames w ↔ Pending path frames w
    Pending-path path path' s [] w same frames_lem = (λ p. p, λ p. p)
    Pending-path path path' s (f ∷ frames) w same ((lo, hi, good), rest) =
        let (forth, back) = Pending-path path path' s frames w same rest in
        let at : path' (out f) ≡ path (out f) = same (out f) hi in
        (
          λ p. elim p [
            | inl (v, e, given) ↦ inl (v, rw at at e, given)
            | inr later ↦ inr (forth later)
          ],
          λ p. elim p [
            | inl (v, e, given) ↦ inl (v, rw at e, given)
            | inr later ↦ inr (back later)
          ],
        )

    pub AreFrames-grow :
        (s t : Store) (frames : List Frame)
        → s.next_id ≤ t.next_id
        → AreFrames s frames
        → AreFrames t frames
    AreFrames-grow s t [] le all_frames = tt
    AreFrames-grow s t (f ∷ frames) le ((lo, hi, good), rest) =
        ((lo, omega arith, good), AreFrames-grow s t frames le rest)
