-- ===== src/TokenSet/Fuzzy/Works.antt =====
-- The frames of `fromFuzzyString` in docs/ui/lunr.js are worked off, by the edits and the string left.

use kubearchive.Prelude.{
  List, [], ap, false, inl, inr, refl, suc, true, zero, ℕ, ◌++◌, ◌<◌, ◌∷◌, ◌≡◌, ◌≤◌,
}
use kubearchive.Text.{Text}
use kubearchive.Query.{new, wildcard}
use kubearchive.TokenSet.{Store, is_last, set_final}
use kubearchive.TokenSet.Tree.{IsTree}
use kubearchive.TokenSet.Tree.Work.{AreFrames, IsReady, Progress}
use kubearchive.TokenSet.Tree.Progress.{Progress-again, Progress-map, Progress-none, Progress-then}
use kubearchive.TokenSet.Tree.Drains.{Drains, Drains-cons, Drains-nil, Drains-step}
use kubearchive.TokenSet.Fuzzy.{
  Frame, State, deletion, edit, follow, fuzzy_frames, insertion, last_deletion, no_edit,
  substitution, transposition,
}
use kubearchive.TokenSet.Fuzzy.Edits.{Adds, Then}
use kubearchive.TokenSet.Fuzzy.Stages.{At, Gives, final-Progress, follow-Progress, out}

abbrev pub frame : ℕ → ℕ → Text → Frame
frame node edits str = record { node = node; edits_remaining = edits; str = str }

edit-append :
    (node edits : ℕ) (str : Text) (s : Store) (others : List Frame)
    → edit node edits str (s, others)
      ≡ ((edit node edits str (s, [])).0, (edit node edits str (s, [])).1 ++ others)
unfolding edit no_edit insertion deletion last_deletion substitution transposition follow
edit-append node zero [] s others = refl
edit-append node zero (c ∷ str) s others = refl
edit-append node (suc edits) [] s others = refl
edit-append node (suc edits) (c ∷ []) s others = refl
edit-append node (suc edits) (a ∷ b ∷ str) s others = refl

module _ (base : Store) where
  -- A frame for the string and the edits, at any node of the tree, is worked off.
  abbrev pub Works : Frame → Type 0
  Works f =
      (path : ℕ → Text) (s : Store) (others : List Frame)
      → IsTree base path s
      → base.next_id ≤ f.node
      → f.node < s.next_id
      → Drains base out Gives fuzzy_frames path s (f ∷ []) others

  all_work :
      (frames others : List Frame) (path : ℕ → Text) (s : Store)
      → IsTree base path s
      → AreFrames base out Gives Works s frames
      → Drains base out Gives fuzzy_frames path s frames others
  all_work [] others path s tree _ = Drains-nil base out Gives fuzzy_frames path s others tree
  all_work (f ∷ frames) others path s tree ((lo, hi, works), rest) =
      Drains-cons base out Gives fuzzy_frames Works path s f frames others rest
        (works path s (frames ++ others) tree lo hi)
        (λ path1 t tree1 all1. all_work frames others path1 t tree1 all1)

  -- A frame is worked off if what its turn pushes is, and adds what the frame gives.
  edit-Works :
      (node edits : ℕ) (str : Text)
      → ((path : ℕ → Text) (s : Store)
          → IsTree base path s
          → base.next_id ≤ node
          → node < s.next_id
          → Progress base out Gives Works path s []
              (At (path node) (Adds edits str))
              (edit node edits str (s, [])))
      → Works (frame node edits str)
  unfolding fuzzy_frames
  edit-Works node edits str progress path s others tree lo hi =
      let (t, new) = edit node edits str (s, []) in
      Drains-step base out Gives fuzzy_frames Works Works path s (frame node edits str) [] others t
        new (At (path node) (Adds edits str))
        (λ fuel. ap (fuzzy_frames fuel) (edit-append node edits str s others))
        (progress path s tree lo hi) (λ w. (λ h. h, λ h. h)) tt
        (λ path1 tree1 all1. all_work new others path1 t tree1 all1)
        (λ path2 u tree2 _. Drains-nil base out Gives fuzzy_frames path2 u others tree2)

  -- Two and three edits after another, at one node.
  abbrev Ready : (ℕ → Text) → Store → List Frame → ℕ → Text → Type 0
  Ready path s frames node p = IsReady base out Gives Works path s frames node p

  abbrev Grows : (ℕ → Text) → Store → List Frame → (Text → Type 0) → State → Type 0
  Grows path s frames More r = Progress base out Gives Works path s frames More r

  one_left-Progress :
      (k c node : ℕ)
      → ((next : ℕ) → Works (frame next (suc k) []))
      → ((next : ℕ) → Works (frame next k (c ∷ [])))
      → ((next : ℕ) → Works (frame next k []))
      → (path : ℕ → Text) (s : Store) → Ready path s [] node (path node)
      → Grows path s []
          (At (path node) (Adds (suc k) (c ∷ [])))
          (edit node (suc k) (c ∷ []) (s, []))
  unfolding edit no_edit insertion deletion last_deletion substitution transposition
  one_left-Progress k c node keeps inserts substitutes path s ready =
      let p = path node in
      let (s1, f1) = follow node c true (suc k) [] (s, []) in
      let (s2, f2) = follow node wildcard false k (c ∷ []) (s1, f1) in
      let s3 = set_final node true s2 in
      let r = follow node wildcard true k [] (s3, f2) in
      Progress-map base out Gives Works path s [] _ _ r
        (λ w. (
          λ h. elim h [
            | inl (v, e, a) ↦ (v, e, inl a)
            | inr (inl (v, e, a)) ↦ (v, e, inr (inl a))
            | inr (inr (inl (v, e, a))) ↦ (v, e, inr (inr (inl a)))
            | inr (inr (inr (v, e, a))) ↦ (v, e, inr (inr (inr a)))
          ],
          λ (v, e, h). elim h [
            | inl a ↦ inl (v, e, a)
            | inr (inl a) ↦ inr (inl (v, e, a))
            | inr (inr (inl a)) ↦ inr (inr (inl (v, e, a)))
            | inr (inr (inr a)) ↦ inr (inr (inr (v, e, a)))
          ],
        ))
        (Progress-then base out Gives Works path s [] node p (At p (Then c true (Adds (suc k) [])))
          _ s1 f1 r ready
          (follow-Progress base Works path s [] node p c true (suc k) [] ready keeps)
          (λ path1 ready1.
            Progress-then base out Gives Works path1 s1 f1 node p
              (At p (Then wildcard false (Adds k (c ∷ [])))) _ s2 f2 r ready1
              (follow-Progress base Works path1 s1 f1 node p wildcard false k (c ∷ []) ready1
                inserts)
              (λ path2 ready2.
                Progress-then base out Gives Works path2 s2 f2 node p (At p (λ v. v ≡ []))
                  (At p (Then wildcard true (Adds k []))) s3 f2 r ready2
                  (final-Progress base Works path2 s2 f2 node p ready2)
                  (λ path3 ready3.
                    follow-Progress base Works path3 s3 f2 node p wildcard true k [] ready3
                      substitutes))))

  more_left-Progress :
      (k a b : ℕ) (str : Text) (node : ℕ)
      → ((next : ℕ) → Works (frame next (suc k) (b ∷ str)))
      → ((next : ℕ) → Works (frame next k (a ∷ b ∷ str)))
      → ((next : ℕ) → Works (frame next k (b ∷ str)))
      → ((next : ℕ) → Works (frame next k (a ∷ str)))
      → (path : ℕ → Text) (s : Store) → Ready path s [] node (path node)
      → Grows path s []
          (At (path node) (Adds (suc k) (a ∷ b ∷ str)))
          (edit node (suc k) (a ∷ b ∷ str) (s, []))
  unfolding edit no_edit insertion deletion last_deletion substitution transposition
  more_left-Progress k a b str node keeps inserts skips swaps path s ready =
      let p = path node in
      let (s1, f1) = follow node a false (suc k) (b ∷ str) (s, []) in
      let (s2, f2) = follow node wildcard false k (a ∷ b ∷ str) (s1, f1) in
      let f3 = frame node k (b ∷ str) ∷ f2 in
      let (s4, f4) = follow node wildcard false k (b ∷ str) (s2, f3) in
      let r = follow node b false k (a ∷ str) (s4, f4) in
      Progress-map base out Gives Works path s [] _ _ r
        (λ w. (
          λ h. elim h [
            | inl (v, e, x) ↦ (v, e, inl x)
            | inr (inl (v, e, x)) ↦ (v, e, inr (inl x))
            | inr (inr (inl (v, e, x))) ↦ (v, e, inr (inr (inl x)))
            | inr (inr (inr (inl (v, e, x)))) ↦ (v, e, inr (inr (inr (inl x))))
            | inr (inr (inr (inr (v, e, x)))) ↦ (v, e, inr (inr (inr (inr x))))
          ],
          λ (v, e, h). elim h [
            | inl x ↦ inl (v, e, x)
            | inr (inl x) ↦ inr (inl (v, e, x))
            | inr (inr (inl x)) ↦ inr (inr (inl (v, e, x)))
            | inr (inr (inr (inl x))) ↦ inr (inr (inr (inl (v, e, x))))
            | inr (inr (inr (inr x))) ↦ inr (inr (inr (inr (v, e, x))))
          ],
        ))
        (Progress-then base out Gives Works path s [] node p
          (At p (Then a false (Adds (suc k) (b ∷ str)))) _ s1 f1 r ready
          (follow-Progress base Works path s [] node p a false (suc k) (b ∷ str) ready keeps)
          (λ path1 ready1.
            Progress-then base out Gives Works path1 s1 f1 node p
              (At p (Then wildcard false (Adds k (a ∷ b ∷ str)))) _ s2 f2 r ready1
              (follow-Progress base Works path1 s1 f1 node p wildcard false k (a ∷ b ∷ str) ready1
                inserts)
              (λ path2 ready2.
                Progress-then base out Gives Works path2 s2 f2 node p (At p (Adds k (b ∷ str))) _ s2
                  f3 r ready2 (deleted path2 s2 f2 p ready2)
                  (λ path3 ready3.
                    Progress-then base out Gives Works path3 s2 f3 node p
                      (At p (Then wildcard false (Adds k (b ∷ str))))
                      (At p (Then b false (Adds k (a ∷ str)))) s4 f4 r ready3
                      (follow-Progress base Works path3 s2 f3 node p wildcard false k (b ∷ str)
                        ready3 skips)
                      (λ path4 ready4.
                        follow-Progress base Works path4 s4 f4 node p b false k (a ∷ str) ready4
                          swaps)))))
    where
      deleted :
          (path2 : ℕ → Text) (s2 : Store) (f2 : List Frame) (p : Text)
          → Ready path2 s2 f2 node p
          → Grows path2 s2 f2 (At p (Adds k (b ∷ str))) (s2, frame node k (b ∷ str) ∷ f2)
      deleted path2 s2 f2 p (tree, all_frames, lo, hi, at) =
          let again =
            Progress-again base out Gives Works path2 s2 f2 (frame node k (b ∷ str)) tree all_frames
              lo hi (skips node) in
          Progress-map base out Gives Works path2 s2 f2 _ _ (s2, frame node k (b ∷ str) ∷ f2)
            (λ w. (λ (v, e, x). (v, rw at at e, x), λ (v, e, x). (v, rw at e, x))) again

  pub works : (edits : ℕ) (str : Text) (node : ℕ) → Works (frame node edits str)
  unfolding edit no_edit insertion deletion last_deletion substitution transposition
  works zero [] node = edit-Works node zero [] (λ path s tree lo hi.
      Progress-none base out Gives Works path s [] _ tree tt (λ w (v, e, no_label). no_label))
  works zero (c ∷ str) node = edit-Works node zero (c ∷ str) (λ path s tree lo hi.
      follow-Progress base Works path s [] node (path node) c (is_last str) zero str
        (tree, tt, lo, hi, refl) (works zero str))
  works (suc k) [] node = edit-Works node (suc k) [] (λ path s tree lo hi.
      follow-Progress base Works path s [] node (path node) wildcard true k []
        (tree, tt, lo, hi, refl) (works k []))
  works (suc k) (c ∷ []) node = edit-Works node (suc k) (c ∷ []) (λ path s tree lo hi.
      one_left-Progress k c node (works (suc k) []) (works k (c ∷ [])) (works k []) path s
        (tree, tt, lo, hi, refl))
  works (suc k) (a ∷ b ∷ str) node = edit-Works node (suc k) (a ∷ b ∷ str) (λ path s tree lo hi.
      more_left-Progress k a b str node (works (suc k) (b ∷ str)) (works k (a ∷ b ∷ str))
        (works k (b ∷ str)) (works k (a ∷ str)) path s (tree, tt, lo, hi, refl))
