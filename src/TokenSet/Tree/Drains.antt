-- ===== src/TokenSet/Tree/Drains.antt =====
-- Loops of docs/ui/lunr.js over a stack of frames, run on fuel: the frames above others are worked off.
use kubearchive.Prelude.{
  List, Option, [], ap, arith, inl, inr, refl, suc, ℕ, ◌++◌, ◌+◌, ◌<◌, ◌↔◌, ◌∙◌, ◌∷◌, ◌≡◌, ◌≤◌,
}
use kubearchive.Text.{Text}
use kubearchive.TokenSet.{Store}
use kubearchive.TokenSet.Tree.{Holds, IsTree}
use kubearchive.TokenSet.Tree.Work.{
  AreFrames, AreFrames-grow, GivesAt, Pending-path, Progress, Words,
}

module _ (base : Store) {Frame : Type 0} (out : Frame → ℕ) (Gives : Frame → Text → Type 0)
    (loop : ℕ → Store × List Frame → Option Store) where
  -- The loop has worked off the frames above others, and has added their words.
  abbrev pub Drains : (ℕ → Text) → Store → List Frame → List Frame → Type 0
  Drains path s frames others =
      (k : ℕ) × (path' : ℕ → Text) × (t : Store) × ((fuel : ℕ)
        → loop (k + fuel) (s, frames ++ others) ≡ loop fuel (t, others))
      × ((i : ℕ) → i < s.next_id → path' i ≡ path i)
      × IsTree base path' t
      × (s.next_id ≤ t.next_id)
      × ((w : Text) → Holds base path' t w ↔ Words base out Gives path s frames w)

  pub Drains-nil :
      (path : ℕ → Text) (s : Store) (others : List Frame)
      → IsTree base path s
      → Drains path s [] others
  Drains-nil path s others tree = (
    0,
    path,
    s,
    λ fuel. let e : 0 + fuel ≡ fuel = omega arith in rw e refl,
    λ i lt. refl,
    tree,
    omega arith,
    λ w. (λ h. inl h, λ h. elim h [ inl held ↦ held | inr no_word ↦ absurd no_word ]),
  )

  pub Drains-cons :
      (Ok : Frame → Type 0) (path : ℕ → Text) (s : Store) (f : Frame) (frames others : List Frame)
      → AreFrames base out Gives Ok s frames
      → Drains path s (f ∷ []) (frames ++ others)
      → ((path1 : ℕ → Text) (t : Store)
          → IsTree base path1 t
          → AreFrames base out Gives Ok t frames
          → Drains path1 t frames others)
      → Drains path s (f ∷ frames) others
  Drains-cons Ok path s f frames others rest (k, path1, t, run, same, tree, le, words) later =
      let (k', path2, u, run', same', tree', le', words') =
        later path1 t tree (AreFrames-grow base out Gives Ok s t frames le rest) in
      (
        k + k',
        path2,
        u,
        λ fuel.
            let count : k + k' + fuel ≡ k + (k' + fuel) = omega arith in
            ap (λ m. loop m (s, f ∷ (frames ++ others))) count ∙ run (k' + fuel) ∙ run' fuel,
        λ i lt. same' i (omega arith) ∙ same i lt,
        tree',
        omega arith,
        λ w.
            let (forth, back) = words w in
            let (forth', back') = words' w in
            let (was, is_now) = Pending-path base out Gives Ok path path1 s frames w same rest in
            (
              λ a. elim (forth' a) [
                | inl held ↦ elim (forth held) [
                  | inl old ↦ inl old
                  | inr (inl here) ↦ inr (inl here)
                  | inr (inr no_word) ↦ absurd no_word
                ]
                | inr pending ↦ inr (inr (was pending))
              ],
              λ a. back' (elim a [
                | inl old ↦ inl (back (inl old))
                | inr (inl here) ↦ inl (back (inr (inl here)))
                | inr (inr pending) ↦ inr (is_now pending)
              ]),
            ),
      )

  module _ (New Ok : Frame → Type 0) where
    -- The frame on the top is worked off when the frames that its turn pushes are, and then the
    -- others.
    pub Drains-step :
        (path : ℕ → Text) (s : Store) (f : Frame) (frames others : List Frame) (t : Store)
        (new : List Frame) (More : Text → Type 0)
        → ((fuel : ℕ)
            → loop (suc fuel) (s, f ∷ (frames ++ others))
              ≡ loop fuel (t, new ++ (frames ++ others)))
        → Progress base out Gives New path s [] More (t, new)
        → ((w : Text) → More w ↔ GivesAt base out Gives path f w)
        → AreFrames base out Gives Ok s frames
        → ((path1 : ℕ → Text)
            → IsTree base path1 t
            → AreFrames base out Gives New t new
            → Drains path1 t new (frames ++ others))
        → ((path2 : ℕ → Text) (u : Store)
            → IsTree base path2 u
            → AreFrames base out Gives Ok u frames
            → Drains path2 u frames others)
        → Drains path s (f ∷ frames) others
    Drains-step path s f frames others t new More turn (path1, same1, tree1, le1, all1, words1) more
          rest first then_others =
        let (k, path2, u, run, same2, tree2, le2, words2) = first path1 tree1 all1 in
        let (k', path3, v, run', same3, tree3, le3, words3) =
          then_others path2 u tree2
            (AreFrames-grow base out Gives Ok s u frames (omega arith) rest) in
        (
          suc (k + k'),
          path3,
          v,
          λ fuel.
              let count : suc (k + k') + fuel ≡ suc (k + (k' + fuel)) = omega arith in
              ap (λ m. loop m (s, f ∷ (frames ++ others))) count
              ∙ turn (k + (k' + fuel))
              ∙ run (k' + fuel)
              ∙ run' fuel,
          λ i i_lt. same3 i (omega arith) ∙ same2 i (omega arith) ∙ same1 i i_lt,
          tree3,
          omega arith,
          λ w.
              let (forth1, back1) = words1 w in
              let (forth2, back2) = words2 w in
              let (forth3, back3) = words3 w in
              let (gives, given) = more w in
              let (was, is_now) =
                Pending-path base out Gives Ok path path2 s frames w
                  (λ i i_lt. same2 i (omega arith) ∙ same1 i i_lt) rest in
              (
                λ a. elim (forth3 a) [
                  | inl held ↦ elim (forth1 (forth2 held)) [
                    | inl (inl old) ↦ inl old
                    | inl (inr no_word) ↦ absurd no_word
                    | inr behind ↦ inr (inl (gives behind))
                  ]
                  | inr pending ↦ inr (inr (was pending))
                ],
                λ a. back3 (elim a [
                  | inl old ↦ inl (back2 (back1 (inl (inl old))))
                  | inr (inl here) ↦ inl (back2 (back1 (inr (given here))))
                  | inr (inr pending) ↦ inr (is_now pending)
                ]),
              ),
        )
