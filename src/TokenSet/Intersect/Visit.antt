-- ===== src/TokenSet/Intersect/Visit.antt =====
-- The loops over the edges in `intersect` of docs/ui/lunr.js: what one frame does to the output and
-- to the stack.

use kubearchive.Prelude.{
  Bool-cases, List, [], ap, inl, inr, refl, ℕ, ◌++◌, ◌<◌, ◌==◌, ◌||◌, ◌∙◌, ◌∷◌, ◌≡◌, ◌⊎◌,
}
use kubearchive.Text.{Text}
use kubearchive.Query.{new, wildcard}
use kubearchive.TokenSet.{Store}
use kubearchive.TokenSet.Patterns.{Accepts}
use kubearchive.TokenSet.Spelled.{HasHeight, Spells}
use kubearchive.TokenSet.Intersect.{Frame, visit, visit_n_edges, visit_q_edges}

-- What lies below frames on the stack does not matter.
visit-append :
    (f : Frame) (q n : ℕ × ℕ) (s : Store) (new others : List Frame)
    → visit f q n (s, new ++ others)
      ≡ ((visit f q n (s, new)).0, (visit f q n (s, new)).1 ++ others)
unfolding visit
visit-append f (q_edge, q_node) (n_edge, node) s new others =
    elim (Bool-cases (n_edge == q_edge || q_edge == wildcard)) [
      | inl taken ↦ rw taken refl
      | inr skipped ↦ rw skipped refl
    ]

visit_n_edges-append :
    (f : Frame) (q : ℕ × ℕ) (ns : List (ℕ × ℕ)) (s : Store) (new others : List Frame)
    → visit_n_edges f q ns (s, new ++ others)
      ≡ ((visit_n_edges f q ns (s, new)).0, (visit_n_edges f q ns (s, new)).1 ++ others)
unfolding visit_n_edges
visit_n_edges-append f q [] s new others = refl
visit_n_edges-append f q (n ∷ ns) s new others =
    ap (visit_n_edges f q ns) (visit-append f q n s new others)
    ∙ visit_n_edges-append f q ns (visit f q n (s, new)).0 (visit f q n (s, new)).1 others

pub visit_q_edges-append :
    (f : Frame) (qs ns : List (ℕ × ℕ)) (s : Store) (new others : List Frame)
    → visit_q_edges f qs ns (s, new ++ others)
      ≡ ((visit_q_edges f qs ns (s, new)).0, (visit_q_edges f qs ns (s, new)).1 ++ others)
unfolding visit_q_edges
visit_q_edges-append f [] ns s new others = refl
visit_q_edges-append f (q ∷ qs) ns s new others =
    ap (visit_q_edges f qs ns) (visit_n_edges-append f q ns s new others)
    ∙ visit_q_edges-append f qs ns (visit_n_edges f q ns (s, new)).0
        (visit_n_edges f q ns (s, new)).1 others

-- The node of the output to which a frame adds.
abbrev pub out : Frame → ℕ
out f = f.output

abbrev pub IsTaken : ℕ → ℕ → Type 0
IsTaken n_edge q_edge = (q_edge ≡ n_edge) ⊎ (q_edge ≡ wildcard)

module _ (base : Store) where
  -- The word is in both sets, at some nodes of them.
  abbrev pub InBoth : ℕ → ℕ → Text → Type 0
  InBoth node q_node v = Spells base node v × Accepts base q_node v

  -- The words that a frame adds behind its output; the finality of the output is settled before.
  abbrev pub Gives : Frame → Text → Type 0
  Gives f [] = ⊥
  Gives f (c ∷ v) = InBoth f.node f.q_node (c ∷ v)

  -- Nodes of the two sets, and of paths that end.
  abbrev pub Ok : ℕ → Frame → Type 0
  Ok h f = (f.node < base.next_id) × (f.q_node < base.next_id) × HasHeight h base f.node

  -- The words behind one pair of edges, one edge of the query, and all of them.
  abbrev pub BehindPair : Text → ℕ × ℕ → ℕ × ℕ → Text → Type 0
  BehindPair p (q_edge, q_node) (n_edge, node) w =
      IsTaken n_edge q_edge × ((v : Text) × (p ++ n_edge ∷ v ≡ w) × InBoth node q_node v)

  abbrev pub BehindQuery : Text → ℕ × ℕ → List (ℕ × ℕ) → Text → Type 0
  BehindQuery p q [] w = ⊥
  BehindQuery p q (n ∷ ns) w = BehindPair p q n w ⊎ BehindQuery p q ns w

  abbrev pub BehindAll : Text → List (ℕ × ℕ) → List (ℕ × ℕ) → Text → Type 0
  BehindAll p [] ns w = ⊥
  BehindAll p (q ∷ qs) ns w = BehindQuery p q ns w ⊎ BehindAll p qs ns w
