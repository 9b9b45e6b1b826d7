-- ===== src/TokenSet/Spelled.antt =====
-- The words of a token set of docs/ui/lunr.js, read without wildcards, and the sets whose paths end.
use kubearchive.Prelude.{List, [], inl, inr, suc, true, zero, ℕ, ◌++◌, ◌<◌, ◌↔◌, ◌∷◌, ◌≡◌, ◌⊎◌}
use kubearchive.Text.{Text}
use kubearchive.TokenSet.{Store}
use kubearchive.TokenSet.Patterns.{HasEdge}

-- The labels of a path from the node to a final one.
abbrev pub Spells : Store → ℕ → Text → Type 0
Spells s node [] = (s.nodes node).final ≡ true
Spells s node (x ∷ w) = (id : ℕ) × HasEdge x id (s.nodes node).edges × Spells s id w

-- Every path from the node has fewer edges.
abbrev pub HasHeight : ℕ → Store → ℕ → Type 0
HasHeight zero s node = ⊥
HasHeight (suc h) s node = (c id : ℕ) → HasEdge c id (s.nodes node).edges → HasHeight h s id

-- The edges of the nodes lead to nodes.
abbrev pub IsClosed : Store → Type 0
IsClosed s = (node c id : ℕ) → node < s.next_id → HasEdge c id (s.nodes node).edges → id < s.next_id

-- The word is one of the list.
abbrev pub IsIn : Text → List Text → Type 0
IsIn w [] = ⊥
IsIn w (v ∷ vs) = (w ≡ v) ⊎ IsIn w vs

pub IsIn-append : (w : Text) (us vs : List Text) → IsIn w (us ++ vs) ↔ (IsIn w us ⊎ IsIn w vs)
IsIn-append w [] vs = (λ h. inr h, λ h. elim h [ inl no_word ↦ absurd no_word | inr later ↦ later ])
IsIn-append w (u ∷ us) vs =
    let (forth, back) = IsIn-append w us vs in
    (
      λ h. elim h [
        | inl here ↦ inl (inl here)
        | inr later ↦ elim (forth later) [ inl a ↦ inl (inr a) | inr b ↦ inr b ]
      ],
      λ h. elim h [
        | inl there ↦ elim there [ inl here ↦ inl here | inr a ↦ inr (back (inl a)) ]
        | inr b ↦ inr (back (inr b))
      ],
    )
