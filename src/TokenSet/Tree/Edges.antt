-- ===== src/TokenSet/Tree/Edges.antt =====
-- What edges and final nodes are behind the writes to a store in docs/ui/lunr.js.

use kubearchive.Prelude.{
  ==_iff, Bool, Bool-cases, List, [], arith, false, if◌then◌else◌, inl, inr, none, refl, some, sym,
  ℕ, ◌<◌, ◌==◌, ◌↔◌, ◌∷◌, ◌≡◌, ◌⊎◌,
}
use kubearchive.TokenSet.{Store, get_edge, new_node, put_edge, put_node, set_edge, set_final}
use kubearchive.TokenSet.Patterns.{HasEdge}

pub get_edge-HasEdge : (c id : ℕ) (es : List (ℕ × ℕ)) → get_edge c es ≡ some id → HasEdge c id es
unfolding get_edge
get_edge-HasEdge c id [] e = cc
get_edge-HasEdge c id ((d, i) ∷ es) e = elim (Bool-cases (d == c)) [
  | inl same ↦
      let label : d ≡ c = (==_iff d c).0 same in
      let at : some i ≡ some id = rw same at e in inl (sym label, cc)
  | inr other ↦ inr (get_edge-HasEdge c id es (rw other at e))
]

-- A new edge is added to the others.
pub put_edge-HasEdge :
    (n next c id : ℕ) (es : List (ℕ × ℕ))
    → get_edge n es ≡ none
    → HasEdge c id (put_edge n next es) ↔ (HasEdge c id es ⊎ ((c ≡ n) × (id ≡ next)))
unfolding get_edge put_edge
put_edge-HasEdge n next c id [] e = (
  λ h. elim h [ inl here ↦ inr here | inr no_edge ↦ inl no_edge ],
  λ h. elim h [ inl no_edge ↦ inr no_edge | inr here ↦ inl here ],
)
put_edge-HasEdge n next c id ((d, i) ∷ es) e = elim (Bool-cases (d == n)) [
  | inl same ↦ let impossible : some i ≡ none = rw same at e in cc
  | inr other ↦
      let (forth, back) = put_edge-HasEdge n next c id es (rw other at e) in
      rw other (
        λ h. elim h [
          | inl here ↦ inl (inl here)
          | inr later ↦ elim (forth later) [ inl a ↦ inl (inr a) | inr b ↦ inr b ]
        ],
        λ h. elim h [
          | inl (inl here) ↦ inl here
          | inl (inr a) ↦ inr (back (inl a))
          | inr b ↦ inr (back (inr b))
        ],
      )
]

pub set_final-edges :
    (node : ℕ) (final : Bool) (s : Store) (i : ℕ)
    → ((set_final node final s).nodes i).edges ≡ (s.nodes i).edges
unfolding set_final put_node
set_final-edges node final s i = elim (Bool-cases (i == node)) [
  | inl same ↦ let e : i ≡ node = (==_iff i node).0 same in rw (same, e) refl
  | inr other ↦ rw other refl
]

pub set_final-final :
    (node : ℕ) (final : Bool) (s : Store) (i : ℕ)
    → ((set_final node final s).nodes i).final ≡ (if i == node then final else (s.nodes i).final)
unfolding set_final put_node
set_final-final node final s i = elim (Bool-cases (i == node)) [
  | inl same ↦ rw same refl
  | inr other ↦ rw other refl
]

-- The store with a new node behind a new edge.
abbrev pub with_child : ℕ → ℕ → Bool → Store → Store
with_child output n final s = set_edge output n s.next_id (new_node final s)

pub with_child-edges :
    (output n : ℕ) (final : Bool) (s : Store) (i : ℕ)
    → output < s.next_id
    → ((with_child output n final s).nodes i).edges ≡ (
        if i == output
        then put_edge n s.next_id (s.nodes output).edges
        else if i == s.next_id
        then []
        else (s.nodes i).edges)
unfolding set_edge new_node put_node
with_child-edges output n final s i lt =
    let apart : (output == s.next_id) ≡ false = ground arith in
    elim (Bool-cases (i == output)) [
      | inl same ↦ rw (same, apart) refl
      | inr other ↦ elim (Bool-cases (i == s.next_id)) [
        | inl new ↦ rw (other, new) refl
        | inr known ↦ rw (other, known) refl
      ]
    ]

pub with_child-final :
    (output n : ℕ) (final : Bool) (s : Store) (i : ℕ)
    → output < s.next_id
    → ((with_child output n final s).nodes i).final
      ≡ (if i == s.next_id then final else (s.nodes i).final)
unfolding set_edge new_node put_node
with_child-final output n final s i lt =
    let apart : (output == s.next_id) ≡ false = ground arith in
    elim (Bool-cases (i == output)) [
      | inl same ↦ let e : i ≡ output = (==_iff i output).0 same in rw (same, e, apart) refl
      | inr other ↦ elim (Bool-cases (i == s.next_id)) [
        | inl new ↦ rw (other, new) refl
        | inr known ↦ rw (other, known) refl
      ]
    ]
