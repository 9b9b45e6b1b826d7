-- ===== src/TokenSet/Patterns.antt =====
-- The words that a token set of docs/ui/lunr.js accepts in a query, where an edge with a wildcard can
-- be followed by any character, and the words that fit a pattern.
use kubearchive.Prelude.{
  Bool, List, [], false, if◌then◌else◌, inl, inr, true, ℕ, ◌==◌, ◌↔◌, ◌∷◌, ◌≡◌, ◌⊎◌,
}
use kubearchive.Text.{Text}
use kubearchive.Query.{wildcard}
use kubearchive.TokenSet.{Store}

abbrev pub HasEdge : ℕ → ℕ → List (ℕ × ℕ) → Type 0
HasEdge c id [] = ⊥
HasEdge c id ((d, i) ∷ es) = ((c ≡ d) × (id ≡ i)) ⊎ HasEdge c id es

-- A path from the node spells the word and ends in a final node.
abbrev pub Accepts : Store → ℕ → Text → Type 0
Accepts s node [] = (s.nodes node).final ≡ true
Accepts s node (x ∷ w) =
    (c : ℕ) × (id : ℕ) × HasEdge c id (s.nodes node).edges
    × ((c ≡ x) ⊎ (c ≡ wildcard))
    × Accepts s id w

-- The word, or what is left of it behind some characters.
abbrev pub Behind : (Text → Type 0) → Text → Type 0
Behind P [] = P []
Behind P (x ∷ w) = P (x ∷ w) ⊎ Behind P w

abbrev pub After : ℕ → (Text → Type 0) → Text → Type 0
After c P [] = ⊥
After c P (x ∷ w) = (c ≡ x) × P w

-- A word that fits a pattern: a wildcard stands for any characters, also for none.
abbrev pub Fits : Text → Text → Type 0
Fits [] w = w ≡ []
Fits (c ∷ p) w = if c == wildcard then Behind (Fits p) w else After c (Fits p) w

-- A node with a loop, or without.
abbrev pub Loops : Bool → (Text → Type 0) → Text → Type 0
Loops false P w = P w
Loops true P w = Behind P w

pub Behind-twice : (P : Text → Type 0) (w : Text) → Behind (Behind P) w ↔ Behind P w
Behind-twice P [] = (λ h. h, λ h. h)
Behind-twice P (x ∷ w) =
    let (forth, back) = Behind-twice P w in
    (λ h. elim h [ inl here ↦ here | inr later ↦ inr (forth later) ], λ h. inl h)

pub Behind-map :
    {P Q : Text → Type 0} → ((w : Text) → P w ↔ Q w) → (w : Text) → Behind P w ↔ Behind Q w
Behind-map h [] = h []
Behind-map h (x ∷ w) =
    let (forth, back) = Behind-map h w in
    (
      λ b. elim b [ inl here ↦ inl ((h (x ∷ w)).0 here) | inr later ↦ inr (forth later) ],
      λ b. elim b [ inl here ↦ inl ((h (x ∷ w)).1 here) | inr later ↦ inr (back later) ],
    )

pub iff_trans : {P Q R : Type 0} → P ↔ Q → Q ↔ R → P ↔ R
iff_trans (f, g) (h, k) = (λ p. h (f p), λ r. g (k r))

pub Fits-wild : (c : ℕ) (p w : Text) → (c == wildcard) ≡ true → Behind (Fits p) w ↔ Fits (c ∷ p) w
Fits-wild c p w e = rw e (λ h. h, λ h. h)

pub Fits-tame : (c : ℕ) (p w : Text) → (c == wildcard) ≡ false → After c (Fits p) w ↔ Fits (c ∷ p) w
Fits-tame c p w e = rw e (λ h. h, λ h. h)

pub Loops-wild :
    (loop : Bool) (c : ℕ) (p w : Text)
    → (c == wildcard) ≡ true
    → Behind (Fits p) w ↔ Loops loop (Fits (c ∷ p)) w
Loops-wild false c p w e = Fits-wild c p w e
Loops-wild true c p w e =
    let (forth, back) = Behind-twice (Fits p) w in
    iff_trans (back, forth) (Behind-map (λ v. Fits-wild c p v e) w)

pub Loops-tame :
    (loop : Bool) (c : ℕ) (p w : Text)
    → (c == wildcard) ≡ false
    → Loops loop (After c (Fits p)) w ↔ Loops loop (Fits (c ∷ p)) w
Loops-tame false c p w e = Fits-tame c p w e
Loops-tame true c p w e = Behind-map (λ v. Fits-tame c p v e) w
