-- ===== src/TokenSet/Fuzzy/Near.antt =====
-- The labels that `fromFuzzyString` of docs/ui/lunr.js adds cover the words within the edits.

use kubearchive.Prelude.{
  Bool, [], false, inl, inr, refl, suc, true, zero, ℕ, ◌↔◌, ◌∷◌, ◌≡◌, ◌≢◌, ◌⊎◌,
}
use kubearchive.Text.{Text}
use kubearchive.Query.{wildcard}
use kubearchive.TokenSet.{is_last}
use kubearchive.TokenSet.Fuzzy.Edits.{
  Adds, Covers, Matches, Near, Then, delete, done, insert, keep, substitute, transpose,
}

-- No labels, if the string is empty, or those that are added.
abbrev pub Labels : ℕ → Text → Text → Type 0
Labels k s p = ((is_last s ≡ true) × (p ≡ [])) ⊎ Adds k s p

Then-cases :
    (c : ℕ) (final : Bool) (P : Text → Type 0) (p w : Text) (R : Text → Type 0)
    → Then c final P p
    → Covers p w
    → ((x : ℕ) (v q : Text)
        → Matches c x
        → (((final ≡ true) × (q ≡ [])) ⊎ P q)
        → Covers q v
        → R (x ∷ v))
    → R w
Then-cases c final P [] w R no_label _ _ = absurd no_label
Then-cases c final P (d ∷ q) [] R _ no_cover _ = absurd no_cover
Then-cases c final P (d ∷ q) (x ∷ v) R (label, given) (matched, covered) h =
    h x v q (rw (← label) at matched) given covered

Labels-Near :
    (k : ℕ) (s q v : Text)
    → (Adds k s q → Covers q v → Near k s v)
    → Labels k s q
    → Covers q v
    → Near k s v
Labels-Near k s q v h (inr added) covered = h added covered
Labels-Near k (c ∷ s) q v h (inl (no_last, _)) covered = cc
Labels-Near k [] [] [] h (inl _) covered = done
Labels-Near k [] [] (x ∷ v) h (inl _) no_cover = absurd no_cover
Labels-Near k [] (c ∷ q) v h (inl (_, nil)) covered = cc

-- A label that is not the last leads to what is added there.
inner_label : {Last Added : Type 0} → ((false ≡ true) × Last) ⊎ Added → Added
inner_label (inl (no_last, _)) = cc
inner_label (inr added) = added

Adds-Near : (k : ℕ) (s p w : Text) → Adds k s p → Covers p w → Near k s w
Adds-Near zero [] p w no_label _ = absurd no_label
Adds-Near zero (c ∷ s) p w added covered =
    Then-cases c (is_last s) (Adds zero s) p w (Near zero (c ∷ s)) added covered
      (λ x v q matched given cov.
        keep c x matched (Labels-Near zero s q v (Adds-Near zero s q v) given cov))
Adds-Near (suc k) [] p w added covered =
    Then-cases wildcard true (Adds k []) p w (Near (suc k) []) added covered
      (λ x v q _ given cov. insert x (Labels-Near k [] q v (Adds-Near k [] q v) given cov))
Adds-Near (suc k) (c ∷ []) p w (inl added) covered =
    Then-cases c true (Adds (suc k) []) p w (Near (suc k) (c ∷ [])) added covered
      (λ x v q matched given cov.
        keep c x matched (Labels-Near (suc k) [] q v (Adds-Near (suc k) [] q v) given cov))
Adds-Near (suc k) (c ∷ []) p w (inr (inl added)) covered =
    Then-cases wildcard false (Adds k (c ∷ [])) p w (Near (suc k) (c ∷ [])) added covered
      (λ x v q _ given cov. insert x (Adds-Near k (c ∷ []) q v (inner_label given) cov))
Adds-Near (suc k) (c ∷ []) p w (inr (inr (inl nil))) covered =
    delete c (Labels-Near k [] p w (Adds-Near k [] p w) (inl (refl, nil)) covered)
Adds-Near (suc k) (c ∷ []) p w (inr (inr (inr added))) covered =
    Then-cases wildcard true (Adds k []) p w (Near (suc k) (c ∷ [])) added covered
      (λ x v q _ given cov. substitute c x (Labels-Near k [] q v (Adds-Near k [] q v) given cov))
Adds-Near (suc k) (a ∷ b ∷ s) p w (inl added) covered =
    Then-cases a false (Adds (suc k) (b ∷ s)) p w (Near (suc k) (a ∷ b ∷ s)) added covered
      (λ x v q matched given cov.
        keep a x matched (Adds-Near (suc k) (b ∷ s) q v (inner_label given) cov))
Adds-Near (suc k) (a ∷ b ∷ s) p w (inr (inl added)) covered =
    Then-cases wildcard false (Adds k (a ∷ b ∷ s)) p w (Near (suc k) (a ∷ b ∷ s)) added covered
      (λ x v q _ given cov. insert x (Adds-Near k (a ∷ b ∷ s) q v (inner_label given) cov))
Adds-Near (suc k) (a ∷ b ∷ s) p w (inr (inr (inl added))) covered =
    delete a (Adds-Near k (b ∷ s) p w added covered)
Adds-Near (suc k) (a ∷ b ∷ s) p w (inr (inr (inr (inl added)))) covered =
    Then-cases wildcard false (Adds k (b ∷ s)) p w (Near (suc k) (a ∷ b ∷ s)) added covered
      (λ x v q _ given cov. substitute a x (Adds-Near k (b ∷ s) q v (inner_label given) cov))
Adds-Near (suc k) (a ∷ b ∷ s) p w (inr (inr (inr (inr added)))) covered =
    Then-cases b false (Adds k (a ∷ s)) p w (Near (suc k) (a ∷ b ∷ s)) added covered
      (λ x v q matched given cov.
        transpose a b x matched (Adds-Near k (a ∷ s) q v (inner_label given) cov))

Adds-nil_mono : (k : ℕ) (q : Text) → Adds k [] q → Adds (suc k) [] q
Adds-nil_mono zero q no_label = absurd no_label
Adds-nil_mono (suc k) [] no_label = absurd no_label
Adds-nil_mono (suc k) (c ∷ q) (label, inl last) = (label, inl last)
Adds-nil_mono (suc k) (c ∷ q) (label, inr added) = (label, inr (Adds-nil_mono k q added))

Adds-keep : (k c : ℕ) (s q : Text) → Labels k s q → Adds k (c ∷ s) (c ∷ q)
Adds-keep zero c s q given = (refl, given)
Adds-keep (suc k) c [] q given = inl (refl, given)
Adds-keep (suc k) c (b ∷ s) q given = inl (refl, given)

Adds-insert : (k : ℕ) (s q : Text) → Labels k s q → Adds (suc k) s (wildcard ∷ q)
Adds-insert k [] q given = (refl, given)
Adds-insert k (c ∷ []) q given = inr (inl (refl, given))
Adds-insert k (a ∷ b ∷ s) q given = inr (inl (refl, given))

Adds-delete : (k c : ℕ) (s q : Text) → Labels k s q → Adds (suc k) (c ∷ s) q
Adds-delete k c [] q (inl (_, nil)) = inr (inr (inl nil))
Adds-delete zero c [] q (inr no_label) = absurd no_label
Adds-delete (suc k) c [] q (inr added) = inr (inr (inr (Adds-nil_mono (suc k) q added)))
Adds-delete k c (b ∷ s) q (inl (no_last, _)) = cc
Adds-delete k c (b ∷ s) q (inr added) = inr (inr (inl added))

Adds-substitute : (k c : ℕ) (s q : Text) → Labels k s q → Adds (suc k) (c ∷ s) (wildcard ∷ q)
Adds-substitute k c [] q given = inr (inr (inr (refl, given)))
Adds-substitute k c (b ∷ s) q given = inr (inr (inr (inl (refl, given))))

Near-Labels : {k : ℕ} {s w : Text} → Near k s w → (p : Text) × Labels k s p × Covers p w
Near-Labels done = ([], inl (refl, refl), tt)
Near-Labels (keep {k} {s} {w} c x matched near) =
    let (q, given, covered) = Near-Labels near in
    (c ∷ q, inr (Adds-keep k c s q given), (matched, covered))
Near-Labels (insert {k} {s} {w} x near) =
    let (q, given, covered) = Near-Labels near in
    (wildcard ∷ q, inr (Adds-insert k s q given), (inr refl, covered))
Near-Labels (delete {k} {s} {w} c near) =
    let (q, given, covered) = Near-Labels near in (q, inr (Adds-delete k c s q given), covered)
Near-Labels (substitute {k} {s} {w} c x near) =
    let (q, given, covered) = Near-Labels near in
    (wildcard ∷ q, inr (Adds-substitute k c s q given), (inr refl, covered))
Near-Labels (transpose {k} {s} {w} a b x matched near) =
    let (q, given, covered) = Near-Labels near in
    (b ∷ q, inr (inr (inr (inr (inr (refl, given))))), (matched, covered))

-- For a string that is not empty, the labels that are added cover the words within the edits.
pub Adds-Covers :
    (k : ℕ) (s w : Text) → s ≢ [] → ((p : Text) × Adds k s p × Covers p w) ↔ Near k s w
Adds-Covers k [] w ne = absurd (ne refl)
Adds-Covers k (c ∷ s) w ne = (
  λ (p, added, covered). Adds-Near k (c ∷ s) p w added covered,
  λ near. let (p, given, covered) = Near-Labels near in (p, inner_label given, covered),
)
