-- ===== src/Builder/Apart.antt =====
-- The numbers of the postings in the inverted index of docs/ui/lunr.js, as positions of a list.
use kubearchive.Prelude.{
  Bool-cases, List, [], ap, arith, inl, inr, length, some, suc, sym, true, ℕ, ◌+◌, ◌<◌, ◌∙◌, ◌∷◌,
  ◌≡◌, ◌≤◌,
}
use kubearchive.Text.{Text, text_eq, text_eq_iff}
use kubearchive.Metadata.{get}
use kubearchive.Builder.{Posting}
use kubearchive.Builder.Numbers.{Numbered}

pub Numbered-from :
    (n : ℕ) (t : Text) (p : Posting) (ps : List (Text × Posting))
    → Numbered n ps
    → get t ps ≡ some p
    → (n ≤ p.index) × (p.index < n + length ps)
unfolding get
Numbered-from n t p [] h e = cc
Numbered-from n t p ((u, q) ∷ ps) (here, h) e = elim (Bool-cases (text_eq u t)) [
  | inl hit ↦
      let e' = rw hit at e in
      let same : q ≡ p = cc in
      let i : p.index ≡ n = ap (λ (x : Posting). x.index) (sym same) ∙ here in
      (omega arith, omega arith)
  | inr miss ↦
      let e' = rw miss at e in
      let (lo, hi) = Numbered-from (suc n) t p ps h e' in (omega arith, omega arith)
]

-- Two terms with the same number are the same.
pub Numbered-apart :
    (n : ℕ) (t u : Text) (p q : Posting) (ps : List (Text × Posting))
    → Numbered n ps
    → get t ps ≡ some p
    → get u ps ≡ some q
    → p.index ≡ q.index
    → text_eq t u ≡ true
unfolding get
Numbered-apart n t u p q [] h e f i = cc
Numbered-apart n t u p q ((v, r) ∷ ps) (here, h) e f i = elim (Bool-cases (text_eq v t)) [
  | inl hit ↦ elim (Bool-cases (text_eq v u)) [
    | inl hit' ↦
        let a : v ≡ t = (text_eq_iff v t).0 hit in
        let b : v ≡ u = (text_eq_iff v u).0 hit' in (text_eq_iff t u).1 (sym a ∙ b)
    | inr miss' ↦
        let e' = rw hit at e in
        let f' = rw miss' at f in
        let same : r ≡ p = cc in
        let j : p.index ≡ n = ap (λ (x : Posting). x.index) (sym same) ∙ here in
        let (lo, hi) = Numbered-from (suc n) u q ps h f' in absurd (omega arith)
  ]
  | inr miss ↦ elim (Bool-cases (text_eq v u)) [
    | inl hit' ↦
        let e' = rw miss at e in
        let f' = rw hit' at f in
        let same : r ≡ q = cc in
        let j : q.index ≡ n = ap (λ (x : Posting). x.index) (sym same) ∙ here in
        let (lo, hi) = Numbered-from (suc n) t p ps h e' in absurd (omega arith)
    | inr miss' ↦
        let e' = rw miss at e in
        let f' = rw miss' at f in Numbered-apart (suc n) t u p q ps h e' f' i
  ]
]
