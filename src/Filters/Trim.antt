-- ===== src/Filters/Trim.antt =====
-- What `lunr.trimmer` of docs/ui/lunr.js leaves of a text.
use kubearchive.Prelude.{
  Bool, Bool-cases, [], all, ap, inl, inr, not, refl, true, ℕ, ◌++◌, ◌∙◌, ◌∷◌, ◌≡◌, ◌⊎◌,
}
use kubearchive.Text.{Text, is_word}
use kubearchive.Filters.{keep_before, trim, trim_left, trim_right}

-- No character is of a word.
abbrev pub no_word : Text → Bool
no_word s = all (λ c. not (is_word c)) s

abbrev pub StartsWithWord : Text → Type 0
StartsWithWord [] = ⊥
StartsWithWord (c ∷ _) = is_word c ≡ true

abbrev pub EndsWithWord : Text → Type 0
EndsWithWord s = (u : Text) × (c : ℕ) × (s ≡ u ++ c ∷ []) × (is_word c ≡ true)

trim_left-split :
    (s : Text)
    → (a : Text) × (s ≡ a ++ trim_left s)
      × (no_word a ≡ true)
      × ((trim_left s ≡ []) ⊎ StartsWithWord (trim_left s))
unfolding trim_left
trim_left-split [] = ([], refl, refl, inl refl)
trim_left-split (c ∷ cs) = elim (Bool-cases (is_word c)) [
  | inl word ↦ rw word ([], refl, refl, inr word)
  | inr other ↦
      let (a, split, none_of, starts) = trim_left-split cs in
      rw other (c ∷ a, ap (λ t. c ∷ t) split, rw other none_of, starts)
]

keep_before-split :
    (c : ℕ) (cs kept b : Text)
    → cs ≡ kept ++ b
    → no_word b ≡ true
    → (kept ≡ []) ⊎ EndsWithWord kept
    → (b' : Text) × (c ∷ cs ≡ keep_before c kept ++ b')
      × (no_word b' ≡ true)
      × ((keep_before c kept ≡ []) ⊎ EndsWithWord (keep_before c kept))
unfolding keep_before
keep_before-split c cs [] b split none_of ends = elim (Bool-cases (is_word c)) [
  | inl word ↦ rw word (b, ap (λ t. c ∷ t) split, none_of, inr ([], c, refl, word))
  | inr other ↦ rw other (c ∷ b, ap (λ t. c ∷ t) split, rw other none_of, inl refl)
]
keep_before-split c cs (d ∷ ds) b split none_of (inl nil) = cc
keep_before-split c cs (d ∷ ds) b split none_of (inr (u, e, at, word)) =
    (b, ap (λ t. c ∷ t) split, none_of, inr (c ∷ u, e, ap (λ t. c ∷ t) at, word))

trim_right-split :
    (s : Text)
    → (b : Text) × (s ≡ trim_right s ++ b)
      × (no_word b ≡ true)
      × ((trim_right s ≡ []) ⊎ EndsWithWord (trim_right s))
unfolding trim_right
trim_right-split [] = ([], refl, refl, inl refl)
trim_right-split (c ∷ cs) =
    let (b, split, none_of, ends) = trim_right-split cs in
    keep_before-split c cs (trim_right cs) b split none_of ends

trim_right-starts : (s : Text) → StartsWithWord s → StartsWithWord (trim_right s)
unfolding trim_right
trim_right-starts [] h = h
trim_right-starts (c ∷ cs) h = keeps (trim_right cs)
  where
    keeps : (kept : Text) → StartsWithWord (keep_before c kept)
    keeps [] = rw (keep_before, h) h
    keeps (d ∷ ds) = h

-- Trimming cuts off characters at both ends that are not of a word. What is left is nothing, or
-- starts and ends with a character of a word.
pub trim-split :
    (s : Text)
    → (a : Text) × (b : Text) × (s ≡ a ++ (trim s ++ b))
      × (no_word a ≡ true)
      × (no_word b ≡ true)
      × ((trim s ≡ []) ⊎ (StartsWithWord (trim s) × EndsWithWord (trim s)))
unfolding trim
trim-split s =
    let (a, split, none_of, starts) = trim_left-split s in
    let (b, split', none_of', ends) = trim_right-split (trim_left s) in
    (
      a,
      b,
      split ∙ ap (λ t. a ++ t) split',
      none_of,
      none_of',
      elim starts [
        | inl nil ↦ inl (ap trim_right nil)
        | inr first ↦ elim ends [
          | inl nil ↦ inl nil
          | inr last ↦ inr (trim_right-starts (trim_left s) first, last)
        ]
      ],
    )
