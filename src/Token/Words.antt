-- ===== src/Token/Words.antt =====
-- The tokens that lunr.tokenizer of docs/ui/lunr.js finds in a text are its words.
use kubearchive.Prelude.{
  All, Bool-cases, List, Option, [], ap, append-nil, append_assoc, arith, false, if◌then◌else◌, inl,
  inr, length, length-append, ltb, ok, refl, sym, true, ℕ, ◌++◌, ◌+◌, ◌-◌, ◌∙◌, ◌∷◌, ◌≡◌, ◌≢◌, ◌⊎◌,
}
use kubearchive.Text.{Text, is_space, slice, slice-append}
use kubearchive.Metadata.{Metadata, clone}
use kubearchive.Token.{Token, flush, push_token, scan, token_metadata, tokenizer, value}

-- A word with its place: what is not white space, as far as it goes. `word` is what has been read
-- of the word that began at `start`.
pub record Word : Type 0 where
  pub start : ℕ
  pub str : Text

unfoldable pub end_word : ℕ → Text → List Word → List Word
end_word start [] ws = ws
end_word start (c ∷ cs) ws = record { start = start; str = c ∷ cs } ∷ ws

unfoldable pub words : ℕ → Text → Text → List Word
unfolding end_word
words start word [] = end_word start word []
words start word (c ∷ rest) =
    let after = words (start + length word + 1) [] rest in
    let within = words start (word ++ c ∷ []) rest in
    if is_space c then end_word start word after else within

-- The tokens for the words, numbered from `n`.
unfoldable pub word_tokens : Option Metadata → ℕ → List Word → List Token
word_tokens copy n [] = []
word_tokens copy n (w ∷ ws) =
    record { str = w.str; metadata = token_metadata copy w.start (length w.str) n }
    ∷ word_tokens copy (n + 1) ws

-- The word that has just ended comes first, and the others are numbered after it.
word_tokens-end_word :
    (copy : Option Metadata) (start : ℕ) (word : Text) (tokens : List Token) (ws : List Word)
    → let pushed = tokens ++ word_tokens copy (length tokens) (end_word start word []) in
      pushed ++ word_tokens copy (length pushed) ws
      ≡ tokens ++ word_tokens copy (length tokens) (end_word start word ws)
unfolding word_tokens end_word
word_tokens-end_word copy start [] tokens ws = rw (append-nil)
word_tokens-end_word copy start (c ∷ cs) tokens ws = rw (length-append, append_assoc)

module _ (metadata copy : Option Metadata) (cloned : clone metadata ≡ ok copy) where
  flush-end_word :
      (str before word after : Text) (start end : ℕ) (tokens : List Token)
      → str ≡ before ++ (word ++ after)
      → start ≡ length before
      → end ≡ length before + length word
      → flush str metadata start end tokens
        ≡ ok (tokens ++ word_tokens copy (length tokens) (end_word start word []))
  unfolding flush word_tokens end_word
  flush-end_word str before [] after start end tokens e p q =
      let nothing : ltb 0 (end - start) ≡ false = ground arith in rw (nothing, append-nil)
  flush-end_word str before (c ∷ cs) after start end tokens e p q =
      let filled : ltb 0 (end - start) ≡ true = ground arith in
      let size : end - start ≡ length (c ∷ cs) = omega arith in
      let cut : slice str start end ≡ c ∷ cs =
        ap (λ t. slice t start end) e ∙ slice-append before (c ∷ cs) after start end p q in
      rw (filled, cloned, push_token, cut, size)

  scan-words :
      (str before word rest : Text) (start end : ℕ) (tokens : List Token)
      → str ≡ before ++ (word ++ rest)
      → start ≡ length before
      → end ≡ length before + length word
      → scan str metadata rest end start tokens
        ≡ ok (tokens ++ word_tokens copy (length tokens) (words start word rest))
  unfolding scan words
  scan-words str before word [] start end tokens e p q =
      flush-end_word str before word [] start end tokens e p q
  scan-words str before word (c ∷ rest) start end tokens e p q = elim (Bool-cases (is_space c)) [
    | inl separated ↦
        let after : end + 1 ≡ start + length word + 1 = omega arith in
        let flushed = flush-end_word str before word (c ∷ rest) start end tokens e p q in
        let e' : str ≡ (before ++ (word ++ c ∷ [])) ++ ([] ++ rest) =
          rw (append_assoc, append_assoc) e in
        let p' : end + 1 ≡ length (before ++ (word ++ c ∷ [])) =
          omega (arith, length-append before (word ++ c ∷ []), length-append word (c ∷ [])) in
        rw (separated, flushed)
          (scan-words str (before ++ (word ++ c ∷ [])) [] rest (end + 1) (end + 1) _ e' p'
              (omega arith)
            ∙ rw after (ap ok (word_tokens-end_word copy start word tokens _)))
    | inr inside ↦
        let e' : str ≡ before ++ ((word ++ c ∷ []) ++ rest) = rw append_assoc e in
        let q' : end + 1 ≡ length before + length (word ++ c ∷ []) =
          omega (arith, length-append word (c ∷ [])) in
        rw inside (scan-words str before (word ++ c ∷ []) rest start (end + 1) tokens e' p q')
  ]

abbrev pub NoSpace : Text → Type 0
NoSpace [] = Unit
NoSpace (c ∷ cs) = (is_space c ≡ false) × NoSpace cs

NoSpace-concat :
    (word : Text) (c : ℕ) → NoSpace word → is_space c ≡ false → NoSpace (word ++ c ∷ [])
NoSpace-concat [] c h e = (e, tt)
NoSpace-concat (d ∷ word) c h e = (h.0, NoSpace-concat word c h.1 e)

abbrev pub EndsInSpace : Text → Type 0
EndsInSpace t = (t ≡ []) ⊎ ((u : Text) × (c : ℕ) × (t ≡ u ++ c ∷ []) × (is_space c ≡ true))

abbrev pub StartsWithSpace : Text → Type 0
StartsWithSpace [] = Unit
StartsWithSpace (c ∷ _) = is_space c ≡ true

-- A word is a slice of the text without white space, not empty, and what stands before and after
-- it is white space or an end of the text.
pub record IsWord (str : Text) (w : Word) : Type 0 where
  pub before : Text
  pub after : Text
  pub split : str ≡ before ++ (w.str ++ after)
  pub start_lem : w.start ≡ length before
  pub filled : w.str ≢ []
  pub solid : NoSpace w.str
  pub opened : EndsInSpace before
  pub closed : StartsWithSpace after

end_word-IsWord :
    (str before word after : Text) (start : ℕ) (ws : List Word)
    → str ≡ before ++ (word ++ after)
    → start ≡ length before
    → NoSpace word
    → EndsInSpace before
    → StartsWithSpace after
    → All (IsWord str) ws
    → All (IsWord str) (end_word start word ws)
unfolding end_word
end_word-IsWord str before [] after start ws e p h o c rest = rest
end_word-IsWord str before (d ∷ word) after start ws e p h o c rest = (
  record {
    before = before;
    after = after;
    split = e;
    start_lem = p;
    filled = λ nil. cc;
    solid = h;
    opened = o;
    closed = c;
  },
  rest,
)

words-IsWord :
    (str before word rest : Text) (start : ℕ)
    → str ≡ before ++ (word ++ rest)
    → start ≡ length before
    → NoSpace word
    → EndsInSpace before
    → All (IsWord str) (words start word rest)
unfolding words
words-IsWord str before word [] start e p h o =
    end_word-IsWord str before word [] start [] e p h o tt tt
words-IsWord str before word (c ∷ rest) start e p h o = elim (Bool-cases (is_space c)) [
  | inl separated ↦
      let next = before ++ (word ++ c ∷ []) in
      let e' : str ≡ next ++ ([] ++ rest) = rw (append_assoc, append_assoc) e in
      let p' : start + length word + 1 ≡ length next =
        omega (arith, length-append before (word ++ c ∷ []), length-append word (c ∷ [])) in
      let o' : EndsInSpace next =
        inr (before ++ word, c, sym (append_assoc before word (c ∷ [])), separated) in
      rw separated (
        end_word-IsWord str before word (c ∷ rest) start _ e p h o separated
          (words-IsWord str next [] rest _ e' p' tt o'))
  | inr inside ↦
      let e' : str ≡ before ++ ((word ++ c ∷ []) ++ rest) = rw append_assoc e in
      rw inside (
        words-IsWord str before (word ++ c ∷ []) rest start e' p (NoSpace-concat word c h inside) o)
]

-- The text without its white space.
unfoldable pub solid_text : Text → Text
solid_text [] = []
solid_text (c ∷ cs) = if is_space c then solid_text cs else c ∷ solid_text cs

abbrev pub join : List Word → Text
join [] = []
join (w ∷ ws) = w.str ++ join ws

join-end_word :
    (start : ℕ) (word : Text) (ws : List Word) → join (end_word start word ws) ≡ word ++ join ws
unfolding end_word
join-end_word start [] ws = refl
join-end_word start (c ∷ cs) ws = refl

join-words : (start : ℕ) (word rest : Text) → join (words start word rest) ≡ word ++ solid_text rest
unfolding words solid_text
join-words start word [] = join-end_word start word []
join-words start word (c ∷ rest) = elim (Bool-cases (is_space c)) [
  | inl separated ↦ rw (
    separated,
    join-end_word start word (words (start + length word + 1) [] rest),
    join-words (start + length word + 1) [] rest,
  )
  | inr inside ↦ rw (inside, join-words start (word ++ c ∷ []) rest) (append_assoc word (c ∷ []) _)
]

-- If the metadata can be copied, tokenizing a value returns one token for each word of its text in
-- lower case, in order: a token has the copied metadata with the place and length of its word and
-- its own number. The words are the longest slices without white space, and together they are the
-- whole text but for its white space.
pub tokenizer-words :
    (lower : Text → Text) (s : Text) (metadata copy : Option Metadata)
    → clone metadata ≡ ok copy
    → (ws : List Word) × (tokenizer lower (value s) metadata ≡ ok (word_tokens copy 0 ws))
      × All (IsWord (lower s)) ws
      × (join ws ≡ solid_text (lower s))
unfolding tokenizer
tokenizer-words lower s metadata copy cloned =
    let str = lower s in
    (
      words 0 [] str,
      scan-words metadata copy cloned str [] [] str 0 0 [] refl refl refl,
      words-IsWord str [] [] str 0 refl refl tt (inl refl),
      join-words 0 [] str,
    )
