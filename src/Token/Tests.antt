-- ===== src/Token/Tests.antt =====
-- lunr.tokenizer of docs/ui/lunr.js at concrete inputs: it does not split on hyphens.
use kubearchive.Prelude.{All, List, Option, [], none, ok, refl, some, ◌∷◌, ◌≡◌}
use kubearchive.Text.{is_space, lit}
use kubearchive.Metadata.{Metadata, as_string, clone, clone_onto, put, text}
use kubearchive.Token.{items, tokenizer, value}
use kubearchive.Token.Words.{IsWord, Word, join, solid_text, tokenizer-words, word_tokens, words}

tokens : Unit {0}
unfolding tokenizer clone solid_text word_tokens words is_space as_string put
tokens = tt

abbrev title : Option Metadata
title = some ((lit "field", text (lit "title")) ∷ [])

two_words :
    tokenizer (λ s. s) (value (lit " kube-archive  ui")) none
    ≡ ok (
        word_tokens none 0 (
          record { start = 1; str = lit "kube-archive" }
          ∷ record { start = 15; str = lit "ui" }
          ∷ []))
unfolding tokens
two_words = refl

array_items :
    tokenizer (λ s. s) (items (some (lit "a b") ∷ none ∷ [])) none
    ≡ ok (record { str = lit "a b"; metadata = [] } ∷ record { str = []; metadata = [] } ∷ [])
unfolding tokens
array_items = refl

tokenizer-words_example :
    (ws : List Word) × (tokenizer (λ s. s) (value (lit "kube-archive ui")) title
      ≡ ok (word_tokens title 0 ws))
    × All (IsWord (lit "kube-archive ui")) ws
    × (join ws ≡ solid_text (lit "kube-archive ui"))
unfolding clone_onto put clone
tokenizer-words_example = tokenizer-words (λ s. s) (lit "kube-archive ui") title title refl
