-- ===== src/Token.antt =====
-- lunr.Token and lunr.tokenizer of docs/ui/lunr.js, with the separator `/\s+/` that it and
-- docs/extensions/lunr-patch.js set.
use kubearchive.Prelude.{
  List, Option, Result, [], if◌then◌else◌, length, ltb, none, ok, some, ℕ, ◌++◌, ◌+◌, ◌-◌, ◌>>=◌,
  ◌∷◌,
}
use kubearchive.Text.{Text, is_space, lit, slice}
use kubearchive.Metadata.{CloneError, Metadata, as_string, clone, number, numbers, put}
pub mod Words
mod Tests

pub record Token : Type 0 where
  pub str : Text
  pub metadata : Metadata

-- `metadata || {}`.
abbrev pub or_empty : Option Metadata → Metadata
or_empty none = []
or_empty (some m) = m

unfoldable pub update : (Text → Metadata → Text) → Token → Token
update fn t = record t { str = fn t.str t.metadata }

unfoldable pub clone_token : (Text → Metadata → Text) → Token → Token
clone_token fn t = record { str = fn t.str t.metadata; metadata = t.metadata }

-- What is tokenized: nothing, an array whose items may be missing, or a value with a `toString`.
pub data Input : Type 0 where
  missing : Input
  items : List (Option Text) → Input
  value : Text → Input

-- The object of a token in a text: the copy of the metadata, with its place and number.
unfoldable pub token_metadata : Option Metadata → ℕ → ℕ → ℕ → Metadata
token_metadata copy start len index =
    put (lit "index") (number index)
      (put (lit "position") (numbers (start ∷ len ∷ [])) (or_empty copy))

unfoldable pub push_token :
    Text → Option Metadata → ℕ → ℕ → List Token → Result CloneError (List Token)
unfolding token_metadata
push_token str metadata slice_start slice_end tokens = do
  copy ← clone metadata
  ok (
      tokens
      ++ record {
        str = slice str slice_start slice_end;
        metadata = token_metadata copy slice_start (slice_end - slice_start) (length tokens);
      }
        ∷ [])

-- The slice between two separators is pushed if there is anything in it.
unfoldable pub flush : Text → Option Metadata → ℕ → ℕ → List Token → Result CloneError (List Token)
unfolding push_token
flush str metadata slice_start slice_end tokens =
    if ltb 0 (slice_end - slice_start)
    then push_token str metadata slice_start slice_end tokens
    else ok tokens

-- The `for` loop over `rest`, which is `str` from `slice_end` on. At the end of the text `char` is
-- the empty string, and the slice is flushed there too.
unfoldable pub scan :
    Text → Option Metadata → Text → ℕ → ℕ → List Token → Result CloneError (List Token)
unfolding flush is_space
scan str metadata [] slice_end slice_start tokens = flush str metadata slice_start slice_end tokens
scan str metadata (c ∷ rest) slice_end slice_start tokens = do
  let separated = is_space c
  let start' = if separated then slice_end + 1 else slice_start
  tokens' ← if separated then flush str metadata slice_start slice_end tokens else ok tokens
  scan str metadata rest (slice_end + 1) start' tokens'

-- `lower` is `toLowerCase`, whose table is the host's.
module _ (lower : Text → Text) where
  unfoldable pub item_tokens : Option Metadata → List (Option Text) → Result CloneError (List Token)
  item_tokens metadata [] = ok []
  item_tokens metadata (t ∷ ts) = do
    copy ← clone metadata
    rest ← item_tokens metadata ts
    ok (record { str = lower (as_string t); metadata = or_empty copy } ∷ rest)

  unfoldable pub tokenizer : Input → Option Metadata → Result CloneError (List Token)
  unfolding item_tokens scan
  tokenizer missing metadata = ok []
  tokenizer (items ts) metadata = item_tokens metadata ts
  tokenizer (value s) metadata = let str = lower s in scan str metadata str 0 0 []
