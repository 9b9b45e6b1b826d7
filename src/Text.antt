-- ===== src/Text.antt =====
-- JavaScript strings as lists of UTF-16 code units: comparison, slices, and the character classes
-- of the regular expressions in docs/ui/lunr.js.
use Prim.Native.Char.{code}
use Prim.Native.String.{String}
use kubearchive.Prelude.{
  Bool, List, [], arith, drop, drop-append, false, leb, length, refl, take, take-append, true, ℕ,
  ◌&&◌, ◌++◌, ◌+◌, ◌-◌, ◌==◌, ◌||◌, ◌↔◌, ◌∷◌, ◌≡◌,
}

abbrev pub Text : Type 0
Text = List ℕ

-- An ASCII literal of the source.
abbrev pub lit : String → Text
lit String.[] = []
lit (String.◌∷◌ c s) = code c ∷ lit s

-- `===` on strings.
abbrev pub text_eq : Text → Text → Bool
text_eq [] [] = true
text_eq (x ∷ xs) (y ∷ ys) = x == y && text_eq xs ys
text_eq _ _ = false

pub text_eq_iff : (s t : Text) → (text_eq s t ≡ true) ↔ (s ≡ t)
text_eq_iff [] [] = (λ _. refl, λ _. refl)
text_eq_iff (x ∷ xs) (y ∷ ys) = ground (arith, text_eq_iff xs ys)
text_eq_iff [] (y ∷ ys) = ground arith
text_eq_iff (x ∷ xs) [] = ground arith

pub text_eq_refl : (s : Text) → text_eq s s ≡ true
text_eq_refl s = (text_eq_iff s s).1 refl

-- `str.slice(from, to)` for indices that are not negative.
abbrev pub slice : Text → ℕ → ℕ → Text
slice s from to = take (to - from) (drop from s)

-- The middle of a text is the slice between the lengths.
pub slice-append :
    (a b c : Text) (i j : ℕ)
    → i ≡ length a
    → j ≡ length a + length b
    → slice (a ++ (b ++ c)) i j ≡ b
slice-append a b c i j p q =
    let e : j - i ≡ length b = omega arith in rw (e, p, drop-append a (b ++ c)) (take-append b c)

-- `\s` of a regular expression without flags.
unfoldable pub is_space : ℕ → Bool
is_space c =
    leb 9 c && leb c 13
    || c == 32
    || c == 0xa0
    || c == 0x1680
    || leb 0x2000 c && leb c 0x200a
    || c == 0x2028
    || c == 0x2029
    || c == 0x202f
    || c == 0x205f
    || c == 0x3000
    || c == 0xfeff

-- `\w`; its complement is `\W`.
unfoldable pub is_word : ℕ → Bool
is_word c =
    leb b'a' c && leb c b'z' || leb b'A' c && leb c b'Z' || leb b'0' c && leb c b'9' || c == b'_'
