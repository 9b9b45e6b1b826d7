-- ===== src/Lexer/Ordered.antt =====
-- Spans of lexemes in order, and what holds of the lexer of docs/ui/lunr.js between two calls.
use kubearchive.Text.{Text}
use kubearchive.Prelude.{
  Bool-cases, List, [], arith, get_elem?_inside, inl, inr, leb, length, none, some, ℕ, ◌++◌, ◌+◌,
  ◌<◌, ◌∷◌, ◌≡◌, ◌≤◌, ◌⊎◌,
}
use kubearchive.Lexer.{Lexeme, Lexer, next}

-- What `next` returns: the end leaves the lexer alone, a unit moves it by one.
pub next-cases :
    (l : Lexer)
    → ((length l.str ≤ l.pos) × ((next l).0 ≡ none) × ((next l).1 ≡ l))
      ⊎ ((c : ℕ) × (l.pos < length l.str)
          × ((next l).0 ≡ some c)
          × ((next l).1 ≡ record l { pos = l.pos + 1 }))
unfolding next
next-cases l = elim (Bool-cases (leb (length l.str) l.pos)) [
  | inl done ↦ inl (ground arith, rw done, rw done)
  | inr inside ↦
      let (c, at) = get_elem?_inside l.str l.pos (ground arith) in
      inr (c, ground arith, rw (inside, at), rw inside)
]

-- `lo ≤ start ≤ end ≤ …`: the spans follow one another from `lo` to `hi`.
abbrev pub Ordered : ℕ → List Lexeme → ℕ → Type 0
Ordered lo [] hi = lo ≤ hi
Ordered lo (x ∷ xs) hi = (lo ≤ x.start) × (x.start ≤ x.end) × Ordered x.end xs hi

pub Ordered-concat :
    (lo hi : ℕ) (xs : List Lexeme) (x : Lexeme)
    → Ordered lo xs hi
    → x.start ≡ hi
    → hi ≤ x.end
    → Ordered lo (xs ++ x ∷ []) x.end
Ordered-concat lo hi [] x h e le = (omega arith, omega arith, omega arith)
Ordered-concat lo hi (y ∷ xs) x h e le = (h.0, h.1, Ordered-concat y.end hi xs x h.2 e le)

pub Ordered-le : (lo hi : ℕ) (xs : List Lexeme) → Ordered lo xs hi → lo ≤ hi
Ordered-le lo hi [] h = h
Ordered-le lo hi (x ∷ xs) h = omega (arith, Ordered-le x.end hi xs h.2)

pub Ordered-weaken :
    (lo hi hi' : ℕ) (xs : List Lexeme) → hi ≤ hi' → Ordered lo xs hi → Ordered lo xs hi'
Ordered-weaken lo hi hi' [] le h = omega arith
Ordered-weaken lo hi hi' (x ∷ xs) le h = (h.0, h.1, Ordered-weaken x.end hi hi' xs le h.2)

-- Between two calls of a state function on the text `str`.
pub record IsValid (str : Text) (l : Lexer) : Type 0 where
  pub same : l.str ≡ str
  pub start-le-pos : l.start ≤ l.pos
  pub pos_le : l.pos ≤ length str + 1
  pub ordered : Ordered 0 l.lexemes l.start
