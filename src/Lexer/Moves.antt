-- ===== src/Lexer/Moves.antt =====
-- The operations of the lexer of docs/ui/lunr.js keep its spans in order.
use kubearchive.Text.{Text}
use kubearchive.Prelude.{
  Bool-cases, ap, arith, inl, inr, length, ltb, refl, suc, true, zero, ℕ, ◌+◌, ◌-◌, ◌<◌, ◌==◌, ◌≡◌,
  ◌≤◌,
}
use kubearchive.Lexer.{
  LexemeType, Lexer, accept_digit_run, backup, emit, emit_pending, escape_character, ignore,
  is_digit, lex_digits, term, width,
}
use kubearchive.Lexer.Ordered.{IsValid, Ordered-concat, Ordered-weaken, next-cases}

module _ {str : Text} where
  pub emit-IsValid : {l : Lexer} (type : LexemeType) → IsValid str l → IsValid str (emit type l)
  unfolding emit
  emit-IsValid {l} type v = record {
    same = v.same;
    start-le-pos = omega arith;
    pos_le = v.pos_le;
    ordered = Ordered-concat 0 l.start l.lexemes _ v.ordered refl v.start-le-pos;
  }

  -- a move of `pos`, and of `start` to it
  pub moved-IsValid :
      {l : Lexer} (p : ℕ)
      → IsValid str l
      → l.start ≤ p
      → p ≤ length str + 1
      → IsValid str (record l { pos = p; start = p })
  moved-IsValid {l} p v le hi = record {
    same = v.same;
    start-le-pos = omega arith;
    pos_le = hi;
    ordered = Ordered-weaken 0 l.start p l.lexemes le v.ordered;
  }

  pub at-IsValid :
      {l : Lexer} (p : ℕ)
      → IsValid str l
      → l.start ≤ p
      → p ≤ length str + 1
      → IsValid str (record l { pos = p })
  at-IsValid p v le hi = record {
    same = v.same;
    start-le-pos = le;
    pos_le = hi;
    ordered = v.ordered;
  }

  -- `emit_pending` steps back onto the character, and leaves nothing before it
  pub emit_pending-IsReady :
      {l : Lexer}
      → IsValid str l
      → l.start < l.pos
      → l.pos ≤ length str
      → IsValid str (emit_pending l)
        × ((emit_pending l).start ≡ l.pos - 1)
        × ((emit_pending l).pos ≡ l.pos - 1)
  unfolding emit_pending backup width emit
  emit_pending-IsReady {l} v h k =
      let back = at-IsValid (l.pos - 1) v (omega arith) (omega arith) in
      elim (Bool-cases (ltb 0 (l.pos - 1 - l.start))) [
        | inl some_width ↦ rw some_width (unfold emit in emit-IsValid term back, refl, refl)
        | inr no_width ↦ rw no_width (back, ground arith, refl)
      ]

  pub digit_run-IsValid :
      (fuel : ℕ) (l : Lexer)
      → IsValid str l
      → l.pos ≤ length str
      → IsValid str (accept_digit_run fuel l)
        × (l.pos ≤ (accept_digit_run fuel l).pos)
        × ((accept_digit_run fuel l).pos ≤ length str)
  unfolding accept_digit_run backup
  digit_run-IsValid zero l v h = (v, omega arith, h)
  digit_run-IsValid (suc fuel) l v h = elim (next-cases l) [
    | inl (_, e, e') ↦ rw (e, accept_digit_run, e') (v, omega arith, h)
    | inr (c, inside, e, e') ↦
        let fits : l.pos < length str = omega (arith, ap length v.same) in
        let moved = at-IsValid (l.pos + 1) v (omega arith) (omega arith) in
        rw (e, accept_digit_run, e')
          (elim (Bool-cases (is_digit c)) [
            | inl digit ↦
                let (w, below, above) =
                  digit_run-IsValid fuel (record l { pos = l.pos + 1 }) moved (omega arith) in
                rw digit (w, omega arith, above)
            | inr stop ↦
                rw stop (
                  at-IsValid (l.pos + 1 - 1) v (omega arith) (omega arith),
                  omega arith,
                  omega arith,
                )
          ])
  ]

  pub lex_digits-IsValid :
      {l : Lexer} (type : LexemeType)
      → IsValid str l
      → (l.start ≡ l.pos) × (l.pos < length str)
      → IsValid str (lex_digits type l)
        × (l.pos < (lex_digits type l).pos)
        × ((lex_digits type l).pos ≤ length str)
  unfolding lex_digits ignore emit
  lex_digits-IsValid {l} type v (e, inside) =
      let moved = moved-IsValid (l.pos + 1) v (omega arith) (omega arith) in
      let at_pos : (l.start == l.pos) ≡ true = ground arith in
      let (w, below, above) = digit_run-IsValid (length l.str) _ moved (omega arith) in
      rw at_pos (unfold emit in emit-IsValid type w, omega arith, omega arith)

  pub ignore-IsValid :
      {l : Lexer}
      → IsValid str l
      → l.pos ≤ length str
      → IsValid str (ignore l)
        × (l.pos ≤ (ignore l).pos)
        × ((l.start ≡ l.pos → (ignore l).pos ≡ l.pos + 1)
            × (l.start < l.pos → (ignore l).pos ≡ l.pos))
  unfolding ignore
  ignore-IsValid {l} v fits = elim (Bool-cases (l.start == l.pos)) [
    | inl same ↦ rw same (
      moved-IsValid (l.pos + 1) v (omega arith) (omega arith),
      omega arith,
      (λ _. refl, λ lt. ground arith),
    )
    | inr differ ↦ rw differ (
      moved-IsValid l.pos v (omega arith) (omega arith),
      omega arith,
      (λ e. ground arith, λ _. refl),
    )
  ]

  pub escape-IsValid :
      {l : Lexer} → IsValid str l → l.pos ≤ length str → IsValid str (escape_character l)
  unfolding escape_character
  escape-IsValid {l} v h = record {
    same = v.same;
    start-le-pos = omega arith;
    pos_le = omega arith;
    ordered = v.ordered;
  }
