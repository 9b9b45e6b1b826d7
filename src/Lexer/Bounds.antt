-- ===== src/Lexer/Bounds.antt =====
-- The query lexer of docs/ui/lunr.js ends on every text, and where its lexemes stand.
use kubearchive.Text.{Text, is_space}
use kubearchive.Prelude.{
  Bool-cases, List, Option, Option-cases, ap, arith, if-intro, if◌then◌else◌, inl, inr, length, ltb,
  none, refl, some, suc, sym, zero, ℕ, ◌&&◌, ◌*◌, ◌+◌, ◌-◌, ◌<◌, ◌==◌, ◌∙◌, ◌≡◌, ◌≤◌,
}
use kubearchive.Lexer.{
  Lexeme, Lexer, State, backup, boost, edit_distance, emit, escape_character, field, fuel_for,
  ignore, lex, lex_boost, lex_char, lex_edit_distance, lex_eos, lex_field, lex_term, lex_text, more,
  new, presence, run_from, step, term, width,
}
use kubearchive.Lexer.Ordered.{IsValid, Ordered, Ordered-weaken, next-cases}
use kubearchive.Lexer.Moves.{
  at-IsValid, emit-IsValid, emit_pending-IsReady, escape-IsValid, ignore-IsValid,
  lex_digits-IsValid,
}

-- What a state function relies on when it is entered.
abbrev IsReady : Text → State → Lexer → Type 0
IsReady str lex_field l = (l.start < l.pos) × (l.pos ≤ length str)
IsReady str lex_term l = (l.start < l.pos) × (l.pos ≤ length str)
IsReady str lex_edit_distance l = (l.start ≡ l.pos) × (l.pos < length str)
IsReady str lex_boost l = (l.start ≡ l.pos) × (l.pos < length str)
IsReady str _ l = Unit

abbrev weight : State → ℕ
weight lex_text = 1
weight lex_field = 2
weight lex_term = 2
weight _ = 0

measure : Text → State → Lexer → ℕ
measure str s l = 2 * (length str + 1 - l.pos) + weight s

abbrev Falls : Text → ℕ → Option State × Lexer → Type 0
Falls str n (none, l) = Unit
Falls str n (some s, l) = IsReady str s l × (measure str s l < n)

Falls-more :
    (str : Text) (n : ℕ) (l : Lexer)
    → measure str lex_text l < n
    → Falls str n (if more l then some lex_text else none, l)
Falls-more str n l lt = elim (Bool-cases (more l)) [
  | inl rest ↦ rw rest (tt, lt)
  | inr done ↦ rw done tt
]

module _ {str : Text} where
  -- one round of `lexText` on a unit that was just read at `at`
  lex_char-IsValid :
      (c at : ℕ) (l : Lexer)
      → IsValid str l
      → l.start < l.pos
      → at < length str
      → l.pos ≡ at + 1
      → IsValid str (lex_char c l).1 × Falls str (2 * (length str + 1 - at) + 1) (lex_char c l)
  unfolding lex_char measure
  lex_char-IsValid c at l v some_text inside e =
      let (w, s, p) = emit_pending-IsReady v some_text (omega arith) in
      let x = emit-IsValid presence v in
      let Fine = λ (r : Option State × Lexer).
        IsValid str r.1 × Falls str (2 * (length str + 1 - at) + 1) r in
      if-intro Fine (c == 92)
        (escape-IsValid v (omega arith), (tt, unfold escape_character in omega arith))
        (if-intro Fine (c == b':') (v, ((some_text, omega arith), omega arith))
          (if-intro Fine (c == b'~') (w, ((s ∙ sym p, omega arith), omega arith))
            (if-intro Fine (c == b'^') (w, ((s ∙ sym p, omega arith), omega arith))
              (if-intro Fine (c == b'+' && width l == 1) (x, (tt, unfold emit in omega arith))
                (if-intro Fine (c == b'-' && width l == 1) (x, (tt, unfold emit in omega arith))
                  (if-intro Fine (is_space c) (v, ((some_text, omega arith), omega arith))
                    (v, (tt, omega arith))))))))

  step-IsValid :
      (s : State) (l : Lexer)
      → IsValid str l
      → IsReady str s l
      → IsValid str (step s l).1 × Falls str (measure str s l) (step s l)
  unfolding step measure backup
  step-IsValid lex_text l v r = elim (next-cases l) [
    | inl (_, e, e') ↦ rw (e, step, e') (v, (tt, omega arith))
    | inr (c, inside, e, e') ↦
        let fits : l.pos < length str = omega (arith, ap length v.same) in
        let moved = at-IsValid (l.pos + 1) v (omega arith) (omega arith) in
        rw (e, step, e') (lex_char-IsValid c l.pos _ moved (omega arith) fits refl)
  ]
  step-IsValid lex_field l v (some_text, fits) =
      let back = at-IsValid (l.pos - 1) v (omega arith) (omega arith) in
      let sent = emit-IsValid field back in
      let (w, below, exact) = ignore-IsValid sent (unfold emit in omega arith) in
      (w, (tt, unfold emit in omega (arith, exact.0 refl)))
  step-IsValid lex_term l v (some_text, fits) =
      let Fine = λ (m : Lexer).
        IsValid str (ignore m)
        × Falls str (measure str lex_term l)
            (if more (ignore m) then some lex_text else none, ignore m) in
      let back = at-IsValid (l.pos - 1) v (omega arith) (omega arith) in
      let sent = emit-IsValid term back in
      let (w, below, exact) = ignore-IsValid sent (unfold emit in omega arith) in
      let (w', below', exact') = ignore-IsValid v fits in
      if-intro Fine (ltb 1 (width l))
        (w, Falls-more str _ _ (unfold emit in omega (arith, exact.0 refl)))
        (w', Falls-more str _ _ (omega (arith, exact'.1 some_text)))
  step-IsValid lex_edit_distance l v r =
      let (w, up, hi) = lex_digits-IsValid edit_distance v r in (w, (tt, omega arith))
  step-IsValid lex_boost l v r =
      let (w, up, hi) = lex_digits-IsValid boost v r in (w, (tt, omega arith))
  step-IsValid lex_eos l v r = elim (Bool-cases (ltb 0 (width l))) [
    | inl wide ↦ rw wide (emit-IsValid term v, tt)
    | inr empty ↦ rw empty (v, tt)
  ]

  -- With more fuel than the measure the loop of `run` ends.
  run_from-IsValid :
      (fuel : ℕ) (s : State) (l : Lexer)
      → IsValid str l
      → IsReady str s l
      → measure str s l < fuel
      → (l' : Lexer) × (run_from fuel (some s) l ≡ some l') × IsValid str l'
  unfolding run_from
  run_from-IsValid zero s l v r lt = absurd (omega arith)
  run_from-IsValid (suc fuel) s l v r lt =
      let (w, falls) = step-IsValid s l v r in
      elim (Option-cases (step s l).0) [
        | inl done ↦ ((step s l).1, rw (done, run_from), w)
        | inr (s', e) ↦
            let (ready, less) = rw e at falls in
            let (l', run, w') = run_from-IsValid fuel s' (step s l).1 w ready (omega arith) in
            (l', rw (e, run_from) run, w')
      ]

-- The lexer returns on every text. The spans of its lexemes follow one another without overlap,
-- each with its start at or before its end, and the last ends at most one past the text.
pub lex-Ordered :
    (str : Text)
    → (lexemes : List Lexeme) × (lex str ≡ some lexemes) × Ordered 0 lexemes (length str + 1)
unfolding lex new
lex-Ordered str =
    let initial : IsValid str (new str) = record {
      same = refl;
      start-le-pos = omega arith;
      pos_le = omega arith;
      ordered = omega arith;
    } in
    let (l, run, v) =
      run_from-IsValid (fuel_for str) lex_text (new str) initial tt
        (unfold measure in omega arith) in
    (l.lexemes, rw (run, lex), Ordered-weaken 0 l.start _ l.lexemes (omega arith) v.ordered)
