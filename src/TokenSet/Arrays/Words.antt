-- ===== src/TokenSet/Arrays/Words.antt =====
-- The words that `toArray` of docs/ui/lunr.js returns.
use kubearchive.TokenSet.Patterns.{HasEdge}
use kubearchive.TokenSet.Spelled.{HasHeight, IsIn, IsIn-append, Spells}
use kubearchive.Prelude.{
  All, Bool-cases, List, [], ap, append-nil, append_assoc, arith, false, if◌then◌else◌, inl, inr,
  refl, some, suc, sym, true, zero, ℕ, ◌++◌, ◌+◌, ◌↔◌, ◌∙◌, ◌∷◌, ◌≡◌, ◌⊎◌,
}
use kubearchive.Text.{Text}
use kubearchive.TokenSet.{Store}
use kubearchive.TokenSet.Patterns.{HasEdge}
use kubearchive.TokenSet.Spelled.{HasHeight, IsIn, IsIn-append, Spells}
use kubearchive.TokenSet.Arrays.{Prefixed, push_edges, to_array, to_array_frames}

push_edges-append :
    (p : Text) (es : List (ℕ × ℕ)) (new rest : List Prefixed)
    → push_edges p es (new ++ rest) ≡ push_edges p es new ++ rest
unfolding push_edges
push_edges-append p [] new rest = refl
push_edges-append p ((c, id) ∷ es) new rest = push_edges-append p es ((p ++ c ∷ [], id) ∷ new) rest

module _ (s : Store) where
  abbrev HaveHeight : ℕ → List Prefixed → Type 0
  HaveHeight h frames = All (λ (f : Prefixed). HasHeight h s f.1) frames

  -- The words that the frames still give.
  abbrev Pending : List Prefixed → Text → Type 0
  Pending [] w = ⊥
  Pending ((p, node) ∷ frames) w = ((v : Text) × (p ++ v ≡ w) × Spells s node v) ⊎ Pending frames w

  -- The words behind some edges.
  abbrev BehindEdges : Text → List (ℕ × ℕ) → Text → Type 0
  BehindEdges p es w =
      (c : ℕ) × (id : ℕ) × (v : Text) × HasEdge c id es × (p ++ c ∷ v ≡ w) × Spells s id v

  push_edges-HaveHeight :
      (p : Text) (h : ℕ) (es : List (ℕ × ℕ)) (frames : List Prefixed)
      → ((c id : ℕ) → HasEdge c id es → HasHeight h s id)
      → HaveHeight h frames
      → HaveHeight h (push_edges p es frames)
  unfolding push_edges
  push_edges-HaveHeight p h [] frames below all_below = all_below
  push_edges-HaveHeight p h ((c, id) ∷ es) frames below all_below =
      push_edges-HaveHeight p h es _ (λ d i e. below d i (inr e))
        (below c id (inl (refl, refl)), all_below)

  push_edges-Pending :
      (p : Text) (es : List (ℕ × ℕ)) (frames : List Prefixed) (w : Text)
      → Pending (push_edges p es frames) w ↔ (BehindEdges p es w ⊎ Pending frames w)
  unfolding push_edges
  push_edges-Pending p [] frames w = (
    λ h. inr h,
    λ h. elim h [ inl (c, id, v, edge, e, spelled) ↦ absurd edge | inr later ↦ later ],
  )
  push_edges-Pending p ((c, id) ∷ es) frames w =
      let (forth, back) = push_edges-Pending p es ((p ++ c ∷ [], id) ∷ frames) w in
      (
        λ h. elim (forth h) [
          | inl (d, i, v, edge, e, spelled) ↦ inl (d, i, v, inr edge, e, spelled)
          | inr (inl (v, e, spelled)) ↦
              inl (c, id, v, inl (refl, refl), sym (append_assoc p (c ∷ []) v) ∙ e, spelled)
          | inr (inr later) ↦ inr later
        ],
        λ h. back (elim h [
          | inl (d, i, v, inl (same, at), e, spelled) ↦
              inr (inl (v, append_assoc p (c ∷ []) v ∙ rw same at e, rw at at spelled))
          | inl (d, i, v, inr edge, e, spelled) ↦ inl (d, i, v, edge, e, spelled)
          | inr later ↦ inr (inr later)
        ]),
      )

  found : Text → ℕ → List Text → List Text
  found p node words = if (s.nodes node).final then words ++ p ∷ [] else words

  -- A frame gives its prefix, if its node is final, and the words behind its edges.
  found-IsIn :
      (p : Text) (node : ℕ) (words : List Text) (w : Text)
      → (IsIn w (found p node words) ⊎ BehindEdges p (s.nodes node).edges w)
        ↔ (IsIn w words ⊎ ((v : Text) × (p ++ v ≡ w) × Spells s node v))
  unfolding found
  found-IsIn p node words w =
      let behind : BehindEdges p (s.nodes node).edges w
          → (v : Text) × (p ++ v ≡ w) × Spells s node v =
        λ (c, id, v, edge, e, spelled). (c ∷ v, e, (id, edge, spelled)) in
      elim (Bool-cases (s.nodes node).final) [
        | inl final ↦
            let (forth, back) = IsIn-append w words (p ∷ []) in
            rw final (
              λ h. elim h [
                | inl here ↦ elim (forth here) [
                  | inl old ↦ inl old
                  | inr (inl same) ↦ inr ([], append-nil p ∙ sym same, final)
                  | inr (inr no_word) ↦ absurd no_word
                ]
                | inr later ↦ inr (behind later)
              ],
              λ h. elim h [
                | inl old ↦ inl (back (inl old))
                | inr ([], e, spelled) ↦ inl (back (inr (inl (sym e ∙ append-nil p))))
                | inr (c ∷ v, e, (id, edge, spelled)) ↦ inr (c, id, v, edge, e, spelled)
              ],
            )
        | inr inner ↦ rw inner (
          λ h. elim h [ inl old ↦ inl old | inr later ↦ inr (behind later) ],
          λ h. elim h [
            | inl old ↦ inl old
            | inr ([], e, spelled) ↦ let both : true ≡ false = sym spelled ∙ inner in cc
            | inr (c ∷ v, e, (id, edge, spelled)) ↦ inr (c, id, v, edge, e, spelled)
          ],
        )
      ]

  -- The loop has worked off the frames above others.
  abbrev Drains : List Prefixed → List Prefixed → List Text → Type 0
  Drains frames others words =
      (k : ℕ) × (words' : List Text) × ((fuel : ℕ)
        → to_array_frames (k + fuel) s (frames ++ others) words
          ≡ to_array_frames fuel s others words')
      × ((w : Text) → IsIn w words' ↔ (IsIn w words ⊎ Pending frames w))

  Drains-step :
      (p : Text) (node : ℕ) (frames others : List Prefixed) (words : List Text)
      → Drains (push_edges p (s.nodes node).edges []) (frames ++ others) (found p node words)
      → ((words' : List Text) → Drains frames others words')
      → Drains ((p, node) ∷ frames) others words
  unfolding to_array_frames found
  Drains-step p node frames others words (k, words1, run, given) later =
      let (k', words2, run', given') = later words1 in
      let edges = (s.nodes node).edges in
      (
        suc (k + k'),
        words2,
        λ fuel.
            let count : suc (k + k') + fuel ≡ suc (k + (k' + fuel)) = omega arith in
            rw count (
              ap (λ st. to_array_frames (k + (k' + fuel)) s st (found p node words))
                (push_edges-append p edges [] (frames ++ others))
              ∙ run (k' + fuel)
              ∙ run' fuel),
        λ w.
            let (forth', back') = given' w in
            let (forth, back) = given w in
            let (pend, unpend) = push_edges-Pending p edges [] w in
            let (find, unfind) = found-IsIn p node words w in
            (
              λ h. elim (forth' h) [
                | inl first ↦ elim (forth first) [
                  | inl old ↦ elim (find (inl old)) [ inl a ↦ inl a | inr b ↦ inr (inl b) ]
                  | inr pending ↦ elim (pend pending) [
                    | inl behind ↦ elim (find (inr behind)) [ inl a ↦ inl a | inr b ↦ inr (inl b) ]
                    | inr no_frame ↦ absurd no_frame
                  ]
                ]
                | inr rest ↦ inr (inr rest)
              ],
              λ h.
                  let first : (IsIn w words ⊎ ((v : Text) × (p ++ v ≡ w) × Spells s node v))
                      → IsIn w words1 =
                    λ g. back (elim (unfind g) [ inl a ↦ inl a | inr b ↦ inr (unpend (inl b)) ]) in
                  back' (elim h [
                    | inl old ↦ inl (first (inl old))
                    | inr (inl here) ↦ inl (first (inr here))
                    | inr (inr rest) ↦ inr rest
                  ]),
            ),
      )

  Drains-nil : (others : List Prefixed) (words : List Text) → Drains [] others words
  Drains-nil others words = (
    0,
    words,
    λ fuel. let e : 0 + fuel ≡ fuel = omega arith in rw e refl,
    λ w. (λ h. inl h, λ h. elim h [ inl a ↦ a | inr b ↦ absurd b ]),
  )

  drain :
      (h : ℕ) (frames others : List Prefixed) (words : List Text)
      → HaveHeight h frames
      → Drains frames others words
  unfolding push_edges
  drain h [] others words high = Drains-nil others words
  drain zero ((p, node) ∷ frames) others words (high, rest) = absurd high
  drain (suc h) ((p, node) ∷ frames) others words (high, rest) =
      Drains-step p node frames others words
        (drain h (push_edges p (s.nodes node).edges []) (frames ++ others) _
          (push_edges-HaveHeight p h (s.nodes node).edges [] high tt))
        (λ words'. drain (suc h) frames others words' rest)

-- If every path from the node has fewer than `h` edges, `toArray` returns for some amount of fuel, and then
-- for more, the words that the node spells, and no others.
pub to_array-Spells :
    (s : Store) (h node : ℕ)
    → HasHeight h s node
    → (k : ℕ) × (words : List Text) × ((fuel : ℕ) → to_array (suc k + fuel) node s ≡ some words)
      × ((w : Text) → IsIn w words ↔ Spells s node w)
unfolding to_array to_array_frames
to_array-Spells s h node high =
    let (k, words, run, given) = drain s h (([], node) ∷ []) [] [] (high, tt) in
    (
      k,
      words,
      λ fuel. let count : suc k + fuel ≡ k + suc fuel = omega arith in rw count (run (suc fuel)),
      λ w.
          let (forth, back) = given w in
          (
            λ h. elim (forth h) [
              | inl no_word ↦ absurd no_word
              | inr (inl (v, e, spelled)) ↦ rw e at spelled
              | inr (inr no_frame) ↦ absurd no_frame
            ],
            λ spelled. back (inr (inl (w, refl, spelled))),
          ),
    )
