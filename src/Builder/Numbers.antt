-- ===== src/Builder/Numbers.antt =====
-- The numbers of the terms in the builder of docs/ui/lunr.js.
use kubearchive.Token.{Token}
use kubearchive.Prelude.{
  All, Bool-cases, List, Option-cases, [], any, ap, arith, if-intro, inl, inr, length, map, none,
  ok, refl, some, suc, sym, true, ℕ, ◌+◌, ◌∙◌, ◌∷◌, ◌≡◌,
}
use kubearchive.Text.{Text, text_eq, text_eq_refl}
use kubearchive.Metadata.{Metadata, get, get-put, put}
use kubearchive.Query.{or_default}
use kubearchive.Builder.{
  Inverted, Kept, Posting, add_entry, count_term, index_term, index_terms, keep_metadata,
  new_posting, with_posting,
}

-- The postings are numbered from `n` on, in the order in which their terms came up.
abbrev pub Numbered : ℕ → List (Text × Posting) → Type 0
Numbered n [] = Unit
Numbered n ((t, p) ∷ rest) = (p.index ≡ n) × Numbered (suc n) rest

-- A posting has every field of the index.
abbrev pub HasFields : List Text → Posting → Type 0
HasFields names p =
    (f : Text)
    → any (λ g. text_eq g f) names ≡ true
    → (docs : List (Text × Kept)) × (get f p.fields ≡ some docs)

abbrev pub AllHaveFields : List Text → List (Text × Posting) → Type 0
AllHaveFields names ps = All (λ (e : Text × Posting). HasFields names e.1) ps

abbrev pub IsNumbered : Inverted → Type 0
IsNumbered inv = Numbered 0 inv.postings × (inv.term_index ≡ length inv.postings)

-- A new term goes to the end.
put-new :
    (t : Text) (p : Posting) (ps : List (Text × Posting)) (n : ℕ)
    → get t ps ≡ none
    → Numbered n ps
    → p.index ≡ n + length ps
    → Numbered n (put t p ps) × (length (put t p ps) ≡ suc (length ps))
unfolding get put
put-new t p [] n e h i = ((omega arith, tt), refl)
put-new t p ((u, q) ∷ ps) n e (here, h) i = elim (Bool-cases (text_eq u t)) [
  | inl hit ↦ let e' = rw hit at e in cc
  | inr miss ↦
      let e' = rw miss at e in
      let (h', l) = put-new t p ps (suc n) e' h (omega arith) in rw miss ((here, h'), ap suc l)
]

-- A posting that is there keeps its place, and its number if the new one has the same.
put-old :
    (t : Text) (p old : Posting) (ps : List (Text × Posting)) (n : ℕ)
    → get t ps ≡ some old
    → Numbered n ps
    → p.index ≡ old.index
    → Numbered n (put t p ps) × (length (put t p ps) ≡ length ps)
unfolding get put
put-old t p old [] n e h i = cc
put-old t p old ((u, q) ∷ ps) n e (here, h) i = elim (Bool-cases (text_eq u t)) [
  | inl hit ↦
      let e' = rw hit at e in
      let same : q ≡ old = cc in
      rw hit ((i ∙ (ap (λ (x : Posting). x.index) (sym same) ∙ here), h), refl)
  | inr miss ↦
      let e' = rw miss at e in
      let (h', l) = put-old t p old ps (suc n) e' h i in rw miss ((here, h'), ap suc l)
]

get-empty_field :
    (f : Text) (gs : List Text)
    → any (λ g. text_eq g f) gs ≡ true
    → (docs : List (Text × Kept)) × (get f (map (λ g. (g, [])) gs) ≡ some docs)
unfolding get
get-empty_field f [] h = cc
get-empty_field f (g ∷ gs) h = elim (Bool-cases (text_eq g f)) [
  | inl hit ↦ ([], rw hit refl)
  | inr miss ↦
      let h' = rw miss at h in let (docs, there) = get-empty_field f gs h' in (docs, rw miss there)
]

new_posting-HasFields : (index : ℕ) (names : List Text) → HasFields names (new_posting index names)
unfolding new_posting
new_posting-HasFields index names f e = get-empty_field f names e

module _ (names : List Text) where
  get-HasFields :
      (t : Text) (p : Posting) (ps : List (Text × Posting))
      → AllHaveFields names ps
      → get t ps ≡ some p
      → HasFields names p
  unfolding get
  get-HasFields t p [] h e = cc
  get-HasFields t p ((u, q) ∷ ps) (here, h) e = elim (Bool-cases (text_eq u t)) [
    | inl hit ↦ let e' = rw hit at e in let same : q ≡ p = cc in rw same at here
    | inr miss ↦ let e' = rw miss at e in get-HasFields t p ps h e'
  ]

  put-AllHaveFields :
      (t : Text) (p : Posting) (ps : List (Text × Posting))
      → AllHaveFields names ps
      → HasFields names p
      → AllHaveFields names (put t p ps)
  unfolding put
  put-AllHaveFields t p [] h k = (k, tt)
  put-AllHaveFields t p ((u, q) ∷ ps) (here, h) k =
      if-intro (AllHaveFields names) (text_eq u t) (k, h) (here, put-AllHaveFields t p ps h k)

  abbrev pub IsIndex : Inverted → Type 0
  IsIndex inv = IsNumbered inv × AllHaveFields names inv.postings

  with_posting-IsIndex :
      (t : Text) (inv : Inverted)
      → IsIndex inv
      → IsIndex (with_posting names t inv).1
        × (get t (with_posting names t inv).1.postings ≡ some (with_posting names t inv).0)
  unfolding with_posting
  with_posting-IsIndex t inv ((numbered, size), fields) = elim (Option-cases (get t inv.postings)) [
    | inr (p, there) ↦ rw (there, with_posting) ((((numbered, size), fields), there))
    | inl absent ↦
        let p = new_posting inv.term_index names in
        let (numbered', size') =
          put-new t p inv.postings 0 absent numbered (unfold new_posting in omega arith) in
        rw (absent, with_posting)
          (
            (
              (numbered', omega arith),
              put-AllHaveFields t p inv.postings fields
                  (new_posting-HasFields inv.term_index names),
            ),
            rw (get-put, text_eq_refl t) refl,
          )
  ]

  add_entry-HasFields :
      (whitelist : List Text) (metadata : Metadata) (field_name doc_ref : Text) (p : Posting)
      → any (λ g. text_eq g field_name) names ≡ true
      → HasFields names p
      → (p' : Posting) × (add_entry whitelist metadata field_name doc_ref p ≡ ok p')
        × (p'.index ≡ p.index)
        × HasFields names p'
  unfolding add_entry
  add_entry-HasFields whitelist metadata field_name doc_ref p known h =
      let (docs, there) = h field_name known in
      let kept = keep_metadata whitelist metadata (or_default (get doc_ref docs) []) in
      let p' : Posting = record p { fields = put field_name (put doc_ref kept docs) p.fields } in
      (
        p',
        rw (there, add_entry) refl,
        refl,
        λ f k. elim (Bool-cases (text_eq field_name f)) [
          | inl hit ↦ (put doc_ref kept docs, rw (get-put, hit) refl)
          | inr miss ↦ let (ds, e) = h f k in (ds, rw (get-put, miss) e)
        ],
      )

  index_term-IsIndex :
      (whitelist : List Text) (field_name doc_ref : Text) (term : Token) (inv : Inverted)
      → any (λ g. text_eq g field_name) names ≡ true
      → IsIndex inv
      → (inv' : Inverted) × (index_term names whitelist field_name doc_ref term inv ≡ ok inv')
        × IsIndex inv'
  unfolding index_term
  index_term-IsIndex whitelist field_name doc_ref term inv known h =
      let (((numbered, size), fields), there) = with_posting-IsIndex term.str inv h in
      let (p, next) = with_posting names term.str inv in
      let (p', added, same, k) =
        add_entry-HasFields whitelist term.metadata field_name doc_ref p known
          (get-HasFields term.str p next.postings fields there) in
      let (numbered', size') = put-old term.str p' p next.postings 0 there numbered same in
      (
        record next { postings = put term.str p' next.postings },
        rw added refl,
        ((numbered', size ∙ sym size'), put-AllHaveFields term.str p' next.postings fields k),
      )

  -- Adding the terms of a field that the index has never throws, as long as every posting has every
  -- field, and this stays so. The postings stay numbered from 0 in the order in which their terms
  -- came up, with `termIndex` as the next number.
  pub index_terms-IsIndex :
      (whitelist : List Text) (field_name doc_ref : Text) (terms : List Token)
      (counts : List (Text × ℕ)) (inv : Inverted)
      → any (λ g. text_eq g field_name) names ≡ true
      → IsIndex inv
      → (counts' : List (Text × ℕ)) × (inv' : Inverted) × (index_terms names whitelist field_name
            doc_ref terms counts inv
          ≡ ok (counts', inv'))
        × IsIndex inv'
  unfolding index_terms
  index_terms-IsIndex whitelist field_name doc_ref [] counts inv known h = (counts, inv, refl, h)
  index_terms-IsIndex whitelist field_name doc_ref (term ∷ terms) counts inv known h =
      let (next, done, h') = index_term-IsIndex whitelist field_name doc_ref term inv known h in
      let (counts', inv', later, h'') =
        index_terms-IsIndex whitelist field_name doc_ref terms (count_term term.str counts) next
          known h' in
      (counts', inv', rw done later, h'')
