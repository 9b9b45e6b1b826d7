-- ===== src/Builder/Vectors.antt =====
-- The vector that the builder of docs/ui/lunr.js makes of the terms of a field.
use kubearchive.Vector.Upsert.{insert-lookup, vector}
use kubearchive.Builder.Scores.{Arithmetic, Scoring, cached_idf, idf, score_of, score_terms}
use kubearchive.Vector.Sparse.{Ascends, Bounded, lookup}
use kubearchive.Vector.{Number, Vector, insert}
use kubearchive.Prelude.{
  ==_iff, ==_refl, Bool-cases, List, [], ap, arith, false, if◌then◌else◌, inl, inr, length, none,
  ok, refl, some, suc, sym, true, ℕ, ◌==◌, ◌∙◌, ◌∷◌, ◌≡◌, ◌≤◌, ◌⊎◌,
}
use kubearchive.Text.{Text, text_eq, text_eq_iff}
use kubearchive.Metadata.{get, get-put}
use kubearchive.Builder.{Inverted, Posting}
use kubearchive.Builder.Numbers.{IsNumbered}
use kubearchive.Builder.Apart.{Numbered-apart, Numbered-from}

module _ (num : Number) (arithmetic : Arithmetic num) (inv : Inverted)
    (is_numbered : IsNumbered inv) where
  open num use {F, exact, of_nat}

  -- The term has a posting, whose number is not yet an index of the vector.
  abbrev pub IsNew : List (ℕ × F) → Text → Type 0
  IsNew qs t = (p : Posting) × (get t inv.postings ≡ some p) × (lookup p.index qs ≡ none)

  -- The terms are different ones, and all of them new.
  abbrev pub AreNew : List (ℕ × F) → List (Text × ℕ) → Type 0
  AreNew qs [] = Unit
  AreNew qs ((t, tf) ∷ rest) = (get t rest ≡ none) × IsNew qs t × AreNew qs rest

  -- Every term has its score, by its own inverse frequency, under its number.
  abbrev pub HaveScores : Scoring num arithmetic → ℕ → List (ℕ × F) → List (Text × ℕ) → Type 0
  HaveScores s n qs [] = Unit
  HaveScores s n qs ((t, tf) ∷ rest) =
      ((p : Posting) × (get t inv.postings ≡ some p)
        × (lookup p.index qs ≡ some (score_of num arithmetic s (idf num arithmetic p n) tf)))
      × HaveScores s n qs rest

  -- What is cached for a term of the index is its inverse frequency.
  abbrev pub CacheHolds : ℕ → List (Text × F) → Type 0
  CacheHolds n cache =
      (t : Text) (p : Posting)
      → get t inv.postings ≡ some p
      → (get t cache ≡ none) ⊎ (get t cache ≡ some (idf num arithmetic p n))

  cached_idf-CacheHolds :
      (t : Text) (p : Posting) (n : ℕ) (cache : List (Text × F))
      → get t inv.postings ≡ some p
      → CacheHolds n cache
      → ((cached_idf num arithmetic t p n cache).0 ≡ idf num arithmetic p n)
        × CacheHolds n (cached_idf num arithmetic t p n cache).1
  unfolding cached_idf
  cached_idf-CacheHolds t p n cache e holds = elim (holds t p e) [
    | inr hit ↦ rw (cached_idf, hit) (refl, holds)
    | inl miss ↦
        rw (cached_idf, miss)
          (
            refl,
            λ u q f. elim (Bool-cases (text_eq t u)) [
              | inl same ↦
                  let i : t ≡ u = (text_eq_iff t u).0 same in
                  let j : get t inv.postings ≡ some q = rw i f in
                  let k : some p ≡ some q = sym e ∙ j in
                  let l : p ≡ q = cc in
                  inr (rw (get-put, same) (ap (λ x. some (idf num arithmetic x n)) l))
              | inr other ↦ rw (get-put, other) (holds u q f)
            ],
          )
  ]

  AreNew-put :
      (t : Text) (p : Posting) (value : F) (qs qs' : List (ℕ × F)) (rest : List (Text × ℕ))
      → get t inv.postings ≡ some p
      → ((j : ℕ) → lookup j qs' ≡ (if p.index == j then some value else lookup j qs))
      → get t rest ≡ none
      → AreNew qs rest
      → AreNew qs' rest
  unfolding get
  AreNew-put t p value qs qs' [] e looked other h = tt
  AreNew-put t p value qs qs' ((u, tf) ∷ rest) e looked other (fresh, (q, f, absent), h) =
      elim (Bool-cases (text_eq u t)) [
        | inl hit ↦ let other' = rw hit at other in cc
        | inr miss ↦
            let other' = rw miss at other in
            let apart : (p.index == q.index) ≡ false = elim (Bool-cases (p.index == q.index)) [
              | inl equal ↦
                  let i : q.index ≡ p.index = sym ((==_iff p.index q.index).0 equal) in
                  let both : true ≡ false =
                    sym (Numbered-apart 0 u t q p inv.postings is_numbered.0 f e i) ∙ miss in
                  cc
              | inr differ ↦ differ
            ] in
            (
              fresh,
              (q, f, looked q.index ∙ rw apart absent),
              AreNew-put t p value qs qs' rest e looked other' h,
            )
      ]

  lookup-kept :
      (k j : ℕ) (value score : F) (qs qs' : List (ℕ × F))
      → lookup k qs ≡ none
      → lookup j qs ≡ some value
      → lookup j qs' ≡ (if k == j then some score else lookup j qs)
      → lookup j qs' ≡ some value
  lookup-kept k j value score qs qs' absent f looked = elim (Bool-cases (k == j)) [
    | inl equal ↦
        let i : k ≡ j = (==_iff k j).0 equal in
        let both : none ≡ some value = sym absent ∙ rw i f in cc
    | inr differ ↦ looked ∙ rw differ f
  ]

  score_terms-step :
      (s : Scoring num arithmetic) (n : ℕ) (t : Text) (tf : ℕ) (rest : List (Text × ℕ))
      (p : Posting) (v v' : Vector num) (cache : List (Text × F))
      → get t inv.postings ≡ some p
      → insert num v
          (of_nat p.index)
          (score_of num arithmetic s (cached_idf num arithmetic t p n cache).0 tf)
        ≡ some (ok v')
      → score_terms num arithmetic s inv n ((t, tf) ∷ rest) v cache
        ≡ score_terms num arithmetic s inv n rest v' (cached_idf num arithmetic t p n cache).1
  unfolding score_terms
  score_terms-step s n t tf rest p v v' cache e inserted = rw (e, score_terms, inserted) refl

  -- What a vector had is still there, and every term has its score.
  abbrev pub IsScored :
      Scoring num arithmetic → ℕ → List (ℕ × F) → List (ℕ × F) → List (Text × ℕ) → Type 0
  IsScored s n qs qs' counts =
      Ascends 0 qs'
      × ((j : ℕ) (value : F) → lookup j qs ≡ some value → lookup j qs' ≡ some value)
      × HaveScores s n qs' counts

  -- The terms of a field, all of them different and in the index, are scored without a `TypeError` and
  -- without the error of `insert` for an index that is there already, if the numbers of the terms are
  -- exact and what is cached for a term is its `idf`. Every term has in the vector, under its number,
  -- the score by its own `idf` and frequency, though the `idf` may come from the cache. The indices of
  -- the vector ascend, and what it had before is still there.
  pub score_terms-IsScored :
      (s : Scoring num arithmetic) (document_count : ℕ) (counts : List (Text × ℕ)) (m : F)
      (qs : List (ℕ × F)) (cache : List (Text × F))
      → length inv.postings ≤ suc exact
      → Ascends 0 qs
      → Bounded exact qs
      → AreNew qs counts
      → CacheHolds document_count cache
      → (m' : F) × (qs' : List (ℕ × F)) × (cache' : List (Text × F)) × (score_terms num arithmetic s
            inv document_count counts
            (vector num m qs)
            cache
          ≡ some (ok (vector num m' qs', cache')))
        × IsScored s document_count qs qs' counts
  unfolding score_terms
  score_terms-IsScored s n [] m qs cache small ascends bounded are_new holds =
      (m, qs, cache, refl, (ascends, λ j value e. e, tt))
  score_terms-IsScored s n ((t, tf) ∷ rest) m qs cache small ascends bounded
        (fresh, (p, e, absent), are_new) holds =
      let (lo, hi) = Numbered-from 0 t p inv.postings is_numbered.0 e in
      let (right, holds1) = cached_idf-CacheHolds t p n cache e holds in
      let cache1 = (cached_idf num arithmetic t p n cache).1 in
      let score = score_of num arithmetic s (cached_idf num arithmetic t p n cache).0 tf in
      let exact_score : score ≡ score_of num arithmetic s (idf num arithmetic p n) tf =
        ap (λ x. score_of num arithmetic s x tf) right in
      elim (insert-lookup num m qs p.index score ascends bounded (omega arith)) [
        | inl (old, present, _) ↦ let both = sym absent ∙ present in cc
        | inr (qs1, _, inserted, ascends1, bounded1, looked) ↦
            let are_new1 = AreNew-put t p score qs qs1 rest e looked fresh are_new in
            let here : lookup p.index qs1 ≡ some score =
              looked p.index ∙ rw (==_refl p.index) refl in
            let stepped =
              score_terms-step s n t tf rest p (vector num m qs) (vector num (of_nat 0) qs1) cache e
                inserted in
            let (m', qs', cache', run, (ascends', keeps, scored)) =
              score_terms-IsScored s n rest (of_nat 0) qs1 cache1 small ascends1 bounded1 are_new1
                holds1 in
            (
              m',
              qs',
              cache',
              stepped ∙ run,
              (
                ascends',
                λ j value f.
                    keeps j value (lookup-kept p.index j value score qs qs1 absent f (looked j)),
                ((p, e, keeps p.index score here ∙ ap (λ x. some x) exact_score), scored),
              ),
            )
      ]
