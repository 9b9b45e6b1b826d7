-- ===== src/Index/Words.antt =====
-- The loop of `query` in docs/ui/lunr.js over the terms of a clause returns, and what it sees are the
-- documents with the words that the clause stands for.
use kubearchive.Prelude.{
  Bool-cases, List, [], ap, arith, false, if◌then◌else◌, inl, inr, refl, some, subst, suc, sym,
  true, ℕ, ◌+◌, ◌↔◌, ◌∙◌, ◌∷◌, ◌≡◌, ◌≢◌, ◌⊎◌,
}
use kubearchive.Text.{Text}
use kubearchive.Query.{Clause, Presence, optional, prohibited, required}
use kubearchive.SearchSet.{SearchSet, empty}
use kubearchive.Builder.{Posting}
use kubearchive.Vector.{Number}
use kubearchive.Metadata.{get, put}
use kubearchive.TokenSet.{Store}
use kubearchive.TokenSet.Patterns.{iff_trans}
use kubearchive.TokenSet.Spelled.{IsIn, Spells}
use kubearchive.TokenSet.Expand.{IsMeant, IsTokenSet, expand, expand-IsMeant}
use kubearchive.SearchSet.Laws.{not_in_empty}
use kubearchive.Index.{
  Index, Matches, is_impossible, pure, require_none, stop, visit_terms, visit_words, ◌>>=◌,
}
use kubearchive.Index.Returns.{Returns}
use kubearchive.Index.Invariant.{
  HasSet, HasSetIn, InPosting, IsGood, IsPosting, Permits, PermitsIn, get-put-elim, get-put_self,
}
use kubearchive.Index.Visits.{
  IsOptional, IsProhibited, IsRequired, IsSome, Visited, Visited-none, Visited-then,
}
use kubearchive.Index.Terms.{After, AreFields, HasTerm, HavePostings, visit_terms-After}

impossible-parts : (ws : List Text) (p : Presence) → is_impossible ws p ≡ true → p ≡ required
impossible-parts [] required h = refl
impossible-parts [] optional h = cc
impossible-parts [] prohibited h = cc
impossible-parts (w ∷ ws) p h = cc

possible-IsSome :
    (ws : List Text) (p : Presence) → is_impossible ws p ≡ false → IsRequired p → IsSome ws
possible-IsSome [] required h _ = cc
possible-IsSome [] optional h no_required = absurd no_required
possible-IsSome [] prohibited h no_required = absurd no_required
possible-IsSome (w ∷ ws) p h _ = tt

require_none-Permits :
    (fields : List Text) (req : List (Text × SearchSet)) (f d : Text)
    → Permits (require_none fields req) f d
    → Permits req f d
unfolding require_none
require_none-Permits [] req f d h = h
require_none-Permits (g ∷ fields) req f d h =
    get-put-elim (λ o. PermitsIn o d → Permits req f d) g f empty req
      (λ _ none_there. absurd (not_in_empty d none_there)) (λ k. k)
      (require_none-Permits fields (put g empty req) f d h)

require_none-sets :
    (fields : List Text) (req : List (Text × SearchSet)) (f : Text)
    → IsIn f fields ⊎ HasSet req f
    → HasSet (require_none fields req) f
unfolding require_none
require_none-sets [] req f (inl no_field) = absurd no_field
require_none-sets [] req f (inr is_set) = is_set
require_none-sets (g ∷ fields) req f (inl (inl same)) =
    require_none-sets fields (put g empty req) f (inr (rw (same, get-put_self g empty req) tt))
require_none-sets (g ∷ fields) req f (inl (inr there)) =
    require_none-sets fields (put g empty req) f (inl there)
require_none-sets (g ∷ fields) req f (inr is_set) =
    require_none-sets fields (put g empty req) f
      (inr (get-put-elim HasSetIn g f empty req (λ _. tt) is_set))

module _ (num : Number) (index : Index num) (s0 : Store) (h : ℕ) where
  -- The token set of the index in a later store.
  abbrev pub IsSame : Store → Type 0
  IsSame s =
      IsTokenSet s index.token_set h
      × ((w : Text) → Spells s index.token_set w ↔ Spells s0 index.token_set w)

  -- The words of the token set have postings.
  abbrev pub AreIndexed : Type 0
  AreIndexed =
      (w : Text)
      → w ≢ []
      → Spells s0 index.token_set w
      → (p : Posting) × (get w index.inverted_index ≡ some p) × IsPosting num index p

  -- A document that has, in a field of the clause, a word of the index for which one of the terms
  -- stands.
  abbrev pub HasWord : Clause → List Text → Text → Text → Type 0
  HasWord clause terms f d =
      IsIn f clause.fields
      × ((term : Text) × (w : Text) × (p : Posting) × IsIn term terms
          × (w ≢ [])
          × Spells s0 index.token_set w
          × IsMeant term clause.edit_distance w
          × (get w index.inverted_index ≡ some p)
          × InPosting p f d)

  abbrev pub AreWords : List Text → Type 0
  AreWords terms = (t : Text) → IsIn t terms → t ≢ []

  abbrev AfterWords :
      Clause → List Text → SearchSet → Matches num → (SearchSet × Matches num) × Store → Type 0
  AfterWords clause terms cm m r =
      After num index clause.presence (HasWord clause terms)
        (λ f. IsSome terms × IsIn f clause.fields) cm m r.0
      × IsSame r.1

  impossible-Visited :
      (clause : Clause) (terms : List Text) (cm : SearchSet) (m : Matches num)
      → IsGood num index m
      → clause.presence ≡ required
      → Visited num index clause.presence
          (HasWord clause terms)
          (λ f. IsSome terms × IsIn f clause.fields)
          cm
          m
          cm
          (stop num clause.fields m)
  unfolding stop
  impossible-Visited clause terms cm m is_good is_required = record {
    good = record {
      vectors = is_good.vectors;
      refs = is_good.refs;
      no_slash = is_good.no_slash;
      cached = is_good.cached;
    };
    later = record {
      permits = λ f d k. require_none-Permits clause.fields m.required_matches f d k;
      prohibits = λ f d k. k;
      sets = λ f k. require_none-sets clause.fields m.required_matches f (inr k);
      known = λ key k. k;
    };
    collected = λ d k. inl k;
    prohibits = λ k. absurd (subst IsProhibited is_required k);
    requires = λ _ f (_, is_in). require_none-sets clause.fields m.required_matches f (inl is_in);
    found = λ k. absurd (subst IsOptional is_required k);
    from = λ key k. inl k;
    blamed = λ f d k. inl k;
    quiet = λ k. absurd (k (subst IsRequired (sym is_required) tt));
  }

  module _ (clause : Clause) (n : ℕ) (term : Text) (terms : List Text) (cm : SearchSet)
      (m : Matches num) (s : Store) (ws : List Text) (u : Store)
      (expanded : expand n index.token_set term clause.edit_distance s ≡ some (ws, u)) where
    words-if : visit_words num n index clause (term ∷ terms) ((cm, m), s) ≡ (
        if is_impossible ws clause.presence
        then pure ((cm, stop num clause.fields m), u)
        else (visit_terms num index clause ws (cm, m) >>= λ st.
            visit_words num n index clause terms (st, u)))
    unfolding visit_words
    words-if = rw expanded refl

    words-stop :
        is_impossible ws clause.presence ≡ true
        → visit_words num n index clause (term ∷ terms) ((cm, m), s)
          ≡ pure ((cm, stop num clause.fields m), u)
    words-stop impossible = words-if ∙ rw impossible refl

    words-more :
        (st : SearchSet × Matches num)
        → is_impossible ws clause.presence ≡ false
        → visit_terms num index clause ws (cm, m) ≡ pure st
        → visit_words num n index clause (term ∷ terms) ((cm, m), s)
          ≡ visit_words num n index clause terms (st, u)
    words-more st possible visited = words-if ∙ rw (possible, visited) refl

  module _ (indexed : AreIndexed) (clause : Clause)
      (known : AreFields num index clause clause.fields) where
    pub visit_words-Returns :
        (terms : List Text) (cm : SearchSet) (m : Matches num) (s : Store)
        → IsGood num index m
        → IsSame s
        → AreWords terms
        → Returns
            (λ n. visit_words num n index clause terms ((cm, m), s))
            (AfterWords clause terms cm m)
    unfolding visit_words
    visit_words-Returns [] cm m s is_good same words = (
      0,
      ((cm, m), s),
      λ fuel. refl,
      (
        Visited-none num index clause.presence _ _ cm m is_good
            (λ f d (_, (t, w, p, no_term, ne, spelled, meant, at, in_posting)). no_term)
            (λ f (no_term, _). no_term),
        same,
      ),
    )
    visit_words-Returns (term ∷ terms) cm m s is_good (is_set, same) words =
        let (k, ws, u, run, is_set', same_u, in_words) =
          expand-IsMeant s index.token_set h term clause.edit_distance is_set
            (words term (inl refl)) in
        let is_same : IsSame u = (is_set', λ w. iff_trans (same_u w) (same w)) in
        elim (Bool-cases (is_impossible ws clause.presence)) [
          | inl impossible ↦ (
            suc k,
            ((cm, stop num clause.fields m), u),
            λ fuel. words-stop clause (suc k + fuel) term terms cm m s ws u (run fuel) impossible,
            (
              impossible-Visited clause (term ∷ terms) cm m is_good
                  (impossible-parts ws clause.presence impossible),
              is_same,
            ),
          )
          | inr possible ↦
              let postings : HavePostings num index clause ws = λ w is_in.
                let (ne, spelled, meant) = (in_words w).0 is_in in
                indexed w ne ((same w).0 spelled) in
              let ((cm1, m1), run1, first) =
                visit_terms-After num index clause ws cm m is_good postings known in
              let (k', r, run', (later, same')) =
                visit_words-Returns terms cm1 m1 u first.good is_same
                  (λ t is_in. words t (inr is_in)) in
              (
                suc k + k',
                r,
                λ fuel.
                    let count : suc k + k' + fuel ≡ suc k + (k' + fuel) = omega arith in
                    let count' : suc k + k' + fuel ≡ k' + (suc k + fuel) = omega arith in
                    let expanded =
                      ap (λ n. expand n index.token_set term clause.edit_distance s) count
                      ∙ run (k' + fuel) in
                    words-more clause (suc k + k' + fuel) term terms cm m s ws u expanded (cm1, m1)
                      possible run1
                    ∙ ap (λ n. visit_words num n index clause terms ((cm1, m1), u)) count'
                    ∙ run' (suc k + fuel),
                (
                  Visited-then num index clause.presence (HasWord clause (term ∷ terms))
                      (HasTerm num index clause ws) (HasWord clause terms)
                      (λ f. Unit × IsIn f clause.fields) (λ f. IsSome ws × IsIn f clause.fields)
                      (λ f. IsSome terms × IsIn f clause.fields) cm m cm1 m1 r.0.0 r.0.1
                      (λ f d. (
                        λ (is_in, (t, w, p, one, ne, spelled, meant, at, in_posting)). elim one [
                          | inl equal ↦
                              let meant' =
                                subst (λ v. IsMeant v clause.edit_distance w) equal meant in
                              inl (
                                is_in,
                                (
                                  w,
                                  p,
                                  (in_words w).1 (ne, (same w).1 spelled, meant'),
                                  at,
                                  in_posting,
                                ),
                              )
                          | inr there ↦
                              inr (is_in, (t, w, p, there, ne, spelled, meant, at, in_posting))
                        ],
                        λ seen. elim seen [
                          | inl (is_in, (w, p, in_ws, at, in_posting)) ↦
                              let (ne, spelled, meant) = (in_words w).0 in_ws in
                              (
                                is_in,
                                (
                                  term,
                                  w,
                                  p,
                                  inl refl,
                                  ne,
                                  (same w).0 spelled,
                                  meant,
                                  at,
                                  in_posting,
                                ),
                              )
                          | inr (is_in, (t, w, p, there, ne, spelled, meant, at, in_posting)) ↦
                              (is_in, (t, w, p, inr there, ne, spelled, meant, at, in_posting))
                        ],
                      ))
                      (λ is_required f (_, is_in).
                        inl (possible-IsSome ws clause.presence possible is_required, is_in))
                      first later,
                  same',
                ),
              )
        ]
