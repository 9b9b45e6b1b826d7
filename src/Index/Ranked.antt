-- ===== src/Index/Ranked.antt =====
-- The results of `query` of docs/ui/lunr.js: each document once, and none that scores less than the
-- next.
use kubearchive.Prelude.{
  Bool-cases, List, [], false, if-intro, inl, inr, map, refl, subst, sym, true, ◌∷◌, ◌≡◌, ◌⊎◌,
}
use kubearchive.Text.{Text, text_eq, text_eq_iff}
use kubearchive.Vector.{Number}
use kubearchive.TokenSet.Spelled.{IsIn}
use kubearchive.Index.{Found}
use kubearchive.Index.Results.{Match, add_match, insert_match, sort_matches}

abbrev pub IsDistinct : List Text → Type 0
IsDistinct [] = Unit
IsDistinct (d ∷ ds) = ¬ IsIn d ds × IsDistinct ds

module _ (num : Number) where
  open num use {F, lt}

  abbrev pub refs_of : List (Match num) → List Text
  refs_of results = map (λ (m : Match num). m.ref) results

  abbrev pub Follows : Match num → List (Match num) → Type 0
  Follows m [] = Unit
  Follows m (n ∷ rest) = lt m.score n.score ≡ false

  -- No result scores less than the next.
  abbrev pub IsRanked : List (Match num) → Type 0
  IsRanked [] = Unit
  IsRanked (m ∷ rest) = Follows m rest × IsRanked rest

  pub add_match-refs :
      (d e : Text) (score : F) (found : Found) (results : List (Match num))
      → IsIn e (refs_of (add_match num d score found results))
      → (e ≡ d) ⊎ IsIn e (refs_of results)
  unfolding add_match
  add_match-refs d e score found [] h = h
  add_match-refs d e score found (r ∷ results) h = elim (Bool-cases (text_eq r.ref d)) [
    | inl same ↦ inr (rw same at h)
    | inr other ↦ elim (rw other at h) [
      | inl here ↦ inr (inl here)
      | inr later ↦ elim (add_match-refs d e score found results later) [
        | inl new ↦ inl new
        | inr old ↦ inr (inr old)
      ]
    ]
  ]

  pub add_match-IsDistinct :
      (d : Text) (score : F) (found : Found) (results : List (Match num))
      → IsDistinct (refs_of results)
      → IsDistinct (refs_of (add_match num d score found results))
  unfolding add_match
  add_match-IsDistinct d score found [] _ = (λ no_ref. no_ref, tt)
  add_match-IsDistinct d score found (r ∷ results) (fresh, rest) =
      elim (Bool-cases (text_eq r.ref d)) [
        | inl same ↦ rw same (fresh, rest)
        | inr other ↦
            let apart : ¬ IsIn r.ref (refs_of (add_match num d score found results)) = λ h.
              elim (add_match-refs d r.ref score found results h) [
                | inl at ↦ let found : text_eq r.ref d ≡ true = (text_eq_iff r.ref d).1 at in cc
                | inr old ↦ fresh old
              ] in
            rw other (apart, add_match-IsDistinct d score found results rest)
      ]

  pub insert_match-refs :
      (e : Text) (m : Match num) (sorted : List (Match num))
      → IsIn e (refs_of (insert_match num m sorted))
      → (e ≡ m.ref) ⊎ IsIn e (refs_of sorted)
  unfolding insert_match
  insert_match-refs e m [] h = h
  insert_match-refs e m (n ∷ sorted) h = elim (Bool-cases (lt n.score m.score)) [
    | inl less ↦ rw less at h
    | inr other ↦ elim (rw other at h) [
      | inl here ↦ inr (inl here)
      | inr later ↦ elim (insert_match-refs e m sorted later) [
        | inl new ↦ inl new
        | inr old ↦ inr (inr old)
      ]
    ]
  ]

  insert_match-IsDistinct :
      (m : Match num) (sorted : List (Match num))
      → ¬ IsIn m.ref (refs_of sorted)
      → IsDistinct (refs_of sorted)
      → IsDistinct (refs_of (insert_match num m sorted))
  unfolding insert_match
  insert_match-IsDistinct m [] new _ = (λ no_ref. no_ref, tt)
  insert_match-IsDistinct m (n ∷ sorted) new (fresh, rest) =
      elim (Bool-cases (lt n.score m.score)) [
        | inl less ↦ rw less (new, (fresh, rest))
        | inr other ↦
            let apart : ¬ IsIn n.ref (refs_of (insert_match num m sorted)) = λ h.
              elim (insert_match-refs n.ref m sorted h) [
                | inl at ↦ new (inl (sym at))
                | inr old ↦ fresh old
              ] in
            rw other (apart, insert_match-IsDistinct m sorted (λ h. new (inr h)) rest)
      ]

  pub sort_matches-IsDistinct :
      (results sorted : List (Match num))
      → IsDistinct (refs_of results)
      → IsDistinct (refs_of sorted)
      → ((e : Text) → IsIn e (refs_of results) → ¬ IsIn e (refs_of sorted))
      → IsDistinct (refs_of (sort_matches num results sorted))
  unfolding sort_matches
  sort_matches-IsDistinct [] sorted _ distinct apart = distinct
  sort_matches-IsDistinct (m ∷ results) sorted (fresh, rest) distinct apart =
      sort_matches-IsDistinct results (insert_match num m sorted) rest
        (insert_match-IsDistinct m sorted (apart m.ref (inl refl)) distinct)
        (λ e is_in h. elim (insert_match-refs e m sorted h) [
          | inl at ↦ fresh (subst (λ t. IsIn t (refs_of results)) at is_in)
          | inr old ↦ apart e (inr is_in) old
        ])

  module _ (asym : (a b : F) → lt a b ≡ true → lt b a ≡ false) where
    Follows-insert :
        (n m : Match num) (sorted : List (Match num))
        → Follows n sorted
        → lt n.score m.score ≡ false
        → Follows n (insert_match num m sorted)
    unfolding insert_match
    Follows-insert n m [] _ other = other
    Follows-insert n m (k ∷ sorted) follows other =
        if-intro (Follows n) (lt k.score m.score) other follows

    insert_match-IsRanked :
        (m : Match num) (sorted : List (Match num))
        → IsRanked sorted
        → IsRanked (insert_match num m sorted)
    unfolding insert_match
    insert_match-IsRanked m [] _ = (tt, tt)
    insert_match-IsRanked m (n ∷ sorted) (follows, rest) = elim (Bool-cases (lt n.score m.score)) [
      | inl less ↦ rw less (asym n.score m.score less, (follows, rest))
      | inr other ↦
          rw other (Follows-insert n m sorted follows other, insert_match-IsRanked m sorted rest)
    ]

    pub sort_matches-IsRanked :
        (results sorted : List (Match num))
        → IsRanked sorted
        → IsRanked (sort_matches num results sorted)
    unfolding sort_matches
    sort_matches-IsRanked [] sorted ranked = ranked
    sort_matches-IsRanked (m ∷ results) sorted ranked =
        sort_matches-IsRanked results (insert_match num m sorted)
          (insert_match-IsRanked m sorted ranked)
