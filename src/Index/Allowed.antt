-- ===== src/Index/Allowed.antt =====
-- How `query` of docs/ui/lunr.js makes results of the fields that match: it returns, and a document
-- among the results is in what is required and not in what is prohibited.

use kubearchive.Vector.Upsert.{vector}
use kubearchive.Vector.Sparse.{Ascends, Bounded, flat}
use kubearchive.Prelude.{
  All, Bool, Bool-cases, List, Option, [], arith, false, if-intro, if◌then◌else◌, inl, inr, none,
  not, refl, some, subst, sym, true, ℕ, ◌&&◌, ◌∷◌, ◌≡◌,
}
use kubearchive.Text.{Text, text_eq}
use kubearchive.SearchSet
use kubearchive.SearchSet.{SearchSet}
use kubearchive.SearchSet.Laws.{contains-intersect, contains-union}
use kubearchive.Vector.{Number, Vector, magnitude, similarity, sum_of_squares}
use kubearchive.Vector.Dot.{dot-products, products}
use kubearchive.Metadata.{get}
use kubearchive.TokenSet.Spelled.{IsIn}
use kubearchive.Index.{Found}
use kubearchive.Index.Invariant.{IsVector, Permits, PermitsIn, Prohibits, ProhibitsIn}
use kubearchive.Index.Results.{
  Match, add_match, all_prohibited, all_required, insert_match, sort_matches,
}

pub and_true_split : (a b : Bool) → (a && not b) ≡ true → (a ≡ true) × (b ≡ false)
and_true_split true true h = cc
and_true_split true false h = (refl, refl)
and_true_split false b h = cc

permitted_parts :
    (acc : SearchSet) (o : Option SearchSet) (d : Text)
    → SearchSet.contains
        (elim o as (λ _. SearchSet) [ none ↦ acc | some docs ↦ SearchSet.intersect acc docs ])
        d
      ≡ true
    → (SearchSet.contains acc d ≡ true) × PermitsIn o d
permitted_parts acc none d h = (h, tt)
permitted_parts acc (some docs) d h = ground (arith, contains-intersect acc docs d)

pub all_required-Permits :
    (fields : List Text) (req : List (Text × SearchSet)) (acc : SearchSet) (d : Text)
    → SearchSet.contains (all_required fields req acc) d ≡ true
    → (SearchSet.contains acc d ≡ true) × ((f : Text) → IsIn f fields → Permits req f d)
unfolding all_required
all_required-Permits [] req acc d h = (h, λ f no_field. absurd no_field)
all_required-Permits (g ∷ fields) req acc d h =
    let (now, later) = all_required-Permits fields req _ d h in
    let (before, here) = permitted_parts acc (get g req) d now in
    (
      before,
      λ f is_in. elim is_in [
        | inl same ↦ subst (λ t. Permits req t d) (sym same) here
        | inr there ↦ later f there
      ],
    )

prohibited_parts :
    (acc : SearchSet) (o : Option SearchSet) (d : Text)
    → SearchSet.contains
        (elim o as (λ _. SearchSet) [ none ↦ acc | some docs ↦ SearchSet.union acc docs ])
        d
      ≡ false
    → (SearchSet.contains acc d ≡ false) × ¬ ProhibitsIn o d
prohibited_parts acc none d h = (h, λ no_set. no_set)
prohibited_parts acc (some docs) d h = ground (arith, contains-union acc docs d)

pub all_prohibited-Prohibits :
    (fields : List Text) (pro : List (Text × SearchSet)) (acc : SearchSet) (d : Text)
    → SearchSet.contains (all_prohibited fields pro acc) d ≡ false
    → (SearchSet.contains acc d ≡ false) × ((f : Text) → IsIn f fields → ¬ Prohibits pro f d)
unfolding all_prohibited
all_prohibited-Prohibits [] pro acc d h = (h, λ f no_field. absurd no_field)
all_prohibited-Prohibits (g ∷ fields) pro acc d h =
    let (now, later) = all_prohibited-Prohibits fields pro _ d h in
    let (before, here) = prohibited_parts acc (get g pro) d now in
    (
      before,
      λ f is_in. elim is_in [
        | inl same ↦ λ prohibited. here (subst (λ t. Prohibits pro t d) same prohibited)
        | inr there ↦ later f there
      ],
    )

module _ (num : Number) where
  open num use {F, of_nat, div, sqrt, truthy}

  magnitude-IsVector :
      (c : F) (ps : List (ℕ × F))
      → Ascends 0 ps
      → Bounded num.exact ps
      → (m : F) × (v : Vector num) × (magnitude num (vector num c ps) ≡ (m, v)) × IsVector num v
  unfolding magnitude
  magnitude-IsVector c ps ascends bounded = elim (Bool-cases (truthy c)) [
    | inl full ↦ (c, vector num c ps, rw full refl, (c, ps, refl, ascends, bounded))
    | inr none_yet ↦
        let m = sqrt (sum_of_squares num (of_nat 0) (flat of_nat ps)) in
        (m, vector num m ps, rw none_yet refl, (m, ps, refl, ascends, bounded))
  ]

  similarity-parts :
      (c c' : F) (ps qs : List (ℕ × F)) (m : F) (v : Vector num)
      → Ascends 0 ps
      → Ascends 0 qs
      → Bounded num.exact ps
      → Bounded num.exact qs
      → magnitude num (vector num c ps) ≡ (m, v)
      → (score : F) × (similarity num (vector num c ps) (vector num c' qs) ≡ some (score, v))
  unfolding similarity
  similarity-parts c c' ps qs m v ascends ascends' bounded bounded' sized =
      let q = div (products num ps qs (of_nat 0)) m in
      (
        if truthy q then q else of_nat 0,
        rw (similarity, dot-products num c c' ps qs ascends ascends' bounded bounded', sized) refl,
      )

  pub similarity-IsVector :
      (v w : Vector num)
      → IsVector num v
      → IsVector num w
      → (score : F) × (v' : Vector num) × (similarity num v w ≡ some (score, v')) × IsVector num v'
  similarity-IsVector v w (c, ps, e, ascends, bounded) (c', qs, e', ascends', bounded') =
      let (m, v', sized, is_vector) = magnitude-IsVector c ps ascends bounded in
      let (score, run) = similarity-parts c c' ps qs m v' ascends ascends' bounded bounded' sized in
      (score, v', rw (e, e') run, is_vector)

  pub add_match-All :
      (P : Text → Type 0) (d : Text) (score : F) (found : Found) (results : List (Match num))
      → P d
      → All (λ (r : Match num). P r.ref) results
      → All (λ (r : Match num). P r.ref) (add_match num d score found results)
  unfolding add_match
  add_match-All P d score found [] here _ = (here, tt)
  add_match-All P d score found (r ∷ results) here (first, rest) =
      if-intro (All (λ (m : Match num). P m.ref)) (text_eq r.ref d) (first, rest)
        (first, add_match-All P d score found results here rest)

  insert_match-All :
      (P : Text → Type 0) (r : Match num) (results : List (Match num))
      → P r.ref
      → All (λ (m : Match num). P m.ref) results
      → All (λ (m : Match num). P m.ref) (insert_match num r results)
  unfolding insert_match
  insert_match-All P r [] here _ = (here, tt)
  insert_match-All P r (m ∷ results) here (first, rest) =
      if-intro (All (λ (m : Match num). P m.ref)) (num.lt m.score r.score) (here, (first, rest))
        (first, insert_match-All P r results here rest)

  pub sort_matches-All :
      (P : Text → Type 0) (results sorted : List (Match num))
      → All (λ (m : Match num). P m.ref) results
      → All (λ (m : Match num). P m.ref) sorted
      → All (λ (m : Match num). P m.ref) (sort_matches num results sorted)
  unfolding sort_matches
  sort_matches-All P [] sorted _ h = h
  sort_matches-All P (m ∷ results) sorted (first, rest) h =
      sort_matches-All P results _ rest (insert_match-All P m sorted first h)
