-- ===== src/Index/Listed.antt =====
-- Which documents are among the results of `query` in docs/ui/lunr.js.
use kubearchive.Prelude.{
  Bool-cases, List, Option, [], arith, inl, inr, none, refl, some, sym, true, ◌↔◌, ◌∙◌, ◌∷◌, ◌≡◌,
  ◌⊎◌,
}
use kubearchive.Text.{Text, text_eq, text_eq_iff}
use kubearchive.SearchSet
use kubearchive.SearchSet.{SearchSet}
use kubearchive.SearchSet.Laws.{contains-union}
use kubearchive.Metadata.{get}
use kubearchive.Vector.{Number}
use kubearchive.TokenSet.Spelled.{IsIn}
use kubearchive.Index.{Found, keys}
use kubearchive.Index.Keys.{IsKnown}
use kubearchive.Index.Invariant.{Prohibits, ProhibitsIn}
use kubearchive.Index.Results.{
  Match, add_match, all_prohibited, all_required, insert_match, sort_matches,
}
use kubearchive.Index.Ranked.{insert_match-refs, refs_of}

module _ (num : Number) where
  open num use {F, lt}

  pub add_match-lists :
      (d e : Text) (score : F) (found : Found) (results : List (Match num))
      → (e ≡ d) ⊎ IsIn e (refs_of num results)
      → IsIn e (refs_of num (add_match num d score found results))
  unfolding add_match
  add_match-lists d e score found [] h = h
  add_match-lists d e score found (r ∷ results) h = elim (Bool-cases (text_eq r.ref d)) [
    | inl same ↦
        let at : r.ref ≡ d = (text_eq_iff r.ref d).0 same in
        rw same (elim h [ inl here ↦ inl (here ∙ sym at) | inr there ↦ there ])
    | inr other ↦ rw other (elim h [
      | inl here ↦ inr (add_match-lists d e score found results (inl here))
      | inr there ↦ elim there [
        | inl first ↦ inl first
        | inr later ↦ inr (add_match-lists d e score found results (inr later))
      ]
    ])
  ]

  insert_match-lists :
      (e : Text) (m : Match num) (sorted : List (Match num))
      → (e ≡ m.ref) ⊎ IsIn e (refs_of num sorted)
      → IsIn e (refs_of num (insert_match num m sorted))
  unfolding insert_match
  insert_match-lists e m [] h = h
  insert_match-lists e m (n ∷ sorted) h = elim (Bool-cases (lt n.score m.score)) [
    | inl less ↦ rw less h
    | inr other ↦ rw other (elim h [
      | inl here ↦ inr (insert_match-lists e m sorted (inl here))
      | inr there ↦ elim there [
        | inl first ↦ inl first
        | inr later ↦ inr (insert_match-lists e m sorted (inr later))
      ]
    ])
  ]

  pub sort_matches-lists :
      (e : Text) (results sorted : List (Match num))
      → IsIn e (refs_of num (sort_matches num results sorted))
        ↔ (IsIn e (refs_of num results) ⊎ IsIn e (refs_of num sorted))
  unfolding sort_matches
  sort_matches-lists e [] sorted =
      (λ h. inr h, λ h. elim h [ inl no_ref ↦ absurd no_ref | inr there ↦ there ])
  sort_matches-lists e (m ∷ results) sorted =
      let (forth, back) = sort_matches-lists e results (insert_match num m sorted) in
      (
        λ h. elim (forth h) [
          | inl later ↦ inl (inr later)
          | inr placed ↦ elim (insert_match-refs num e m sorted placed) [
            | inl here ↦ inl (inl here)
            | inr old ↦ inr old
          ]
        ],
        λ h. elim h [
          | inl there ↦ elim there [
            | inl here ↦ back (inr (insert_match-lists e m sorted (inl here)))
            | inr later ↦ back (inl later)
          ]
          | inr old ↦ back (inr (insert_match-lists e m sorted (inr old)))
        ],
      )

-- Nothing is required of any field.
pub all_required-none : (fields : List Text) (acc : SearchSet) → all_required fields [] acc ≡ acc
unfolding all_required get
all_required-none [] acc = refl
all_required-none (f ∷ fields) acc = all_required-none fields acc

union-parts :
    (acc : SearchSet) (o : Option SearchSet) (d : Text)
    → SearchSet.contains
        (elim o as (λ _. SearchSet) [ none ↦ acc | some docs ↦ SearchSet.union acc docs ])
        d
      ≡ true
    → (SearchSet.contains acc d ≡ true) ⊎ ProhibitsIn o d
union-parts acc none d h = inl h
union-parts acc (some docs) d h = elim (Bool-cases (SearchSet.contains acc d)) [
  | inl in_acc ↦ inl in_acc
  | inr not_in ↦ inr (ground (arith, contains-union acc docs d))
]

pub all_prohibited-from :
    (fields : List Text) (pro : List (Text × SearchSet)) (acc : SearchSet) (d : Text)
    → SearchSet.contains (all_prohibited fields pro acc) d ≡ true
    → (SearchSet.contains acc d ≡ true) ⊎ ((f : Text) × Prohibits pro f d)
unfolding all_prohibited
all_prohibited-from [] pro acc d h = inl h
all_prohibited-from (g ∷ fields) pro acc d h = elim (all_prohibited-from fields pro _ d h) [
  | inl before ↦ elim (union-parts acc (get g pro) d before) [
    | inl in_acc ↦ inl in_acc
    | inr here ↦ inr (g, here)
  ]
  | inr there ↦ inr there
]

pub has-key : {V : Type 0} (d : List (Text × V)) (k : Text) → IsKnown d k → IsIn k (keys d)
unfolding get
has-key [] k (v, h) = cc
has-key ((j, w) ∷ d) k (v, h) = elim (Bool-cases (text_eq j k)) [
  | inl same ↦ inl (sym ((text_eq_iff j k).0 same))
  | inr other ↦ inr (has-key d k (v, rw other at h))
]
