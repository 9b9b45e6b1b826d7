-- ===== src/Query/Negated.antt =====
-- `isNegated` and `term` of docs/ui/lunr.js.
use kubearchive.Prelude.{
  All, List, [], ap, append-nil, append_assoc, false, inl, inr, map, ok, refl, some, true, ◌++◌,
  ◌↔◌, ◌∙◌, ◌∷◌, ◌≡◌, ◌≢◌, ◌⊎◌,
}
use kubearchive.Text.{Text}
use kubearchive.Query.{
  Clause, Options, Presence, Query, add_term, add_terms, add_wildcards, clause, is_negated,
  is_negated_from, is_prohibited, optional, prohibited, required,
}
use kubearchive.Query.Wildcards.{bits, finished, with_wildcards}

prohibited-cases :
    (p : Presence) → (is_prohibited p ≡ true) ⊎ ((is_prohibited p ≡ false) × (p ≢ prohibited))
prohibited-cases optional = inr (refl, λ e. cc)
prohibited-cases required = inr (refl, λ e. cc)
prohibited-cases prohibited = inl refl

prohibited-is : (p : Presence) → is_prohibited p ≡ true → p ≡ prohibited
prohibited-is optional e = cc
prohibited-is required e = cc
prohibited-is prohibited e = refl

-- Every clause is prohibited.
abbrev pub AllProhibited : List Clause → Type 0
AllProhibited cs = All (λ (c : Clause). c.presence ≡ prohibited) cs

is_negated_from-all : (cs : List Clause) → (is_negated_from cs ≡ true) ↔ AllProhibited cs
unfolding is_negated_from
is_negated_from-all [] = (λ _. tt, λ _. refl)
is_negated_from-all (c ∷ cs) = elim (prohibited-cases c.presence) [
  | inl sure ↦
      let rest = is_negated_from-all cs in
      rw (sure, is_negated_from) (λ e. (prohibited-is c.presence sure, rest.0 e), λ h. rest.1 h.1)
  | inr (unsure, ne) ↦ rw (unsure, is_negated_from) (λ e. cc, λ h. absurd (ne h.0))
]

-- A query is negated if and only if all its clauses are prohibited, as when it has none.
is_negated-all : (q : Query) → (is_negated q ≡ true) ↔ AllProhibited q.clauses
unfolding is_negated
is_negated-all q = is_negated_from-all q.clauses

abbrev pub finished_clauses : Query → Options → List Text → List Clause
finished_clauses q o ts =
    map (λ t. finished q (record o { term = some t }) (with_wildcards (bits o) t)) ts

-- `term` on an array of terms never throws: it adds one clause for each, in their order, with the
-- same options and with the wildcards that they ask for.
pub add_terms-clauses :
    (ts : List Text) (o : Options) (q : Query)
    → add_terms ts o q ≡ ok (record q { clauses = q.clauses ++ finished_clauses q o ts })
unfolding add_terms add_term clause add_wildcards
add_terms-clauses [] o q = rw (append-nil q.clauses) refl
add_terms-clauses (t ∷ ts) o q =
    add_terms-clauses ts o _
    ∙ ap (λ cs. ok (record q { clauses = cs }))
        (append_assoc q.clauses
          (finished q (record o { term = some t }) (with_wildcards (bits o) t) ∷ [])
          (finished_clauses q o ts))
