-- ===== src/Index/Adds.antt =====
-- What clauses add to the matches of `query` in docs/ui/lunr.js, and no more than that.
use kubearchive.Prelude.{All, List, [], inl, inr, refl, ◌++◌, ◌↔◌, ◌∙◌, ◌∷◌, ◌≡◌, ◌⊎◌}
use kubearchive.Text.{Text}
use kubearchive.FieldRef.{joiner}
use kubearchive.Query.{Clause, Presence}
use kubearchive.Vector.{Number}
use kubearchive.Index.{Matches}
use kubearchive.Index.Keys.{IsKnown}
use kubearchive.Index.Invariant.{Later, Prohibits}
use kubearchive.Index.Visits.{IsOptional, IsProhibited, IsRequired}

-- One of the clauses.
abbrev pub Some : (Clause → Type 0) → List Clause → Type 0
Some P [] = ⊥
Some P (c ∷ cs) = P c ⊎ Some P cs

pub Some-map :
    {P Q R : Clause → Type 0} (cs : List Clause)
    → ((c : Clause) → R c → P c → Q c)
    → All R cs
    → Some P cs
    → Some Q cs
Some-map [] each _ no_clause = absurd no_clause
Some-map (c ∷ cs) each (r, rest) h = elim h [
  | inl p ↦ inl (each c r p)
  | inr later ↦ inr (Some-map cs each rest later)
]

-- What one of the clauses has, and all of them.
pub some_clause :
    {P R : Clause → Type 0} (cs : List Clause) → All R cs → Some P cs → (c : Clause) × P c × R c
some_clause [] _ no_clause = absurd no_clause
some_clause (c ∷ cs) (r, rest) h = elim h [
  | inl p ↦ (c, p, r)
  | inr later ↦ some_clause cs rest later
]

pub Some-field :
    (P : Clause → Type 0) (M : Clause → Text → Type 0) (cs : List Clause)
    → Some (λ c. P c × ((f : Text) × M c f)) cs
    → (f : Text) × Some (λ c. P c × M c f) cs
Some-field P M [] no_clause = absurd no_clause
Some-field P M (c ∷ cs) h = elim h [
  | inl (p, (f, x)) ↦ (f, inl (p, x))
  | inr later ↦ let (f, there) = Some-field P M cs later in (f, inr there)
]

module _ (num : Number) where
  -- What one clause adds to the matches: the fields that it matches, and the documents that it
  -- prohibits.
  pub record Adds (p : Presence) (Seen : Text → Text → Type 0) (m m' : Matches num) : Type 0 where
    pub found :
        IsOptional p → (f d : Text) → Seen f d → IsKnown m'.matching_fields (f ++ (joiner ∷ d))
    pub from :
        (key : Text)
        → IsKnown m'.matching_fields key
        → IsKnown m.matching_fields key
          ⊎ (¬ IsProhibited p × ((f : Text) × (d : Text) × Seen f d × (key ≡ f ++ (joiner ∷ d))))
    pub blamed :
        (f d : Text)
        → Prohibits m'.prohibited_matches f d
        → Prohibits m.prohibited_matches f d ⊎ (IsProhibited p × Seen f d)
    pub quiet : ¬ IsRequired p → m'.required_matches ≡ m.required_matches

  pub Adds-map :
      (p : Presence) (Seen Seen' : Text → Text → Type 0) (m m' : Matches num)
      → ((f d : Text) → Seen f d ↔ Seen' f d)
      → Adds p Seen m m'
      → Adds p Seen' m m'
  Adds-map p Seen Seen' m m' same adds = record {
    found = λ h f d x. adds.found h f d ((same f d).1 x);
    from = λ key h. elim (adds.from key h) [
      | inl old ↦ inl old
      | inr (by, (f, d, x, at)) ↦ inr (by, (f, d, (same f d).0 x, at))
    ];
    blamed = λ f d h. elim (adds.blamed f d h) [
      | inl old ↦ inl old
      | inr (by, x) ↦ inr (by, (same f d).0 x)
    ];
    quiet = adds.quiet;
  }

  module _ (Match : Clause → Text → Text → Type 0) where
    -- What the clauses add together.
    pub record AddsAll (clauses : List Clause) (m m' : Matches num) : Type 0 where
      pub found :
          (f d : Text)
          → Some (λ c. IsOptional c.presence × Match c f d) clauses
          → IsKnown m'.matching_fields (f ++ (joiner ∷ d))
      pub from :
          (key : Text)
          → IsKnown m'.matching_fields key
          → IsKnown m.matching_fields key
            ⊎ ((f : Text) × (d : Text) × Some (λ c. ¬ IsProhibited c.presence × Match c f d) clauses
                × (key ≡ f ++ (joiner ∷ d)))
      pub blamed :
          (f d : Text)
          → Prohibits m'.prohibited_matches f d
          → Prohibits m.prohibited_matches f d
            ⊎ Some (λ c. IsProhibited c.presence × Match c f d) clauses
      pub quiet :
          All (λ (c : Clause). ¬ IsRequired c.presence) clauses
          → m'.required_matches ≡ m.required_matches

    pub AddsAll-none : (m : Matches num) → AddsAll [] m m
    AddsAll-none m = record {
      found = λ f d no_clause. absurd no_clause;
      from = λ key h. inl h;
      blamed = λ f d h. inl h;
      quiet = λ _. refl;
    }

    pub AddsAll-more :
        (c : Clause) (clauses : List Clause) (m m1 m2 : Matches num)
        → Adds c.presence (Match c) m m1
        → Later num m1 m2
        → AddsAll clauses m1 m2
        → AddsAll (c ∷ clauses) m m2
    AddsAll-more c clauses m m1 m2 a later b = record {
      found = λ f d h. elim h [
        | inl (by, x) ↦ later.known (f ++ (joiner ∷ d)) (a.found by f d x)
        | inr x ↦ b.found f d x
      ];
      from = λ key h. elim (b.from key h) [
        | inl old ↦ elim (a.from key old) [
          | inl older ↦ inl older
          | inr (by, (f, d, x, at)) ↦ inr (f, d, inl (by, x), at)
        ]
        | inr (f, d, x, at) ↦ inr (f, d, inr x, at)
      ];
      blamed = λ f d h. elim (b.blamed f d h) [
        | inl old ↦ elim (a.blamed f d old) [ inl older ↦ inl older | inr x ↦ inr (inl x) ]
        | inr x ↦ inr (inr x)
      ];
      quiet = λ h. b.quiet h.1 ∙ a.quiet h.0;
    }
