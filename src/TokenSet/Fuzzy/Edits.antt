-- ===== src/TokenSet/Fuzzy/Edits.antt =====
-- What `fromFuzzyString` of docs/ui/lunr.js is about: the words within some edits of a string, and
-- the labels that stand for them.
use kubearchive.TokenSet.Spelled.{Spells}
use kubearchive.TokenSet.Patterns.{Accepts, After}
use kubearchive.TokenSet.{Store, is_last}
use kubearchive.Prelude.{Bool, [], false, suc, true, zero, ℕ, ◌↔◌, ◌∷◌, ◌≡◌, ◌⊎◌}
use kubearchive.Text.{Text}
use kubearchive.Query.{wildcard}

-- The character is the other one, or that is a wildcard.
abbrev pub Matches : ℕ → ℕ → Type 0
Matches c x = (c ≡ x) ⊎ (c ≡ wildcard)

-- The word is the string after at most so many edits. After a transposition the first of the two
-- characters is still to come, and can be edited too.
pub data Near : ℕ → Text → Text → Type 0 where
  done : {k : ℕ} → Near k [] []
  keep : {k : ℕ} {s w : Text} (c x : ℕ) → Matches c x → Near k s w → Near k (c ∷ s) (x ∷ w)
  insert : {k : ℕ} {s w : Text} (x : ℕ) → Near k s w → Near (suc k) s (x ∷ w)
  delete : {k : ℕ} {s w : Text} (c : ℕ) → Near k s w → Near (suc k) (c ∷ s) w
  substitute : {k : ℕ} {s w : Text} (c x : ℕ) → Near k s w → Near (suc k) (c ∷ s) (x ∷ w)
  transpose :
      {k : ℕ} {s w : Text} (a b x : ℕ)
      → Matches b x
      → Near k (a ∷ s) w
      → Near (suc k) (a ∷ b ∷ s) (x ∷ w)

-- Labels that cover a word, one for each character.
abbrev pub Covers : Text → Text → Type 0
Covers [] [] = Unit
Covers [] (x ∷ w) = ⊥
Covers (c ∷ p) [] = ⊥
Covers (c ∷ p) (x ∷ w) = Matches c x × Covers p w

-- A node accepts the words that the labels of its paths cover.
pub Accepts-Covers :
    (s : Store) (w : Text) (node : ℕ)
    → Accepts s node w ↔ ((p : Text) × Spells s node p × Covers p w)
Accepts-Covers s [] node =
    (λ final. ([], final, tt), λ (p, spelled, covered). only_nil p spelled covered)
  where
    only_nil : (p : Text) → Spells s node p → Covers p [] → Accepts s node []
    only_nil [] final _ = final
    only_nil (c ∷ p) _ no_cover = absurd no_cover
Accepts-Covers s (x ∷ w) node = (
  λ (c, id, edge, matched, accepted).
      let (p, spelled, covered) = (Accepts-Covers s w id).0 accepted in
      (c ∷ p, (id, edge, spelled), (matched, covered)),
  λ (p, spelled, covered). one_more p spelled covered (λ id. (Accepts-Covers s w id).1),
)
  where
    one_more :
        (p : Text)
        → Spells s node p
        → Covers p (x ∷ w)
        → ((id : ℕ) → ((q : Text) × Spells s id q × Covers q w) → Accepts s id w)
        → Accepts s node (x ∷ w)
    one_more [] _ no_cover later = absurd no_cover
    one_more (c ∷ p) (id, edge, spelled) (matched, covered) later =
        (c, id, edge, matched, later id (p, spelled, covered))

-- Labels behind an edge, which may be the last one.
abbrev pub Then : ℕ → Bool → (Text → Type 0) → Text → Type 0
Then c final P p = After c (λ q. ((final ≡ true) × (q ≡ [])) ⊎ P q) p

-- The labels that are added below a node for a string and some edits.
abbrev pub Adds : ℕ → Text → Text → Type 0
Adds zero [] p = ⊥
Adds zero (c ∷ s) p = Then c (is_last s) (Adds zero s) p
Adds (suc k) [] p = Then wildcard true (Adds k []) p
Adds (suc k) (c ∷ []) p =
    Then c true (Adds (suc k) []) p
    ⊎ Then wildcard false (Adds k (c ∷ [])) p
    ⊎ (p ≡ [])
    ⊎ Then wildcard true (Adds k []) p
Adds (suc k) (a ∷ b ∷ s) p =
    Then a false (Adds (suc k) (b ∷ s)) p
    ⊎ Then wildcard false (Adds k (a ∷ b ∷ s)) p
    ⊎ Adds k (b ∷ s) p
    ⊎ Then wildcard false (Adds k (b ∷ s)) p
    ⊎ Then b false (Adds k (a ∷ s)) p
