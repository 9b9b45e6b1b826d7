-- ===== src/Index/Returns.antt =====
-- Runs of the code of docs/ui/lunr.js that return a value with a property.

use kubearchive.Prelude.{ap, arith, ℕ, ◌+◌, ◌∙◌, ◌≡◌}
use kubearchive.Index.{Run, pure, ◌>>=◌}

abbrev pub Gives : {A : Type 0} → Run A → (A → Type 0) → Type 0
Gives {A} m P = (a : A) × (m ≡ pure a) × P a

-- The run returns for some amount of fuel, and then for more.
abbrev pub Returns : {A : Type 0} → (ℕ → Run A) → (A → Type 0) → Type 0
Returns {A} m P = (k : ℕ) × (a : A) × ((fuel : ℕ) → m (k + fuel) ≡ pure a) × P a

module _ {A B : Type 0} where
  pub Gives-then :
      (m : Run A) (f : A → Run B) (P : A → Type 0) (Q : B → Type 0)
      → Gives m P
      → ((a : A) → P a → Gives (f a) Q)
      → Gives (m >>= f) Q
  Gives-then m f P Q (a, run, p) later =
      let (b, run', q) = later a p in (b, ap (λ r. r >>= f) run ∙ run', q)

  pub Returns-then :
      (m : ℕ → Run A) (f : ℕ → A → Run B) (P : A → Type 0) (Q : B → Type 0)
      → Returns m P
      → ((a : A) → P a → Returns (λ n. f n a) Q)
      → Returns (λ n. m n >>= f n) Q
  Returns-then m f P Q (k, a, run, p) later =
      let (k', b, run', q) = later a p in
      (
        k + k',
        b,
        λ fuel.
            let first : k + k' + fuel ≡ k + (k' + fuel) = omega arith in
            let second : k + k' + fuel ≡ k' + (k + fuel) = omega arith in
            ap (λ n. m n >>= f (k + k' + fuel)) first
            ∙ ap (λ r. r >>= f (k + k' + fuel)) (run (k' + fuel))
            ∙ ap (λ n. f n a) second
            ∙ run' (k + fuel),
        q,
      )

pub Gives-Returns : {A : Type 0} (m : Run A) (P : A → Type 0) → Gives m P → Returns (λ n. m) P
Gives-Returns m P (a, run, p) = (0, a, λ fuel. run, p)
