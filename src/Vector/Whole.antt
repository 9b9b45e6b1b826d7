-- ===== src/Vector/Whole.antt =====
-- Whole numbers in place of the doubles of the vectors of docs/ui/lunr.js, for runs.

use kubearchive.Prelude.{if◌then◌else◌, leb, ltb, refl, suc, zero, ℕ, ◌*◌, ◌+◌, ◌/◌, ◌==◌}
use kubearchive.Vector.{Number}

-- The root rounded down, found from above.
abbrev pub root_from : ℕ → ℕ → ℕ
root_from zero n = 0
root_from (suc c) n = if leb (suc c * suc c) n then suc c else root_from c n

abbrev pub whole : Number
whole = record {
  F = ℕ;
  exact = 9007199254740991;
  of_nat = λ n. n;
  lt = ltb;
  eq = ◌==◌;
  add = ◌+◌;
  mul = ◌*◌;
  div = ◌/◌;
  sqrt = λ n. root_from n n;
  truthy = ltb 0;
  lt-of_nat = λ a b _ _. refl;
  truthy-zero = refl;
  eq-of_nat = λ a b _ _. refl;
}
