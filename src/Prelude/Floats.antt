-- ===== src/Prelude/Floats.antt =====
-- What the code uses of Python's `float`, which the runtime implements: a parameter of the models.
use Prim.Native.Nat.{ℕ}
use mathlib.Core.Path.{◌≡◌}
use mathlib.Core.Bool.{Bool, true, false}

-- `zero` is `0.0`, `of_nat n` an `int` met by an arithmetic operation with a float, `over` the
-- division, `below` the test `<`, and `at_most n x` the test `n <= x` of an `int` and a `float`.
pub record Floats : Type 1 where
  pub Num : Type 0
  pub zero : Num
  pub infinity : Num
  pub of_nat : ℕ → Num
  pub plus : Num → Num → Num
  pub times : Num → Num → Num
  pub over : Num → Num → Num
  pub below : Num → Num → Bool
  pub at_most : ℕ → Num → Bool

-- The order of the floats that are not NaN: `<` is irreflexive, and its negation is transitive.
pub record IsOrdered (fl : Floats) : Type 0 where
  pub below_irrefl : (x : fl.Num) → fl.below x x ≡ false
  pub not_below_trans :
      (x y z : fl.Num) → fl.below y x ≡ false → fl.below z y ≡ false → fl.below z x ≡ false
  pub below_asym : (x y : fl.Num) → fl.below x y ≡ true → fl.below y x ≡ false
