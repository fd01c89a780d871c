-- ===== src/Prelude/Keys.antt =====
-- Equality tests, one operator for every type of keys.
use Prim.Native.Nat.{ℕ}
use Prim.Native.String.{String}
use mathlib.Core.Path.{◌≡◌, refl}
use mathlib.Core.Logic.{◌↔◌}
use mathlib.Core.Bool.{Bool, true}
use text.Mathlib.Text.{◌==◌ as str_eq}
use text.Mathlib.TextEquality.{eq_iff}
use claude_agent_wrap.Prelude.Tests.{eqb, eqb_iff}

-- An equality test for the type `K`, and that it decides equality.
pub record HasEq {κ} (K : Type κ) : Type κ where
  pub equals : K → K → Bool
  pub equals_iff : (x y : K) → (equals x y ≡ true) ↔ (x ≡ y)

instance abbrev pub string_eq : HasEq String
string_eq = record { equals = str_eq; equals_iff = eq_iff }

instance abbrev pub nat_eq : HasEq ℕ
nat_eq = record { equals = eqb; equals_iff = eqb_iff }

module _ {κ} {K : Type κ} ⦃k : HasEq K⦄ where
  infix 50 ◌==◌
  abbrev pub ◌==◌ : K → K → Bool
  ◌==◌ = k.equals

  pub eq_refl : (x : K) → (x == x) ≡ true
  eq_refl x = (k.equals_iff x x).1 refl
