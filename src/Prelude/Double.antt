-- ===== src/Prelude/Double.antt =====
-- float64 as an interface: the operations that the program applies to one. Nothing is assumed of
-- them; where a theorem needs a law, it is a hypothesis of the theorem.
use Prim.Native.Nat.{ℕ, ◌+◌, ◌-◌, ◌*◌, ◌/◌}
use mathlib.Core.Bool.{Bool}
use browser_analysis.Prelude.Tests.{ltb}

pub record Double {ℓ} (F : Type ℓ) : Type ℓ where
  pub of_nat : ℕ → F  -- float64(n), and the constants
  pub to_u64 : F → ℕ  -- uint64(x)
  pub fadd : F → F → F
  pub fsub : F → F → F
  pub fmul : F → F → F
  pub fdiv : F → F → F
  pub flt : F → F → Bool  -- x < y

-- A concrete instance for the tests: whole numbers, with truncated difference and quotient.
instance abbrev pub nat_double : Double ℕ
nat_double = record {
  of_nat = λ n. n;
  to_u64 = λ n. n;
  fadd = λ a b. a + b;
  fsub = λ a b. a - b;
  fmul = λ a b. a * b;
  fdiv = λ a b. a / b;
  flt = ltb;
}
