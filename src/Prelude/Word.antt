-- ===== src/Prelude/Word.antt =====
-- uint64 arithmetic: sums wrap around.
use Prim.Native.Nat.{ℕ, zero, suc, ◌+◌, ◌*◌, ◌/◌, ◌%◌, ◌<◌}
use mathlib.Core.Path.{◌≡◌}
use mathlib.Core.List.{List, [], ◌∷◌, ◌++◌}
use native.Mathlib.Omega.{arith}

abbrev pub u64_mod : ℕ
u64_mod = 18446744073709551616

-- uint64 a + b.
abbrev pub add64 : ℕ → ℕ → ℕ
add64 a b = (a + b) % u64_mod

-- The mathematical sum, which does not wrap.
unfoldable pub sum : List ℕ → ℕ
sum [] = 0
sum (x ∷ xs) = x + sum xs

-- `var sum uint64; for _, v := range vals { sum += v }`.
unfoldable pub sum64 : ℕ → List ℕ → ℕ
sum64 acc [] = acc
sum64 acc (v ∷ vals) = sum64 (add64 acc v) vals

pub sum-append : (xs ys : List ℕ) → sum (xs ++ ys) ≡ sum xs + sum ys
unfolding sum
sum-append [] ys = omega arith
sum-append (x ∷ xs) ys = omega (arith, sum-append xs ys)

-- The loop computes the sum modulo 2^64.
pub sum64-sum :
    (acc : ℕ) (vals : List ℕ) → acc < u64_mod → sum64 acc vals ≡ (acc + sum vals) % u64_mod
unfolding sum64 sum
sum64-sum acc [] h = omega arith
sum64-sum acc (v ∷ vals) h = omega (arith, sum64-sum (add64 acc v) vals (omega arith))

-- Bitwise exclusive or of the `n` low bits.
abbrev pub xor_bits : ℕ → ℕ → ℕ → ℕ
xor_bits zero a b = 0
xor_bits (suc n) a b = (a + b) % 2 + 2 * xor_bits n (a / 2) (b / 2)
