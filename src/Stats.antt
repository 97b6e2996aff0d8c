-- ===== src/Stats.antt =====
-- internal/stats/stats.go: the summary of a latency distribution. Floats and package math are interfaces.
pub mod Range
mod Tests
use browser_analysis.Prelude.{
  ℕ, ◌-◌, Bool, true, false, List, [], ◌∷◌, arith, length, get_or, if◌then◌else◌, ◌==◌,
}
use browser_analysis.Prelude.Double.{Double}
use browser_analysis.Prelude.Sort.{sort_by, insert_by}
use browser_analysis.Accounting.Stats.{sum_floats}

-- `math.Sqrt`, and `int(math.Floor(x))` and `int(math.Ceil(x))` of what is not negative.
pub record FloatMath (F : Type 0) : Type 0 where
  pub sqrt : F → F
  pub floor : F → ℕ
  pub ceil : F → ℕ

-- A concrete instance for the tests, over whole numbers.
abbrev pub whole : FloatMath ℕ
whole = record { sqrt = λ n. n; floor = λ n. n; ceil = λ n. n }

pub record Summary (F : Type 0) : Type 0 where
  pub min : F
  pub max : F
  pub mean : F
  pub median : F
  pub p90 : F
  pub p95 : F
  pub p99 : F
  pub std_dev : F
  pub count : ℕ

module _ {F : Type 0} ⦃d : Double F⦄ (m : FloatMath F) where
  -- `Percentile` of more than one value, by its rank.
  at_rank : List F → F → F
  at_rank sorted rank =
      let zero = d.of_nat 0 in
      let lo = m.floor rank in
      let hi = m.ceil rank in
      let low = get_or sorted lo zero in
      if lo == hi
      then low
      else d.fadd low (d.fmul (d.fsub rank (d.of_nat lo)) (d.fsub (get_or sorted hi zero) low))

  unfoldable pub percentile : List F → F → F
  unfolding at_rank
  percentile sorted p =
      let n = length sorted in
      if n == 0
      then d.of_nat 0
      else if n == 1
      then get_or sorted 0 (d.of_nat 0)
      else at_rank sorted (d.fmul (d.fdiv p (d.of_nat 100)) (d.of_nat (n - 1)))

  -- The second loop of `Summarize`.
  unfoldable pub sum_squares : F → F → List F → F
  sum_squares mean acc [] = acc
  sum_squares mean acc (v ∷ vs) =
      let dev = d.fsub v mean in sum_squares mean (d.fadd acc (d.fmul dev dev)) vs

  unfoldable pub summarize : List F → Summary F
  unfolding percentile sum_squares
  summarize [] =
      let zero = d.of_nat 0 in
      record {
        min = zero;
        max = zero;
        mean = zero;
        median = zero;
        p90 = zero;
        p95 = zero;
        p99 = zero;
        std_dev = zero;
        count = 0;
      }
  summarize (v ∷ vs) =
      let values = v ∷ vs in
      let sorted = sort_by d.flt values in
      let n = d.of_nat (length values) in
      let mean = d.fdiv (sum_floats (d.of_nat 0) values) n in
      record {
        min = get_or sorted 0 (d.of_nat 0);
        max = get_or sorted (length sorted - 1) (d.of_nat 0);
        mean = mean;
        median = percentile sorted (d.of_nat 50);
        p90 = percentile sorted (d.of_nat 90);
        p95 = percentile sorted (d.of_nat 95);
        p99 = percentile sorted (d.of_nat 99);
        std_dev = m.sqrt (d.fdiv (sum_squares mean (d.of_nat 0) values) n);
        count = length sorted;
      }
