-- ===== src/Accounting/Stats.antt =====
-- internal/accounting/accounting.go: `Stats`, `FStats` and the nearest-rank percentile.
pub mod Rank
use browser_analysis.Prelude.{
  ℕ, ◌+◌, ◌*◌, ◌-◌, ◌/◌, List, [], ◌∷◌, length, get_or, ltb, leb, ◌==◌, if◌then◌else◌,
}
use browser_analysis.Prelude.Word.{sum64}
use browser_analysis.Prelude.Double.{Double}
use browser_analysis.Prelude.Sort.{sort_by}

pub record Uint64Stats : Type 0 where
  pub mean : ℕ
  pub p50 : ℕ
  pub p95 : ℕ
  pub peak : ℕ

-- The index that both percentile functions compute; `n` is the length.
pub nearest_index : ℕ → ℕ → ℕ
nearest_index p n =
    let rank = (p * n + 99) / 100 in
    let idx = if leb 1 rank then rank - 1 else rank in if leb n idx then n - 1 else idx

-- `sorted[idx]` cannot fail on a list that is not empty: `nearest_index` is below its length.
pub percentile : List ℕ → ℕ → ℕ
unfolding nearest_index
percentile sorted p =
    let n = length sorted in
    if n == 0 then 0 else if n == 1 then get_or sorted 0 0 else get_or sorted (nearest_index p n) 0

unfoldable pub stats : List ℕ → Uint64Stats
unfolding percentile sum64 sort_by
stats [] = record { mean = 0; p50 = 0; p95 = 0; peak = 0 }
stats (v ∷ vs) =
    let vals = v ∷ vs in
    let sorted = sort_by ltb vals in
    record {
      mean = sum64 0 vals / length vals;
      p50 = percentile sorted 50;
      p95 = percentile sorted 95;
      peak = get_or sorted (length sorted - 1) 0;
    }

pub record Float64Stats (F : Type 0) : Type 0 where
  pub mean : F
  pub p50 : F
  pub p95 : F
  pub peak : F

module _ {F : Type 0} ⦃d : Double F⦄ where
  -- `var sum float64; for _, v := range vals { sum += v }`.
  unfoldable pub sum_floats : F → List F → F
  sum_floats acc [] = acc
  sum_floats acc (v ∷ vals) = sum_floats (d.fadd acc v) vals

  -- The closure `nearest` of `FStats`: it has no case of its own for one value.
  nearest : List F → ℕ → F
  nearest sorted p = get_or sorted (nearest_index p (length sorted)) (d.of_nat 0)

  unfoldable pub fstats : List F → Float64Stats F
  unfolding nearest nearest_index sort_by sum_floats
  fstats [] = record { mean = d.of_nat 0; p50 = d.of_nat 0; p95 = d.of_nat 0; peak = d.of_nat 0 }
  fstats (v ∷ vs) =
      let vals = v ∷ vs in
      let sorted = sort_by d.flt vals in
      record {
        mean = d.fdiv (sum_floats (d.of_nat 0) vals) (d.of_nat (length vals));
        p50 = nearest sorted 50;
        p95 = nearest sorted 95;
        peak = get_or sorted (length sorted - 1) (d.of_nat 0);
      }
