-- ===== src/Accounting/Stats/Rank.antt =====
-- The percentile of internal/accounting/accounting.go against the definition of the nearest rank.
use browser_analysis.Prelude.{
  ℕ, suc, ◌*◌, ◌-◌, ◌/◌, ◌≤◌, ◌<◌, ◌≡◌, refl, ap, List, [], ◌∷◌, arith, length, get_or, ltb, leb,
  count_if, count_if-le, All,
}
use browser_analysis.Prelude.Word.{sum64, sum64-sum, sum, u64_mod}
use browser_analysis.Prelude.Sort.{
  sort_by, sort_by-IsSorted, count_if-sort_by, length-sort_by, count-le_at, count-lt_at,
  get_or_mono, IsSorted,
}
use browser_analysis.Accounting.Stats.{nearest_index, percentile, stats}

mul_percent : (p n : ℕ) → p ≤ 100 → p * n ≤ 100 * n
mul_percent p n h = grind arith

mul_mono : (p q n : ℕ) → p ≤ q → p * n ≤ q * n
mul_mono p q n h = grind arith

mul_pos : (p n : ℕ) → 0 < p → 0 < n → n ≤ p * n
mul_pos p n h k = grind arith

-- The index is in bounds, and it is the least that reaches `p` percent.
nearest_index_bounds :
    (p n : ℕ)
    → 0 < p
    → p ≤ 100
    → 0 < n
    → (nearest_index p n < n)
      × (p * n ≤ 100 * suc (nearest_index p n))
      × (100 * nearest_index p n < p * n)
unfolding nearest_index
nearest_index_bounds p n h k m = ground (arith, mul_percent p n k, mul_pos p n h m)

percentile-get_or :
    (sorted : List ℕ) (p : ℕ)
    → 0 < p
    → p ≤ 100
    → 0 < length sorted
    → percentile sorted p ≡ get_or sorted (nearest_index p (length sorted)) 0
unfolding percentile
percentile-get_or sorted p h k m = ground (arith, nearest_index_bounds p (length sorted) h k m)

sorted_rank :
    (sorted : List ℕ) (p : ℕ)
    → IsSorted sorted
    → 0 < p
    → p ≤ 100
    → 0 < length sorted
    → let q = percentile sorted p in
      (p * length sorted ≤ 100 * count_if (λ v. leb v q) sorted)
      × (100 * count_if (λ v. ltb v q) sorted < p * length sorted)
sorted_rank sorted p s h k m =
    let i = nearest_index p (length sorted) in
    let bounds = nearest_index_bounds p (length sorted) h k m in
    rw (percentile-get_or sorted p h k m)
      (omega (arith, bounds, count-le_at sorted i 0 s bounds.0, count-lt_at sorted i 0 s bounds.0))

-- On sorted values the function gives the nearest-rank percentile, for 0 < p ≤ 100: at least p
-- percent of the values are at most it, and fewer than p percent are below it.
pub percentile_nearest_rank :
    (vals : List ℕ) (p : ℕ)
    → 0 < p
    → p ≤ 100
    → 0 < length vals
    → let q = percentile (sort_by ltb vals) p in
      (p * length vals ≤ 100 * count_if (λ v. leb v q) vals)
      × (100 * count_if (λ v. ltb v q) vals < p * length vals)
percentile_nearest_rank vals p h k m =
    let q = percentile (sort_by ltb vals) p in
    let len = length-sort_by ltb vals in
    omega (
      arith,
      len,
      ap (λ n. p * n) len,
      count_if-sort_by ltb (λ v. leb v q) vals,
      count_if-sort_by ltb (λ v. ltb v q) vals,
      sorted_rank (sort_by ltb vals) p (sort_by-IsSorted vals) h k (omega (arith, len)),
    )

-- The greatest of the values, as the last of the sorted ones.
abbrev peak_of : List ℕ → ℕ
peak_of vals = let sorted = sort_by ltb vals in get_or sorted (length sorted - 1) 0

none_above : (n : ℕ) (xs : List ℕ) → length xs ≤ count_if (λ v. leb v n) xs → All (λ v. v ≤ n) xs
none_above n [] h = tt
none_above n (x ∷ xs) h = ground (arith, none_above n xs, count_if-le (λ v. leb v n) xs)

sum-le : (n : ℕ) (xs : List ℕ) → All (λ v. v ≤ n) xs → sum xs ≤ n * length xs
unfolding sum
sum-le n [] a = omega arith
sum-le n (x ∷ xs) a = omega (arith, sum-le n xs a.1)

peak_above : (vals : List ℕ) → 0 < length vals → All (λ v. v ≤ peak_of vals) vals
peak_above vals m =
    let sorted = sort_by ltb vals in
    none_above (peak_of vals) vals (
      omega (
        arith,
        length-sort_by ltb vals,
        count_if-sort_by ltb (λ v. leb v (peak_of vals)) vals,
        count-le_at sorted (length sorted - 1) 0 (sort_by-IsSorted vals)
            (omega (arith, length-sort_by ltb vals)),
      ))

percentile_mono :
    (sorted : List ℕ) (p q : ℕ)
    → IsSorted sorted
    → 0 < p
    → p ≤ q
    → q ≤ 100
    → 0 < length sorted
    → (percentile sorted p ≤ percentile sorted q)
      × (percentile sorted q ≤ get_or sorted (length sorted - 1) 0)
percentile_mono sorted p q s h k l m =
    let n = length sorted in
    let at_p = nearest_index_bounds p n h (omega arith) m in
    let at_q = nearest_index_bounds q n (omega arith) l m in
    rw (percentile-get_or sorted p h (omega arith) m, percentile-get_or sorted q (omega arith) l m)
      (
        get_or_mono sorted (nearest_index p n) (nearest_index q n) 0 s
            (omega (arith, mul_mono p q n k)) at_q.0,
        get_or_mono sorted (nearest_index q n) (n - 1) 0 s (omega (arith, at_q)) (omega arith),
      )

div_le : (s n m : ℕ) → 0 < m → s ≤ n * m → s / m ≤ n
div_le s n m h k = grind arith

sum64_fits : (vals : List ℕ) → sum vals < u64_mod → sum64 0 vals ≡ sum vals
sum64_fits vals h = omega (arith, sum64-sum 0 vals (omega arith))

mean_lem :
    (vals : List ℕ)
    → 0 < length vals
    → sum vals < u64_mod
    → (sum64 0 vals / length vals ≡ sum vals / length vals)
      × (sum64 0 vals / length vals ≤ peak_of vals)
mean_lem vals m h = rw (sum64_fits vals h) (
  refl,
  div_le (sum vals) (peak_of vals) (length vals) m (sum-le (peak_of vals) vals (peak_above vals m)),
)

module _ (v : ℕ) (vs : List ℕ) where
  -- The summary of a series that is not empty is ordered, P50 ≤ P95 ≤ Peak; every value is at most
  -- the peak; and if the values' sum fits in 64 bits, the mean is their truncated mean and at most
  -- the peak.
  pub stats_ordered :
      sum (v ∷ vs) < u64_mod
      → let s = stats (v ∷ vs) in
        (s.p50 ≤ s.p95)
        × (s.p95 ≤ s.peak)
        × All (λ x. x ≤ s.peak) (v ∷ vs)
        × (s.mean ≡ sum (v ∷ vs) / length (v ∷ vs))
        × (s.mean ≤ s.peak)
  unfolding stats
  stats_ordered fits =
      let vals = v ∷ vs in
      let ascending = sort_by-IsSorted vals in
      let some_vals : 0 < length (sort_by ltb vals) = omega (arith, length-sort_by ltb vals) in
      let (low, high) =
        percentile_mono (sort_by ltb vals) 50 95 ascending (omega arith) (omega arith) (omega arith)
          some_vals in
      let above = peak_above vals (omega arith) in
      let (mean, capped) = mean_lem vals (omega arith) fits in (low, high, above, mean, capped)
