-- ===== src/Stats/Tests.antt =====
-- A summary of whole numbers.
use browser_analysis.Prelude.{◌<◌, ◌≡◌, [], ◌∷◌, arith, count_if, ltb}
use browser_analysis.Prelude.Double.{nat_double}
use browser_analysis.Stats.{whole, summarize}
use browser_analysis.Stats.Range.{IsOrder, summarize_range}

-- The numbers below 100; 100 and above stand for NaN.
ltb-IsOrder : IsOrder ltb (λ n. n < 100)
ltb-IsOrder = record {
  asymmetric = λ a b na nb h. ground arith;
  cotransitive = λ a b c na nb nc h k. ground arith;
}

summarize_range_example :
    let s = summarize whole (4 ∷ 9 ∷ 2 ∷ []) in
    (count_if (λ v. ltb v s.min) (4 ∷ 9 ∷ 2 ∷ []) ≡ 0)
    × (count_if (λ v. ltb s.max v) (4 ∷ 9 ∷ 2 ∷ []) ≡ 0)
    × (s.count ≡ 3)
summarize_range_example =
    summarize_range whole (λ n. n < 100) (4 ∷ 9 ∷ 2 ∷ []) ltb-IsOrder
      (omega arith, (omega arith, (omega arith, tt)))
