-- ===== src/Accounting/Aggregator/Runs.antt =====
-- Whole runs of the aggregator of internal/accounting/aggregator.go.
use mathlib.Core.List.{append-nil, append_assoc}
use mathlib.Core.Path.{ap₂}
use browser_analysis.Prelude.{
  ℕ, suc, ◌+◌, ◌-◌, ◌/◌, ◌%◌, ◌<◌, ◌≡◌, refl, ap, ◌∙◌, true, List, [], ◌∷◌, ◌++◌, map, some, arith,
  ltb, if◌then◌else◌, length,
}
use browser_analysis.Prelude.Word.{add64, u64_mod, sum}
use browser_analysis.Prelude.Double.{Double}
use browser_analysis.Process.{Snapshot}
use browser_analysis.Process.Ownership
use browser_analysis.Accounting.{Sample, aggregate}
use browser_analysis.Accounting.Aggregator.{
  Aggregator, new_aggregator, set_baseline, record_sample, delta_loop, excess, delta, series,
}

-- The monitor's snapshots, in the order of its calls of `Record`.
pub record_all : {F : Type 0} ⦃d : Double F⦄ → Aggregator F → List (Snapshot F) → Aggregator F
record_all a [] = a
record_all a (s ∷ ss) = record_all (record_sample a s) ss

-- The sizes that `Delta` averages: those of the samples with memory.
abbrev pub used_sizes : {F : Type 0} → List (Sample F) → List ℕ
used_sizes [] = []
used_sizes (s ∷ ss) =
    let rest = used_sizes ss in if ltb 0 s.benchmark_rss then s.benchmark_rss ∷ rest else rest

-- The truncated mean; 0 for no sizes, since x / 0 is 0.
abbrev pub mean : List ℕ → ℕ
mean xs = sum xs / length xs

excess-mean : (base : ℕ) (xs : List ℕ) → excess (sum xs, length xs) base ≡ mean xs - base
unfolding excess sum
excess-mean base [] = omega arith
excess-mean base (x ∷ xs) = ground arith

module _ {F : Type 0} ⦃d : Double F⦄ where
  record_sample_based :
      (a : Aggregator F) (s : Snapshot F)
      → a.have_base ≡ true
      → record_sample a s ≡ record a { samples = a.samples ++ aggregate s ∷ [] }
  unfolding record_sample
  record_sample_based a s h = ground arith

  record_all_based :
      (a : Aggregator F) (snaps : List (Snapshot F))
      → a.have_base ≡ true
      → record_all a snaps ≡ record a { samples = a.samples ++ map aggregate snaps }
  unfolding record_all
  record_all_based a [] h = ground (arith, append-nil a.samples)
  record_all_based a (s ∷ ss) h =
      let b = record a { samples = a.samples ++ aggregate s ∷ [] } in
      ap (λ c. record_all c ss) (record_sample_based a s h)
      ∙ record_all_based b ss h
      ∙ ap (λ l. record a { samples = l })
          (append_assoc a.samples (aggregate s ∷ []) (map aggregate ss))

  delta_loop-used :
      (total n : ℕ) (ss : List (Sample F))
      → total < u64_mod
      → delta_loop total n ss
        ≡ ((total + sum (used_sizes ss)) % u64_mod, n + length (used_sizes ss))
  unfolding delta_loop sum
  delta_loop-used total n [] h = ground arith
  delta_loop-used total n (s ∷ ss) h =
      ground (
        arith,
        delta_loop-used (add64 total s.benchmark_rss) (suc n) ss,
        delta_loop-used total n ss,
      )

  delta_loop-sum :
      (ss : List (Sample F))
      → sum (used_sizes ss) < u64_mod
      → delta_loop 0 0 ss ≡ (sum (used_sizes ss), length (used_sizes ss))
  delta_loop-sum ss h =
      delta_loop-used 0 0 ss (omega arith) ∙ ap₂ (λ (t n : ℕ). (t, n)) (omega arith) (omega arith)

  delta-excess :
      (a : Aggregator F) (s : Sample F) (rest : List (Sample F))
      → a.have_base ≡ true
      → a.samples ≡ s ∷ rest
      → delta a ≡ excess (delta_loop 0 0 rest) a.baseline.benchmark_rss
  unfolding delta
  delta-excess a s rest h e = ground arith

  delta-mean :
      (a : Aggregator F) (s : Sample F) (rest : List (Sample F))
      → a.have_base ≡ true
      → a.samples ≡ s ∷ rest
      → sum (used_sizes rest) < u64_mod
      → delta a ≡ mean (used_sizes rest) - a.baseline.benchmark_rss
  delta-mean a s rest h e fits =
      delta-excess a s rest h e
      ∙ ap (λ p. excess p a.baseline.benchmark_rss) (delta_loop-sum rest fits)
      ∙ excess-mean a.baseline.benchmark_rss (used_sizes rest)

  run_after_baseline :
      (a : Aggregator F) (first : Snapshot F) (rest : List (Snapshot F))
      → a.have_base ≡ true
      → a.samples ≡ []
      → sum (used_sizes (map aggregate rest)) < u64_mod
      → (series (record_all a (first ∷ rest)) ≡ (map aggregate (first ∷ rest), a.baseline, true))
        × (delta (record_all a (first ∷ rest))
            ≡ mean (used_sizes (map aggregate rest)) - a.baseline.benchmark_rss)
  unfolding series
  run_after_baseline a first rest h e fits =
      let snaps = first ∷ rest in
      let all : record_all a snaps ≡ record a { samples = map aggregate snaps } =
        record_all_based a snaps h ∙ ap (λ l. record a { samples = l ++ map aggregate snaps }) e in
      rw all (
        ap (λ b. (map aggregate snaps, a.baseline, b)) h,
        delta-mean (record a { samples = map aggregate snaps }) (aggregate first)
            (map aggregate rest) h refl fits,
      )

  set_baseline_lem :
      (a : Aggregator F) (fuel : ℕ) (snap labelled : Snapshot F)
      → Ownership.classify a.ownership fuel snap ≡ some labelled
      → set_baseline a fuel snap
        ≡ some (record a { baseline = aggregate labelled; have_base = true })
  unfolding set_baseline
  set_baseline_lem a fuel snap labelled h = ground arith

  -- A run whose baseline was set before it: if `Classify` returns on the baseline's snapshot, then
  -- `SetBaseline` on a new aggregator succeeds, and after the monitor's calls of `Record` the series
  -- is the aggregates of their snapshots in order, with the labelled baseline. If the sizes fit in 64
  -- bits, `Delta` is the mean size of the recorded samples with memory, the first one left out, less
  -- the baseline's size, and 0 below it.
  pub baseline_run :
      (c t fuel : ℕ) (base labelled first : Snapshot F) (rest : List (Snapshot F))
      → Ownership.classify (record { controller_pid = c; target_pid = t }) fuel base ≡ some labelled
      → sum (used_sizes (map aggregate rest)) < u64_mod
      → (a : Aggregator F) × (set_baseline (new_aggregator c t) fuel base ≡ some a)
        × (series (record_all a (first ∷ rest))
            ≡ (map aggregate (first ∷ rest), aggregate labelled, true))
        × (delta (record_all a (first ∷ rest))
            ≡ mean (used_sizes (map aggregate rest)) - (aggregate labelled).benchmark_rss)
  unfolding new_aggregator
  baseline_run c t fuel base labelled first rest h fits =
      let a = record (new_aggregator c t) { baseline = aggregate labelled; have_base = true } in
      let (ran, excess) = run_after_baseline a first rest refl refl fits in
      (a, set_baseline_lem (new_aggregator c t) fuel base labelled h, ran, excess)

  -- A run whose baseline could not be taken: the first recorded sample becomes the baseline.
  pub unset_baseline_run :
      (c t : ℕ) (first : Snapshot F) (rest : List (Snapshot F))
      → sum (used_sizes (map aggregate rest)) < u64_mod
      → let a = record_all (new_aggregator c t) (first ∷ rest) in
        (series a ≡ (map aggregate (first ∷ rest), aggregate first, true))
        × (delta a ≡ mean (used_sizes (map aggregate rest)) - (aggregate first).benchmark_rss)
  unfolding new_aggregator record_all record_sample
  unset_baseline_run c t first rest fits =
      run_after_baseline
        (record (new_aggregator c t) { baseline = aggregate first; have_base = true }) first rest
        refl refl fits
