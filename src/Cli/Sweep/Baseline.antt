-- ===== src/Cli/Sweep/Baseline.antt =====
-- The runs of a cell of a sweep of cmd/bench/commands.go, and the baseline that they make.
use browser_analysis.Prelude.{
  ◌∙◌, Option, none, some, ℕ, zero, suc, ◌+◌, ◌/◌, ◌≡◌, refl, ap, true, List, [], ◌∷◌, ◌⊎◌, inl,
  inr, map, arith,
}
use browser_analysis.Prelude.Int.{ℤ}
use browser_analysis.Prelude.Text.{Text}
use browser_analysis.Prelude.Word.{sum, sum64}
use browser_analysis.Prelude.Double.{Double}
use browser_analysis.Accounting.Stats.{sum_floats}
use browser_analysis.Cli.Args.{atoi}
use browser_analysis.Cli.Sweep.{
  Measured, Total, SweepError, pure, fail, cell_failed, divided_by_zero, no_total, accumulate,
  average, run_cell, add_up, measure_baseline, sweep_scenario,
}
use browser_analysis.Cli.Sweep.Rule.{Holds, stopped, gave, bind_rule, weaken}

module _ {F E W : Type 0} ⦃d : Double F⦄ (run : Text → ℤ → ℕ → W → (E ⊎ Measured F) × W) (reps : ℕ)
    (max_gb : F) (scenario : Text) where
  -- `k` repetitions from the `r`-th on, each in the world that the one before it left.
  pub data Collected (lvl : ℤ) : ℕ → ℕ → W → List (Measured F) → W → Type 0 where
    all_done : {r : ℕ} {w : W} → Collected lvl zero r w [] w
    one_more :
        {k r : ℕ} {w w' w'' : W} {m : Measured F} {ms : List (Measured F)}
        → run scenario lvl r w ≡ (inr m, w')
        → Collected lvl k (suc r) w' ms w''
        → Collected lvl (suc k) r w (m ∷ ms) w''

  pub run_cell_lem :
      (lvl : ℤ) (r : ℕ) (w : W)
      → Holds
          (λ m w'. run scenario lvl r w ≡ (inr m, w'))
          (run_cell run reps max_gb scenario lvl r w)
  unfolding run_cell
  run_cell_lem lvl r w = go (run scenario lvl r w) refl
    where
      go :
          (x : (E ⊎ Measured F) × W)
          → run scenario lvl r w ≡ x
          → Holds {E = E}
              (λ m w'. run scenario lvl r w ≡ (inr m, w'))
              (elim x.0 [ inl e ↦ (inl (cell_failed e), x.1) | inr m ↦ (inr m, x.1) ])
      go (inl e, w') h = stopped
      go (inr m, w') h = gave h

  -- The numbers that runs add up to, as plain sums.
  abbrev pub failures_of : List (Measured F) → ℕ
  failures_of ms = sum (map (λ (m : Measured F). m.summary.built.failed) ms)

  abbrev pub tasks_of : List (Measured F) → ℕ
  tasks_of ms = sum (map (λ (m : Measured F). m.summary.built.total_tasks) ms)

  abbrev summed : (Measured F → F) → F → List (Measured F) → F
  summed f from ms = sum_floats from (map f ms)

  -- The measures of a baseline: latencies, CPU and memory; and what they are after more runs.
  abbrev measures : Total F → F × F × F × F × ℕ × F
  measures b = (b.median, b.p95, b.p99, b.avg_cpu, b.avg_ram, b.rss_mean)

  abbrev measures_from : Total F → List (Measured F) → F × F × F × F × ℕ × F
  measures_from acc ms = (
    summed (λ m. m.summary.built.latency.median) acc.median ms,
    summed (λ m. m.summary.built.latency.p95) acc.p95 ms,
    summed (λ m. m.summary.built.latency.p99) acc.p99 ms,
    summed (λ m. m.summary.avg_cpu) acc.avg_cpu ms,
    sum64 acc.avg_ram (map (λ (m : Measured F). m.summary.avg_ram) ms),
    summed (λ m. m.summary.built.task_rss_bytes.mean) acc.rss_mean ms,
  )

  abbrev Added : ℤ → ℕ → ℕ → Total F → W → Total F → W → Type 0
  Added lvl k r acc w out w' =
      (ms : List (Measured F)) × Collected lvl k r w ms w'
      × (out.failed ≡ acc.failed + failures_of ms)
      × (out.total_tasks ≡ acc.total_tasks + tasks_of ms)
      × (measures out ≡ measures_from acc ms)

  add_up_lem :
      (lvl : ℤ) (k r : ℕ) (acc : Total F) (w : W)
      → Holds (Added lvl k r acc w) (add_up run reps max_gb scenario lvl k r acc w)
  unfolding add_up sum accumulate sum_floats sum64
  add_up_lem lvl zero r acc w = gave ([], all_done, omega arith, omega arith, refl)
  add_up_lem lvl (suc k) r acc w =
      bind_rule (λ m w'. run scenario lvl r w ≡ (inr m, w')) (Added lvl (suc k) r acc w)
        (run_cell run reps max_gb scenario lvl r)
        (λ m. add_up run reps max_gb scenario lvl k (suc r) (accumulate acc m.summary)) w
        (run_cell_lem lvl r w)
        (λ m w1 ran.
          weaken (Added lvl k (suc r) (accumulate acc m.summary) w1) (Added lvl (suc k) r acc w)
            (add_up run reps max_gb scenario lvl k (suc r) (accumulate acc m.summary) w1)
            (λ out w' got.
              let (ms, runs, failures, tasks, rest) = got in
              (m ∷ ms, one_more ran runs, omega (arith, failures), omega (arith, tasks), rest))
            (add_up_lem lvl k (suc r) (accumulate acc m.summary) w1))

  no_sum : {a b : ℕ} → a ≡ 0 + b → a ≡ b
  no_sum h = omega arith

  -- Each measure by the number of repetitions.
  abbrev averaged : F × F × F × F × ℕ × F → F × F × F × F × ℕ × F
  averaged (median, p95, p99, cpu, ram, rss) =
      let n = d.of_nat reps in
      (d.fdiv median n, d.fdiv p95 n, d.fdiv p99 n, d.fdiv cpu n, ram / reps, d.fdiv rss n)

  -- The baseline of a level is an average over the runs of all its repetitions.
  abbrev pub IsAverage : ℤ → W → Total F → W → Type 0
  IsAverage lvl w base w' =
      (ms : List (Measured F)) × Collected lvl reps 1 w ms w'
      × (base.failed ≡ failures_of ms / reps)
      × (base.total_tasks ≡ tasks_of ms / reps)
      × (measures base ≡ averaged (measures_from no_total ms))

  -- What `measure_baseline` does after its runs.
  abbrev settle : Option (Total F) → W → (SweepError E ⊎ Total F) × W
  settle o = elim o [ none ↦ fail divided_by_zero | some base ↦ pure base ]

  average_lem :
      (lvl : ℤ) (w w' : W) (acc : Total F) (k : ℕ)
      → k ≡ reps
      → Added lvl reps 1 no_total w acc w'
      → Holds (IsAverage lvl w) (settle (average acc k) w')
  unfolding average
  average_lem lvl w w' acc zero same got = stopped
  average_lem lvl w w' acc (suc k) same (ms, runs, failures, tasks, rest) = gave (
    ms,
    runs,
    ap (λ t. t / suc k) (no_sum failures) ∙ ap (λ n. failures_of ms / n) same,
    ap (λ t. t / suc k) (no_sum tasks) ∙ ap (λ n. tasks_of ms / n) same,
    by_count same ∙ ap averaged rest,
  )
    where
      by_count :
          suc k ≡ reps
          → (let n = d.of_nat (suc k) in
              (
                d.fdiv acc.median n,
                d.fdiv acc.p95 n,
                d.fdiv acc.p99 n,
                d.fdiv acc.avg_cpu n,
                acc.avg_ram / suc k,
                d.fdiv acc.rss_mean n,
              ))
            ≡ averaged (measures acc)
      by_count e =
          ap
            (λ c.
              let n = d.of_nat c in
              (
                d.fdiv acc.median n,
                d.fdiv acc.p95 n,
                d.fdiv acc.p99 n,
                d.fdiv acc.avg_cpu n,
                acc.avg_ram / c,
                d.fdiv acc.rss_mean n,
              ))
            e

  pub measure_baseline_lem :
      (lvl : ℤ) (w : W) → Holds (IsAverage lvl w) (measure_baseline run reps max_gb scenario lvl w)
  unfolding measure_baseline
  measure_baseline_lem lvl w =
      bind_rule (Added lvl reps 1 no_total w) (IsAverage lvl w)
        (add_up run reps max_gb scenario lvl reps 1 no_total) (λ acc. settle (average acc reps)) w
        (add_up_lem lvl reps 1 no_total w) (λ acc w' got. average_lem lvl w w' acc reps refl got)

module _ {F E W : Type 0} ⦃d : Double F⦄ (run : Text → ℤ → ℕ → W → (E ⊎ Measured F) × W)
    (max_gb : F) (scenario : Text) where
  -- With no repetitions a sweep makes no run, and panics with a division by zero, whatever
  -- the levels, if the first is a number.
  pub sweep_no_repetitions :
      (first : Text) (ts : List Text) (w : W)
      → (atoi first).1 ≡ true
      → sweep_scenario run 0 max_gb scenario first ts w ≡ (inl divided_by_zero, w)
  unfolding sweep_scenario measure_baseline add_up average
  sweep_no_repetitions first ts w number = rw number refl
