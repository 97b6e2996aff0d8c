-- ===== src/Cli/Sweep.antt =====
-- cmd/bench/commands.go: the matrix of `cmdSweep`, scenario by scenario: the baseline at the lowest
-- level, and the levels above it. A run of the controller is a parameter, with the world that it changes.
pub mod Rule
pub mod Baseline
pub mod Ladder
use browser_analysis.Prelude.{
  ℕ, zero, suc, ◌+◌, ◌/◌, ◌%◌, Bool, true, false, ◌&&◌, List, [], ◌∷◌, ◌++◌, ◌⊎◌, inl, inr, map,
  ltb, Option, none, some, if◌then◌else◌,
}
use browser_analysis.Prelude.Int.{ℤ}
use browser_analysis.Prelude.Text.{Text}
use browser_analysis.Prelude.Word.{add64}
use browser_analysis.Prelude.Double.{Double}
use browser_analysis.Accounting.Stats.{Uint64Stats, Float64Stats}
use browser_analysis.Cli.Args.{atoi, level_idx}
use browser_analysis.Cli.Args.Index.{drop}
use browser_analysis.Controller.Run.{FullSummary}
use browser_analysis.Results.{RunSummary, ResourceSummary}
use browser_analysis.Saturation.{
  Summary, Violation, Evaluation, Thresholds, default_thresholds, evaluate,
}

-- What one run gives: its summary, and the resources read back under its identifier.
pub record Measured (F : Type 0) : Type 0 where
  pub summary : FullSummary F
  pub resources : ResourceSummary F

-- `sweepCellResult`.
pub record Row (F : Type 0) : Type 0 where
  pub scenario : Text
  pub concurrency : ℤ
  pub rep : ℕ
  pub baseline : Bool
  pub p50 : F
  pub p95 : F
  pub p99 : F
  pub failed : ℕ
  pub total : ℕ
  pub cpu : F
  pub rss_mean_mb : F
  pub rss_p95_mb : F
  pub browser_rss_mean_mb : F
  pub browser_rss_p95_mb : F
  pub throughput : F
  pub benchmark_cpu_mean : F
  pub browser_cpu_mean : F
  pub process_mean : F
  pub process_peak : F
  pub browser_proc_mean : F
  pub browser_proc_peak : F
  pub not_run : Bool
  pub saturated : Bool
  pub violations : List Violation

-- The fields of the summary that the baseline adds up.
pub record Total (F : Type 0) : Type 0 where
  pub failed : ℕ
  pub total_tasks : ℕ
  pub median : F
  pub p95 : F
  pub p99 : F
  pub avg_cpu : F
  pub avg_ram : ℕ
  pub rss_mean : F

pub data SweepError {ℓ} (E : Type ℓ) : Type ℓ where
  invalid_concurrency : Text → SweepError E
  cell_failed : E → SweepError E
  -- The panic of an integer division by zero.
  divided_by_zero : SweepError E

abbrev pub Sweeping : Type 0 → Type 0 → Type 0 → Type 0
Sweeping E W A = W → (SweepError E ⊎ A) × W

infixl 5 ◌>>=◌
abbrev pub ◌>>=◌ : {E W A B : Type 0} → Sweeping E W A → (A → Sweeping E W B) → Sweeping E W B
◌>>=◌ m f w = let (got, w') = m w in elim got [ inl e ↦ (inl e, w') | inr a ↦ f a w' ]

abbrev pub pure : {E W A : Type 0} → A → Sweeping E W A
pure a w = (inr a, w)

abbrev pub fail : {E W A : Type 0} → SweepError E → Sweeping E W A
fail e w = (inl e, w)

-- `/` on integers, which panics if it is by 0.
abbrev pub divide : ℕ → ℕ → Option ℕ
divide a zero = none
divide a (suc n) = some (a / suc n)

module _ {F : Type 0} ⦃d : Double F⦄ where
  abbrev pub no_total : Total F
  no_total =
      let zero = d.of_nat 0 in
      record {
        failed = 0;
        total_tasks = 0;
        median = zero;
        p95 = zero;
        p99 = zero;
        avg_cpu = zero;
        avg_ram = 0;
        rss_mean = zero;
      }

  unfoldable pub accumulate : Total F → FullSummary F → Total F
  accumulate acc s = record {
    failed = acc.failed + s.built.failed;
    total_tasks = acc.total_tasks + s.built.total_tasks;
    median = d.fadd acc.median s.built.latency.median;
    p95 = d.fadd acc.p95 s.built.latency.p95;
    p99 = d.fadd acc.p99 s.built.latency.p99;
    avg_cpu = d.fadd acc.avg_cpu s.avg_cpu;
    avg_ram = add64 acc.avg_ram s.avg_ram;
    rss_mean = d.fadd acc.rss_mean s.built.task_rss_bytes.mean;
  }

  -- The code after three divisions, unless one panics.
  abbrev pub with_quotients :
      Option ℕ → Option ℕ → Option ℕ → (ℕ → ℕ → ℕ → Total F) → Option (Total F)
  with_quotients (some a) (some b) (some c) rest = some (rest a b c)
  with_quotients _ _ _ rest = none

  -- The divisions by `baseCount`; `none` if one of the integers panics.
  unfoldable pub average : Total F → ℕ → Option (Total F)
  average acc n =
      let count = d.of_nat n in
      with_quotients (divide acc.failed n) (divide acc.total_tasks n) (divide acc.avg_ram n)
        (λ failed total ram. record {
          failed = failed;
          total_tasks = total;
          median = d.fdiv acc.median count;
          p95 = d.fdiv acc.p95 count;
          p99 = d.fdiv acc.p99 count;
          avg_cpu = d.fdiv acc.avg_cpu count;
          avg_ram = ram;
          rss_mean = d.fdiv acc.rss_mean count;
        })

  -- The fields that `Evaluate` reads, of a run's summary and of the baseline.
  abbrev pub seen_run : FullSummary F → Summary F
  seen_run s = record {
    avg_cpu = s.avg_cpu;
    p95 = s.built.latency.p95;
    p99 = s.built.latency.p99;
    failed = s.built.failed;
    total_tasks = s.built.total_tasks;
  }

  abbrev pub seen_baseline : Total F → Summary F
  seen_baseline b = record {
    avg_cpu = b.avg_cpu;
    p95 = b.p95;
    p99 = b.p99;
    failed = b.failed;
    total_tasks = b.total_tasks;
  }

  abbrev mb : F → F
  mb x = d.fdiv x (d.of_nat 1_048_576)

  abbrev pub empty_row : Text → ℤ → Row F
  empty_row scenario lvl =
      let zero = d.of_nat 0 in
      record {
        scenario = scenario;
        concurrency = lvl;
        rep = 0;
        baseline = false;
        p50 = zero;
        p95 = zero;
        p99 = zero;
        failed = 0;
        total = 0;
        cpu = zero;
        rss_mean_mb = zero;
        rss_p95_mb = zero;
        browser_rss_mean_mb = zero;
        browser_rss_p95_mb = zero;
        throughput = zero;
        benchmark_cpu_mean = zero;
        browser_cpu_mean = zero;
        process_mean = zero;
        process_peak = zero;
        browser_proc_mean = zero;
        browser_proc_peak = zero;
        not_run = false;
        saturated = false;
        violations = [];
      }

  unfoldable pub baseline_row : Text → ℤ → Total F → Row F
  baseline_row scenario lvl b = record (empty_row scenario lvl) {
    baseline = true;
    p50 = b.median;
    p95 = b.p95;
    cpu = b.avg_cpu;
    rss_mean_mb = mb b.rss_mean;
  }

  unfoldable pub not_run_row : Text → Text → Row F
  unfolding atoi
  not_run_row scenario level = record (empty_row scenario (atoi level).0) { not_run = true }

  unfoldable pub row_of : Text → ℤ → Total F → ℕ → Measured F → Row F
  unfolding evaluate
  row_of scenario lvl base rep m =
      let s = m.summary in
      let r = m.resources in
      let ev = evaluate (seen_run s) (seen_baseline base) default_thresholds in
      record {
        scenario = scenario;
        concurrency = lvl;
        rep = rep;
        baseline = false;
        p50 = s.built.latency.median;
        p95 = s.built.latency.p95;
        p99 = s.built.latency.p99;
        failed = s.built.failed;
        total = s.built.total_tasks;
        cpu = s.avg_cpu;
        rss_mean_mb = mb s.built.task_rss_bytes.mean;
        rss_p95_mb = mb s.built.task_rss_bytes.p95;
        browser_rss_mean_mb = mb (d.of_nat r.browser_rss.mean);
        browser_rss_p95_mb = mb (d.of_nat r.browser_rss.p95);
        throughput = s.built.throughput;
        benchmark_cpu_mean = r.benchmark_cpu.mean;
        browser_cpu_mean = r.browser_cpu.mean;
        process_mean = d.of_nat r.total_processes.mean;
        process_peak = d.of_nat r.total_processes.peak;
        browser_proc_mean = d.of_nat r.browser_processes.mean;
        browser_proc_peak = d.of_nat r.browser_processes.peak;
        not_run = false;
        saturated = ev.saturated;
        violations = ev.violations;
      }

module _ {F E W : Type 0} ⦃d : Double F⦄ (run : Text → ℤ → ℕ → W → (E ⊎ Measured F) × W) (reps : ℕ)
    (max_gb : F) where
  -- `runSweepCell`, with an error that ends the sweep.
  pub run_cell : Text → ℤ → ℕ → Sweeping E W (Measured F)
  run_cell scenario lvl rep w =
      let (got, w') = run scenario lvl rep w in
      elim got [ inl e ↦ (inl (cell_failed e), w') | inr m ↦ (inr m, w') ]

  -- The repetitions of the baseline, `k` of them from the `r`-th on.
  unfoldable pub add_up : Text → ℤ → ℕ → ℕ → Total F → Sweeping E W (Total F)
  unfolding run_cell accumulate
  add_up scenario lvl zero r acc = pure acc
  add_up scenario lvl (suc k) r acc = do
    m ← run_cell scenario lvl r
    add_up scenario lvl k (suc r) (accumulate acc m.summary)

  unfoldable pub measure_baseline : Text → ℤ → Sweeping E W (Total F)
  unfolding add_up average
  measure_baseline scenario lvl = do
    acc ← add_up scenario lvl reps 1 no_total
    elim (average acc reps) [ none ↦ fail divided_by_zero | some base ↦ pure base ]

  -- The repetitions of a level above it, with their rows and the highest peak so far.
  unfoldable pub repeat_cell : Text → ℤ → Total F → ℕ → ℕ → ℕ → Sweeping E W (List (Row F) × ℕ)
  unfolding run_cell row_of
  repeat_cell scenario lvl base zero r peak = pure ([], peak)
  repeat_cell scenario lvl base (suc k) r peak = do
    m ← run_cell scenario lvl r
    let highest = if ltb peak m.summary.peak_ram then m.summary.peak_ram else peak
    rest ← repeat_cell scenario lvl base k (suc r) highest
    pure (row_of scenario lvl base r m ∷ rest.0, rest.1)

  -- Whether the peak of the previous level is above the ceiling, if there are both.
  unfoldable pub exceeds : ℕ → Bool
  exceeds peak =
      d.flt (d.of_nat 0) max_gb
      && (ltb 0 peak && d.flt (d.fmul max_gb (d.of_nat 1_073_741_824)) (d.of_nat peak))

  -- `safetyLoop`; `levels` are all levels of the sweep.
  unfoldable pub safety_loop :
      Text → Total F → List Text → ℕ → List Text → Sweeping E W (List (Row F))
  unfolding repeat_cell exceeds not_run_row level_idx
  safety_loop scenario base levels peak [] = pure []
  safety_loop scenario base levels peak (t ∷ ts) =
      let climb : Sweeping E W (List (Row F)) = do
        ran ← repeat_cell scenario (atoi t).0 base reps 1 0
        rest ← safety_loop scenario base levels ran.1 ts
        pure (ran.0 ++ rest)
      in if (atoi t).1
        then (if exceeds peak
            then pure (map (not_run_row scenario) (drop (level_idx levels t) levels))
            else climb)
        else fail (invalid_concurrency t)

  -- One scenario, with the levels `first ∷ ts`.
  unfoldable pub sweep_scenario : Text → Text → List Text → Sweeping E W (List (Row F))
  unfolding measure_baseline safety_loop baseline_row
  sweep_scenario scenario first ts =
      let measure : Sweeping E W (List (Row F)) = do
        base ← measure_baseline scenario (atoi first).0
        rest ← safety_loop scenario base (first ∷ ts) 0 ts
        pure (baseline_row scenario (atoi first).0 base ∷ rest)
      in if (atoi first).1 then measure else fail (invalid_concurrency first)

  unfoldable pub sweep_scenarios : List Text → Text → List Text → Sweeping E W (List (Row F))
  unfolding sweep_scenario
  sweep_scenarios [] first ts = pure []
  sweep_scenarios (s ∷ ss) first ts = do
    rows ← sweep_scenario s first ts
    rest ← sweep_scenarios ss first ts
    pure (rows ++ rest)
