-- ===== src/Results.antt =====
-- internal/results: results.go and resource_builder.go, without the writing of files. `FormatFloat` is a
-- parameter.
pub mod Columns
pub mod Files
pub mod Resources
mod Tests
use browser_analysis.Prelude.{
  ℕ, zero, suc, ◌*◌, ◌/◌, Bool, true, false, ◌||◌, List, [], ◌∷◌, Option, none, some, map, length,
  get_elem?, ltb, ◌==◌, if◌then◌else◌,
}
use browser_analysis.Prelude.Int.{ℤ}
use browser_analysis.Prelude.Text.{Text, codes, eq_text}
use browser_analysis.Prelude.Double.{Double}
use browser_analysis.Accounting.{Sample}
use browser_analysis.Accounting.Stats.{Uint64Stats, Float64Stats, stats, fstats, sum_floats}
use browser_analysis.Accounting.Aggregator.{Aggregator, series, delta}
use browser_analysis.Config.{Config}
use browser_analysis.Metrics.Recorder.{
  Recorder, latencies, transport_latencies, lifecycle_counts, snapshot,
}
use browser_analysis.Stats.{FloatMath, Summary, summarize}

abbrev pub is_browser_scenario : Text → Bool
is_browser_scenario s =
    eq_text s (codes "headed")
    || eq_text s (codes "headless")
    || eq_text s (codes "persistent-contexts")
    || eq_text s (codes "cdp")
    || eq_text s (codes "hybrid")

unfoldable pub worker_count_for : Config → ℤ
worker_count_for cfg =
    if is_browser_scenario cfg.scenario
    then cfg.concurrency.browser_worker_limit
    else cfg.concurrency.http_worker_limit

-- A cell of a CSV row: `""` past the end of the series.
unfoldable pub cell : {F : Type 0} → (F → Text) → List F → ℕ → Text
cell format xs i = elim (get_elem? xs i) [ none ↦ [] | some x ↦ format x ]

abbrev pub larger : ℕ → ℕ → ℕ
larger m n = if ltb m n then n else m

-- The loop of `writeBrowserCSV`, `k` rows from row `i` on.
unfoldable pub browser_rows_from :
    {F : Type 0} → (F → Text) → List F → List F → List F → ℕ → ℕ → List (Text × Text × Text)
unfolding cell
browser_rows_from format launches contexts connects zero i = []
browser_rows_from format launches contexts connects (suc k) i =
    (cell format launches i, cell format contexts i, cell format connects i)
    ∷ browser_rows_from format launches contexts connects k (suc i)

-- The rows of `writeBrowserCSV` below the header.
unfoldable pub browser_rows : {F : Type 0} → (F → Text) → Recorder F → List (Text × Text × Text)
unfolding browser_rows_from
browser_rows format rec =
    let rows =
      larger (larger (length rec.browser_launches) (length rec.context_creations))
        (length rec.cdp_connects) in
    browser_rows_from format rec.browser_launches rec.context_creations rec.cdp_connects rows 0

-- `Summary`, less what the controller fills in.
pub record RunSummary (F : Type 0) : Type 0 where
  pub scenario : Text
  pub workflow : Text
  pub concurrency : ℤ
  pub total_tasks : ℕ
  pub completed : ℕ
  pub failed : ℕ
  pub throughput : F
  pub process_count : ℕ
  pub latency : Summary F
  pub browser_launch : Summary F
  pub context_creation : Summary F
  pub cdp_connect : Summary F
  pub task_rss_bytes : Summary F
  pub escalations : ℕ
  pub http_step_total : F
  pub browser_step_total : F
  pub failures : List (Text × ℕ)

-- `ResourceSummary`.
pub record ResourceSummary (F : Type 0) : Type 0 where
  pub baseline_total_rss : ℕ
  pub architecture_rss_delta : ℕ
  pub total_rss : Uint64Stats
  pub browser_rss : Uint64Stats
  pub controller_rss : Uint64Stats
  pub target_rss : Uint64Stats
  pub task_rss : Uint64Stats
  pub benchmark_cpu : Float64Stats F
  pub browser_cpu : Float64Stats F
  pub controller_cpu : Float64Stats F
  pub target_cpu : Float64Stats F
  pub total_processes : Uint64Stats
  pub browser_processes : Uint64Stats
  pub renderer_processes : Uint64Stats
  pub utility_processes : Uint64Stats
  pub gpu_processes : Uint64Stats
  pub controller_processes : Uint64Stats
  pub target_processes : Uint64Stats
  pub browsers : ℕ
  pub contexts : ℕ
  pub pages : ℕ
  pub workers : ℕ
  pub memory_per_logical_task : ℕ
  pub browser_memory_per_context : ℕ
  pub memory_per_active_worker : ℕ
  pub throughput_per_cpu : F
  pub throughput_per_gb_rss : F

module _ {F : Type 0} ⦃d : Double F⦄ (m : FloatMath F) where
  -- `measured` is `float64(cfg.Timing.MeasurementSeconds)`; `eq_zero` is the test `== 0`.
  unfoldable pub throughput_of : (F → Bool) → F → F → ℕ → F
  throughput_of eq_zero measured elapsed complete =
      let zero = d.of_nat 0 in
      let seconds = if d.flt zero elapsed then elapsed else measured in
      if eq_zero seconds then zero else d.fdiv (d.of_nat complete) seconds

  -- `BuildSummary`. It leaves `ProcessCount` at 0.
  unfoldable pub build_summary : (F → Bool) → F → Recorder F → Config → Text → RunSummary F
  unfolding throughput_of
  build_summary eq_zero measured rec cfg workflow_name = record {
    scenario = cfg.scenario;
    workflow = workflow_name;
    concurrency = cfg.concurrency.logical_tasks;
    total_tasks = rec.tasks_created;
    completed = rec.tasks_complete;
    failed = rec.tasks_failed;
    throughput = throughput_of eq_zero measured rec.measurement_elapsed rec.tasks_complete;
    process_count = 0;
    latency = summarize m rec.workflow_latencies;
    browser_launch = summarize m rec.browser_launches;
    context_creation = summarize m rec.context_creations;
    cdp_connect = summarize m rec.cdp_connects;
    task_rss_bytes = summarize m rec.task_rss_deltas;
    escalations = rec.escalations;
    http_step_total = sum_floats (d.of_nat 0) rec.http_step_latencies;
    browser_step_total = sum_floats (d.of_nat 0) rec.browser_step_latencies;
    failures = rec.failures;
  }

-- A share that is left at 0 where the count is.
abbrev pub share : ℕ → ℕ → ℕ
share total n = if ltb 0 n then total / n else 0

module _ {F : Type 0} ⦃d : Double F⦄ where
  abbrev pub no_resources : ResourceSummary F
  no_resources =
      let zero = d.of_nat 0 in
      let none_counted : Uint64Stats = record { mean = 0; p50 = 0; p95 = 0; peak = 0 } in
      let none_measured : Float64Stats F = record {
        mean = zero;
        p50 = zero;
        p95 = zero;
        peak = zero;
      } in
      record {
        baseline_total_rss = 0;
        architecture_rss_delta = 0;
        total_rss = none_counted;
        browser_rss = none_counted;
        controller_rss = none_counted;
        target_rss = none_counted;
        task_rss = none_counted;
        benchmark_cpu = none_measured;
        browser_cpu = none_measured;
        controller_cpu = none_measured;
        target_cpu = none_measured;
        total_processes = none_counted;
        browser_processes = none_counted;
        renderer_processes = none_counted;
        utility_processes = none_counted;
        gpu_processes = none_counted;
        controller_processes = none_counted;
        target_processes = none_counted;
        browsers = 0;
        contexts = 0;
        pages = 0;
        workers = 0;
        memory_per_logical_task = 0;
        browser_memory_per_context = 0;
        memory_per_active_worker = 0;
        throughput_per_cpu = zero;
        throughput_per_gb_rss = zero;
      }

  -- `BuildResourceSummary` past its test.
  unfoldable pub sum_resources :
      List (Sample F) → Sample F → Aggregator F → Recorder F → ℕ → F → ResourceSummary F
  sum_resources samples base agg rec concurrency throughput =
      let zero = d.of_nat 0 in
      let grown = delta agg in
      let (browsers, contexts, pages) = lifecycle_counts rec in
      let total = stats (map (λ (s : Sample F). s.benchmark_rss) samples) in
      let browser = stats (map (λ (s : Sample F). s.browser_rss) samples) in
      let cpu = fstats (map (λ (s : Sample F). s.benchmark_cpu) samples) in
      let gb = d.of_nat (1024 * 1024 * 1024) in
      record {
        baseline_total_rss = base.benchmark_rss;
        architecture_rss_delta = grown;
        total_rss = total;
        browser_rss = browser;
        controller_rss = stats (map (λ (s : Sample F). s.controller_rss) samples);
        target_rss = stats (map (λ (s : Sample F). s.target_rss) samples);
        task_rss = stats (map d.to_u64 rec.task_rss_deltas);
        benchmark_cpu = cpu;
        browser_cpu = fstats (map (λ (s : Sample F). s.browser_cpu) samples);
        controller_cpu = fstats (map (λ (s : Sample F). s.controller_cpu) samples);
        target_cpu = fstats (map (λ (s : Sample F). s.target_cpu) samples);
        total_processes = stats (map (λ (s : Sample F). s.total_processes) samples);
        browser_processes = stats (map (λ (s : Sample F). s.browser_processes) samples);
        renderer_processes = stats (map (λ (s : Sample F). s.renderer_processes) samples);
        utility_processes = stats (map (λ (s : Sample F). s.utility_processes) samples);
        gpu_processes = stats (map (λ (s : Sample F). s.gpu_processes) samples);
        controller_processes = stats (map (λ (s : Sample F). s.controller_processes) samples);
        target_processes = stats (map (λ (s : Sample F). s.target_processes) samples);
        browsers = browsers;
        contexts = contexts;
        pages = pages;
        workers = concurrency;
        memory_per_logical_task = share grown concurrency;
        browser_memory_per_context = share browser.mean contexts;
        memory_per_active_worker = share grown concurrency;
        throughput_per_cpu = if d.flt zero cpu.mean then d.fdiv throughput cpu.mean else zero;
        throughput_per_gb_rss =
            if ltb 0 total.mean then d.fdiv throughput (d.fdiv (d.of_nat total.mean) gb) else zero;
      }

  unfoldable pub build_resource_summary : Aggregator F → Recorder F → ℕ → F → ResourceSummary F
  unfolding sum_resources
  build_resource_summary agg rec concurrency throughput =
      let (samples, base, ok) = series agg in
      if ok then sum_resources samples base agg rec concurrency throughput else no_resources
