-- ===== src/Cli/Report.antt =====
-- cmd/bench/commands.go: what `writeHolisticSummary` and `cmdAnalyzeSweep` make of runs and cells. The
-- text around the numbers is left aside, and so is the order of the scenarios, which is that of a Go map.
pub mod Groups
mod Tests
use browser_analysis.Prelude.{
  ℕ, suc, ◌+◌, Bool, true, false, List, [], ◌∷◌, ◌++◌, Option, none, some, map, length, count_if,
}
use browser_analysis.Prelude.Int.{ℤ, ltb_ℤ}
use browser_analysis.Prelude.Text.{Text}
use browser_analysis.Prelude.Double.{Double}
use browser_analysis.Prelude.Dict.{Dict, look_up, put, tally, text_eq, int_eq}
use browser_analysis.Prelude.Sort.{sort_by}
use browser_analysis.Accounting.Stats.{Uint64Stats}
use browser_analysis.Cli.Runs.{RunAgg}
use browser_analysis.Cli.Sweep.{Row}
use browser_analysis.Controller.Run.{FullSummary}
use browser_analysis.Results.{RunSummary, ResourceSummary}

-- The struct `cell`: sums over the runs of a scenario at a concurrency.
pub record Sums (F : Type 0) : Type 0 where
  pub n : ℕ
  pub tput : F
  pub p50 : F
  pub p95 : F
  pub p99 : F
  pub total_rss : F
  pub browser_rss : F
  pub procs : F

-- A line of a scaling table.
pub record Line (F : Type 0) : Type 0 where
  pub concurrency : ℤ
  pub reps : ℕ
  pub tput : F
  pub p50 : F
  pub p95 : F
  pub p99 : F
  pub total_rss_mb : F
  pub browser_rss_mb : F
  pub procs : F

pub record Overall (F : Type 0) : Type 0 where
  pub total_runs : ℕ
  pub mean_tput : F
  pub mean_p95 : F

-- A line of `cmdAnalyzeSweep`.
pub record SweepLine : Type 0 where
  pub cells : ℕ
  pub saturated : ℕ

-- A nil map or slice is empty.
abbrev pub or_empty {ℓ} : {A : Type ℓ} → Option (List A) → List A
or_empty none = []
or_empty (some xs) = xs

abbrev pub scenario_of : {F : Type 0} → RunAgg F → Text
scenario_of r = r.summary.built.scenario

abbrev pub concurrency_of : {F : Type 0} → RunAgg F → ℤ
concurrency_of r = r.summary.built.concurrency

module _ {F : Type 0} ⦃d : Double F⦄ where
  abbrev pub no_sums : Sums F
  no_sums =
      let zero = d.of_nat 0 in
      record {
        n = 0;
        tput = zero;
        p50 = zero;
        p95 = zero;
        p99 = zero;
        total_rss = zero;
        browser_rss = zero;
        procs = zero;
      }

  abbrev pub or_no_sums : Option (Sums F) → Sums F
  or_no_sums none = no_sums
  or_no_sums (some c) = c

  -- The body of the loop over the runs, on the cell that is there or a new one.
  unfoldable pub add_run : Option (Sums F) → RunAgg F → Sums F
  add_run o r =
      let c = or_no_sums o in
      let s = r.summary.built in
      record {
        n = suc c.n;
        tput = d.fadd c.tput s.throughput;
        p50 = d.fadd c.p50 s.latency.median;
        p95 = d.fadd c.p95 s.latency.p95;
        p99 = d.fadd c.p99 s.latency.p99;
        total_rss = d.fadd c.total_rss (d.of_nat r.resource.total_rss.mean);
        browser_rss = d.fadd c.browser_rss (d.of_nat r.resource.browser_rss.mean);
        procs = d.fadd c.procs (d.of_nat r.resource.total_processes.mean);
      }

  unfoldable pub add_to_scenario : Option (Dict ℤ (Sums F)) → RunAgg F → Dict ℤ (Sums F)
  unfolding add_run
  add_to_scenario o r =
      let sm = or_empty o in put (concurrency_of r) (add_run (look_up (concurrency_of r) sm) r) sm

  -- `groups`.
  unfoldable pub group_runs : List (RunAgg F) → Dict Text (Dict ℤ (Sums F))
  unfolding tally add_to_scenario
  group_runs runs = tally scenario_of add_to_scenario runs []

  unfoldable pub line_of : ℤ → Sums F → Line F
  line_of c s =
      let n = d.of_nat s.n in
      let mb = λ (x : F). d.fdiv (d.fdiv x n) (d.of_nat 1_048_576) in
      record {
        concurrency = c;
        reps = s.n;
        tput = d.fdiv s.tput n;
        p50 = d.fdiv s.p50 n;
        p95 = d.fdiv s.p95 n;
        p99 = d.fdiv s.p99 n;
        total_rss_mb = mb s.total_rss;
        browser_rss_mb = mb s.browser_rss;
        procs = d.fdiv s.procs n;
      }

  -- The table of one scenario, by ascending concurrency.
  unfoldable pub scaling_table : Dict ℤ (Sums F) → List (Line F)
  unfolding line_of sort_by look_up
  scaling_table sm =
      map (λ c. line_of c (or_no_sums (look_up c sm))) (sort_by ltb_ℤ (map (λ p. p.0) sm))

  sum_runs : (RunAgg F → F) → F → List (RunAgg F) → F
  sum_runs f acc [] = acc
  sum_runs f acc (r ∷ rs) = sum_runs f (d.fadd acc (f r)) rs

  unfoldable pub overall : List (RunAgg F) → Overall F
  unfolding sum_runs
  overall all =
      let total = d.of_nat (length all) in
      record {
        total_runs = length all;
        mean_tput = d.fdiv (sum_runs (λ r. r.summary.built.throughput) (d.of_nat 0) all) total;
        mean_p95 = d.fdiv (sum_runs (λ r. r.summary.built.latency.p95) (d.of_nat 0) all) total;
      }

  -- `writeHolisticSummary`: "No measurement available", or the tables and the totals.
  unfoldable pub holistic_summary : List (RunAgg F) → Option (Dict Text (List (Line F)) × Overall F)
  unfolding group_runs scaling_table overall
  holistic_summary [] = none
  holistic_summary (r ∷ rs) =
      let all = r ∷ rs in some (map (λ g. (g.0, scaling_table g.1)) (group_runs all), overall all)

module _ {F : Type 0} where
  unfoldable pub count_saturated : List (Row F) → ℕ
  count_saturated [] = 0
  count_saturated (c ∷ cs) =
      let n = count_saturated cs in elim c.saturated [ true ↦ suc n | false ↦ n ]

  -- `byScenario`.
  unfoldable pub by_scenario : List (Row F) → Dict Text (List (Row F))
  unfolding tally
  by_scenario cells = tally (λ c. c.scenario) (λ o c. or_empty o ++ c ∷ []) cells []

  unfoldable pub analyze_sweep : List (Row F) → ℕ × Dict Text SweepLine
  unfolding by_scenario count_saturated
  analyze_sweep cells = (
    length cells,
    map (λ g. (g.0, record { cells = length g.1; saturated = count_saturated g.1 }))
        (by_scenario cells),
  )
