-- ===== src/Cli/Runs.antt =====
-- cmd/bench/commands.go: what the commands read back from the directories of earlier runs. The file
-- system and the JSON decoder are the parameter `Disk`; a dictionary stands for a map, in some order.
pub mod Verdicts
mod Tests
use browser_analysis.Prelude.{
  ℕ, suc, ◌+◌, ◌≡◌, Bool, true, false, not, ◌&&◌, List, [], ◌∷◌, ◌++◌, Option, none, some, ◌⊎◌, inl,
  inr, map, length, count_if, arith, ◌↔◌, if◌then◌else◌,
}
use browser_analysis.Prelude.Int.{ℤ, ltb_ℤ, eq_ℤ, eq_ℤ_iff}
use browser_analysis.Prelude.Text.{Text, eq_text, eq_text_iff}
use browser_analysis.Prelude.Double.{Double}
use browser_analysis.Prelude.Dict.{Eq, Dict, look_up, put, tally, text_eq, int_eq}
use browser_analysis.Prelude.Sort.{sort_by}
use browser_analysis.Accounting.Stats.{Uint64Stats, Float64Stats}
use browser_analysis.Cli.Sweep.{Row, seen_run}
use browser_analysis.Controller.Run.{FullSummary}
use browser_analysis.Results.{RunSummary, ResourceSummary}
use browser_analysis.Saturation.{failure_rate}

pub record DirEntry : Type 0 where
  pub name : Text
  pub is_dir : Bool

-- summary.json.
pub record Saved (F : Type 0) : Type 0 where
  pub run_id : Text
  pub summary : FullSummary F

-- `os.ReadDir`.
pub data Listing {ℓ} (E : Type ℓ) : Type ℓ where
  missing unreadable : E → Listing E
  listed : List DirEntry → Listing E

-- `os.ReadDir` of raw, and `readJSONFile` into a zero value: what is in it then, and whether there is no
-- error.
pub record Disk (F E : Type 0) : Type 0 where
  pub raw : Listing E
  pub read_summary : Text → Saved F × Bool
  pub read_resources : Text → ResourceSummary F × Bool

-- `runEntry`.
pub record RunEntry (F : Type 0) : Type 0 where
  pub id : Text
  pub scenario : Text
  pub workflow : Text
  pub throughput : F
  pub completed : ℕ
  pub failed : ℕ
  pub p95 : F

-- `runAgg`; the scenario and the concurrency are those of the summary.
pub record RunAgg (F : Type 0) : Type 0 where
  pub id : Text
  pub summary : FullSummary F
  pub resource : ResourceSummary F

-- `results.ResourceRow` and `results.ScalingRow`.
pub record ResourceRow (F : Type 0) : Type 0 where
  pub run_id : Text
  pub scenario : Text
  pub concurrency : ℤ
  pub total_rss_mean_mb : F
  pub total_rss_p95_mb : F
  pub total_rss_peak_mb : F
  pub browser_rss_mean_mb : F
  pub browser_rss_p95_mb : F
  pub task_rss_mean_mb : F
  pub benchmark_cpu_mean : F
  pub process_mean : F
  pub browser_process_mean : F
  pub browsers : ℕ
  pub contexts : ℕ
  pub pages : ℕ

pub record ScalingRow (F : Type 0) : Type 0 where
  pub concurrency : ℤ
  pub throughput : F
  pub p95 : F
  pub p99 : F
  pub cpu : F
  pub rss_mean_mb : F
  pub browser_rss_mean_mb : F
  pub process_mean : F
  pub browser_process_mean : F
  pub contexts : ℕ
  pub failure_rate : F
  pub saturated : Bool

-- The key of `satMap`. Its text is `scenario/concurrency`, from which both can be read, since a number
-- has no slash.
pub record CellKey : Type 0 where
  pub scenario : Text
  pub concurrency : ℤ

abbrev pub eq_key : CellKey → CellKey → Bool
eq_key a b = eq_text a.scenario b.scenario && eq_ℤ a.concurrency b.concurrency

pub eq_key_iff : (a b : CellKey) → (eq_key a b ≡ true) ↔ (a ≡ b)
eq_key_iff a b = (
  (λ h. ground (arith, eq_text_iff a.scenario b.scenario, eq_ℤ_iff a.concurrency b.concurrency)),
  (λ h.
      rw h
        (ground (arith, eq_text_iff b.scenario b.scenario, eq_ℤ_iff b.concurrency b.concurrency))),
)

instance abbrev pub key_eq : Eq CellKey
key_eq = record { beq = eq_key; beq_iff = eq_key_iff }

module _ {F E : Type 0} ⦃d : Double F⦄ (disk : Disk F E) where
  -- The loop of `listRuns`.
  unfoldable pub list_entries : List DirEntry → List (RunEntry F)
  list_entries [] = []
  list_entries (e ∷ es) =
      let rest = list_entries es in
      let (s, ok) = disk.read_summary e.name in
      let b = s.summary.built in
      if e.is_dir && ok
      then (record {
        id = s.run_id;
        scenario = b.scenario;
        workflow = b.workflow;
        throughput = b.throughput;
        completed = b.completed;
        failed = b.failed;
        p95 = b.latency.p95;
      }
          ∷ rest)
      else rest

  unfoldable pub list_runs : E ⊎ List (RunEntry F)
  unfolding list_entries
  list_runs = elim disk.raw [
    | missing e ↦ inr []
    | unreadable e ↦ inl e
    | listed es ↦ inr (list_entries es)
  ]

  -- The loop of `collectRuns`. A run without resources has those of a zero value.
  unfoldable pub collect_entries : List DirEntry → List (RunAgg F)
  collect_entries [] = []
  collect_entries (e ∷ es) =
      let rest = collect_entries es in
      let (s, ok) = disk.read_summary e.name in
      if e.is_dir && ok
      then (record { id = e.name; summary = s.summary; resource = (disk.read_resources e.name).0 }
          ∷ rest)
      else rest

  unfoldable pub collect_runs : List (RunAgg F)
  unfolding collect_entries
  collect_runs = elim disk.raw [
    | missing e ↦ []
    | unreadable e ↦ []
    | listed es ↦ collect_entries es
  ]

abbrev pub cell_key : {F : Type 0} → Row F → CellKey
cell_key c = record { scenario = c.scenario; concurrency = c.concurrency }

-- `satMap`.
unfoldable pub sat_map : {F : Type 0} → List (Row F) → Dict CellKey Bool
unfolding tally
sat_map cells = tally cell_key (λ o c. c.saturated) cells []

-- An index that is not there gives false.
abbrev pub or_false : Option Bool → Bool
or_false none = false
or_false (some b) = b

abbrev pub run_key : {F : Type 0} → FullSummary F → CellKey
run_key s = record { scenario = s.built.scenario; concurrency = s.built.concurrency }

module _ {F : Type 0} ⦃d : Double F⦄ where
  abbrev megabytes : F → F
  megabytes x = d.fdiv x (d.of_nat 1_048_576)

  unfoldable pub resource_row : Text → FullSummary F → ResourceSummary F → ResourceRow F
  resource_row name s rs = record {
    run_id = name;
    scenario = s.built.scenario;
    concurrency = s.built.concurrency;
    total_rss_mean_mb = megabytes (d.of_nat rs.total_rss.mean);
    total_rss_p95_mb = megabytes (d.of_nat rs.total_rss.p95);
    total_rss_peak_mb = megabytes (d.of_nat rs.total_rss.peak);
    browser_rss_mean_mb = megabytes (d.of_nat rs.browser_rss.mean);
    browser_rss_p95_mb = megabytes (d.of_nat rs.browser_rss.p95);
    task_rss_mean_mb = megabytes (d.of_nat rs.task_rss.mean);
    benchmark_cpu_mean = rs.benchmark_cpu.mean;
    process_mean = d.of_nat rs.total_processes.mean;
    browser_process_mean = d.of_nat rs.browser_processes.mean;
    browsers = rs.browsers;
    contexts = rs.contexts;
    pages = rs.pages;
  }

  unfoldable pub scaling_row : Bool → FullSummary F → ResourceSummary F → ScalingRow F
  unfolding failure_rate
  scaling_row saturated s rs = record {
    concurrency = s.built.concurrency;
    throughput = s.built.throughput;
    p95 = s.built.latency.p95;
    p99 = s.built.latency.p99;
    cpu = s.avg_cpu;
    rss_mean_mb = megabytes (d.of_nat rs.total_rss.mean);
    browser_rss_mean_mb = megabytes (d.of_nat rs.browser_rss.mean);
    process_mean = d.of_nat rs.total_processes.mean;
    browser_process_mean = d.of_nat rs.browser_processes.mean;
    contexts = rs.contexts;
    failure_rate = failure_rate (seen_run s);
    saturated = saturated;
  }

module _ {F E : Type 0} ⦃d : Double F⦄ where
  -- The loop of `writeSweepSummaries`.
  unfoldable pub summary_rows :
      Disk F E → Dict CellKey Bool → List DirEntry → List (ResourceRow F) × List (ScalingRow F)
  unfolding resource_row scaling_row look_up
  summary_rows disk sat [] = ([], [])
  summary_rows disk sat (e ∷ es) =
      let (res, scale) = summary_rows disk sat es in
      let (rs, has_resources) = disk.read_resources e.name in
      let (s, has_summary) = disk.read_summary e.name in
      let saturated = or_false (look_up (run_key s.summary) sat) in
      if e.is_dir && (has_resources && has_summary)
      then (resource_row e.name s.summary rs ∷ res, scaling_row saturated s.summary rs ∷ scale)
      else (res, scale)

  -- `writeSweepSummaries` up to the writing.
  unfoldable pub sweep_summaries :
      Disk F E → List (Row F) → E ⊎ (List (ResourceRow F) × List (ScalingRow F))
  unfolding summary_rows sat_map
  sweep_summaries disk cells = elim disk.raw [
    | missing e ↦ inl e
    | unreadable e ↦ inl e
    | listed es ↦ inr (summary_rows disk (sat_map cells) es)
  ]
