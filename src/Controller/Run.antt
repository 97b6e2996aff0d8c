-- ===== src/Controller/Run.antt =====
-- `Run` of internal/controller/controller.go, from the pool to the results, as the calls that it makes.
-- What each call gives is an argument; deferred calls stand where they are made. A start of the pool,
-- of a manager or of Playwright that fails is not among the calls.
pub mod Handover
pub mod Release
pub mod Outcome
mod Tests
use browser_analysis.Prelude.{
  ℕ, zero, suc, Bool, true, false, not, ◌&&◌, List, [], ◌∷◌, ◌++◌, Option, none, some,
  if◌then◌else◌,
}
use browser_analysis.Prelude.Int.{ℤ, pos, pos_part, ltb_ℤ}
use browser_analysis.Prelude.Text.{Text, codes, eq_text, is_empty}
use browser_analysis.Prelude.Double.{Double}
use browser_analysis.Accounting.Aggregator.{Aggregator}
use browser_analysis.Config.{Config}
use browser_analysis.Controller.{worker_limit, per_worker}
use browser_analysis.Metrics.Recorder.{Recorder}
use browser_analysis.Metrics.Sampler.{Sampler, write_csv, aggregates}
use browser_analysis.Results.{RunSummary, build_summary, ResourceSummary, build_resource_summary}
use browser_analysis.Stats.{FloatMath}

pub data Kind : Type 0 where
  http headed contexts cdp hybrid unknown : Kind

-- The cases of the switch over `cfg.Scenario`.
unfoldable pub kind_of : Text → Kind
kind_of s =
    if eq_text s (codes "http")
    then http
    else if eq_text s (codes "headed")
    then headed
    else if eq_text s (codes "headless")
    then headed
    else if eq_text s (codes "persistent-contexts")
    then contexts
    else if eq_text s (codes "cdp")
    then cdp
    else if eq_text s (codes "hybrid")
    then hybrid
    else unknown

-- A call on a worker's making has its index and, where it has a pool, the contexts of that.
pub data Call : Type 0 where
  new_pool close_pool take_baseline set_workers : Call
  new_client close_client new_manager close_manager run_playwright stop_playwright : Call
  make_http_worker make_browser_worker : ℕ → Call
  make_context_worker make_cdp_worker : ℕ → ℕ → Call
  make_hybrid_worker : Text → ℕ → ℕ → Call
  make_run_context cancel_run watch_signals unwatch_signals : Call
  start_sampler cancel_sampler drain_sampler : Call
  start_monitor cancel_monitor drain_monitor drive : Call
  write_run write_system write_processes write_summary write_resources publish : Call

pub data RunError (E : Type 0) : Type 0 where
  pool_size : ℤ → RunError E
  no_manager no_playwright : E → RunError E
  worker_failed : ℕ → E → RunError E
  not_implemented : Text → RunError E
  benchmark_failed run_not_written summary_not_written : E → RunError E

-- What the calls give. `cancelled` is `runCtx.Err() != nil` after the driver's return, and the last
-- three are the states of the recorder, the sampler and the aggregator then.
pub record Met (F E : Type 0) : Type 0 where
  pub manager_err : Option E
  pub playwright_err : Option E
  pub worker_err : ℕ → Option E
  pub driver_err : Option E
  pub cancelled : Bool
  pub write_run_err : Option E
  pub system_written : Bool
  pub write_summary_err : Option E
  pub rec : Recorder F
  pub sampler : Sampler F
  pub aggregator : Aggregator F

-- `results.Summary` with the fields that `Run` sets.
pub record FullSummary (F : Type 0) : Type 0 where
  pub built : RunSummary F
  pub peak_cpu : F
  pub avg_cpu : F
  pub peak_ram : ℕ
  pub avg_ram : ℕ

-- `Run` returns a summary, a summary with the error "benchmark cancelled", or another error.
pub data Ended (F E : Type 0) : Type 0 where
  finished cancelled_with : FullSummary F → ResourceSummary F → Ended F E
  failed : RunError E → Ended F E

pub record Ran (F E : Type 0) : Type 0 where
  pub calls : List Call
  pub ended : Ended F E

abbrev pub stop_here : {F E : Type 0} → RunError E → Ran F E
stop_here e = record { calls = []; ended = failed e }

-- The calls before a part of the run, and those deferred after it.
abbrev pub around : {F E : Type 0} → List Call → Ran F E → List Call → Ran F E
around before r after = record r { calls = before ++ (r.calls ++ after) }

-- What `Run` calls around the driver, and what it has deferred then.
abbrev pub around_driver : List Call
around_driver =
    set_workers ∷ make_run_context ∷ watch_signals ∷ start_sampler ∷ start_monitor ∷ drive
    ∷ cancel_sampler ∷ drain_sampler ∷ cancel_monitor ∷ drain_monitor ∷ []

abbrev pub deferred : List Call
deferred = cancel_monitor ∷ cancel_sampler ∷ unwatch_signals ∷ cancel_run ∷ []

-- The policy that "" stands for.
abbrev pub policy_or_default : Text → Text
policy_or_default p = if is_empty p then codes "workflow" else p

-- One loop over the workers: worker `i` and the `k - 1` after it, up to the first error.
unfoldable pub make_workers :
    {E : Type 0} → (ℕ → Call) → (ℕ → Option E) → ℕ → ℕ → List Call × Option (ℕ × E)
make_workers make err zero i = ([], none)
make_workers make err (suc k) i =
    let (later, stopped) = make_workers make err k (suc i) in
    elim (err i) [ some e ↦ (make i ∷ [], some (i, e)) | none ↦ (make i ∷ later, stopped) ]

-- The loop of each case. A worker over HTTP alone, or with a browser for each task, cannot fail.
unfoldable pub workers_of :
    {E : Type 0} → Kind → Config → (ℕ → Option E) → List Call × Option (ℕ × E)
unfolding make_workers
workers_of kind cfg err =
    let limit = pos_part (worker_limit cfg) in
    let share = per_worker cfg.contexts_count limit in
    elim kind [
      | http ↦ make_workers make_http_worker (λ i. none) limit 0
      | headed ↦ make_workers make_browser_worker (λ i. none) limit 0
      | contexts ↦ make_workers (λ i. make_context_worker i share) err limit 0
      | cdp ↦ make_workers (λ i. make_cdp_worker i share) err limit 0
      | hybrid ↦
          let policy = policy_or_default cfg.escalation in
          make_workers (λ i. make_hybrid_worker policy i share) err limit 0
      | unknown ↦ ([], none)
    ]

module _ {F E : Type 0} ⦃d : Double F⦄ (fm : FloatMath F) (eq_zero : F → Bool) (measured : F) where
  unfoldable pub summary_of : Config → Text → Met F E → FullSummary F
  summary_of cfg workflow met =
      let a = aggregates (write_csv met.system_written met.sampler) in
      record {
        built = build_summary fm eq_zero measured met.rec cfg workflow;
        peak_cpu = a.peak_cpu;
        avg_cpu = a.avg_cpu;
        peak_ram = a.peak_ram;
        avg_ram = a.avg_ram;
      }

  unfoldable pub resources_of : Config → Text → Met F E → ResourceSummary F
  unfolding summary_of
  resources_of cfg workflow met =
      build_resource_summary met.aggregator met.rec (pos_part cfg.concurrency.logical_tasks)
        (summary_of cfg workflow met).built.throughput

  -- From `WriteSummary` on. `exporting` is `exp != nil`.
  unfoldable pub publish_all : Config → Text → Bool → Met F E → Ran F E
  unfolding summary_of resources_of
  publish_all cfg workflow exporting met =
      let s = summary_of cfg workflow met in
      let r = resources_of cfg workflow met in
      elim met.write_summary_err [
        | some e ↦ record { calls = write_summary ∷ []; ended = failed (summary_not_written e) }
        | none ↦ record {
          calls = write_summary ∷ write_resources ∷ (if exporting then publish ∷ [] else []);
          ended = if met.cancelled then cancelled_with s r else finished s r;
        }
      ]

  -- From `WriteRun` on.
  unfoldable pub persist : Config → Text → Bool → Met F E → Ran F E
  unfolding publish_all
  persist cfg workflow exporting met = elim met.write_run_err [
    | some e ↦ record { calls = write_run ∷ []; ended = failed (run_not_written e) }
    | none ↦
        around (write_run ∷ write_system ∷ write_processes ∷ [])
          (publish_all cfg workflow exporting met) []
  ]

  -- The test after the driver: an error counts only if the run was not cancelled.
  unfoldable pub conclude : Config → Text → Bool → Met F E → Ran F E
  unfolding persist
  conclude cfg workflow exporting met = elim met.driver_err [
    | none ↦ persist cfg workflow exporting met
    | some e ↦
        if met.cancelled then persist cfg workflow exporting met else stop_here (benchmark_failed e)
  ]

  -- From `SetWorkers` on.
  unfoldable pub drive_run : Config → Text → Bool → Met F E → Ran F E
  unfolding conclude
  drive_run cfg workflow exporting met =
      around around_driver (conclude cfg workflow exporting met) deferred

  -- The workers of a scenario, and the run if all could be made.
  unfoldable pub go_on : Config → Text → Bool → Met F E → List Call × Option (ℕ × E) → Ran F E
  unfolding drive_run
  go_on cfg workflow exporting met (made, some (i, e)) = record {
    calls = made;
    ended = failed (worker_failed i e);
  }
  go_on cfg workflow exporting met (made, none) =
      around made (drive_run cfg workflow exporting met) []

  unfoldable pub with_workers : Kind → Config → Text → Bool → Met F E → Ran F E
  unfolding go_on workers_of
  with_workers kind cfg workflow exporting met =
      go_on cfg workflow exporting met (workers_of kind cfg met.worker_err)

  -- A manager, or Playwright itself, around the rest.
  unfoldable pub with_driver : Call → Call → (E → RunError E) → Option E → Ran F E → Ran F E
  with_driver start stop refused (some e) rest = stop_here (refused e)
  with_driver start stop refused none rest = around (start ∷ []) rest (stop ∷ [])

  -- The switch over the scenario.
  unfoldable pub run_kind : Kind → Config → Text → Bool → Met F E → Ran F E
  unfolding with_workers with_driver
  run_kind http cfg workflow exporting met =
      around (new_client ∷ []) (with_workers http cfg workflow exporting met) (close_client ∷ [])
  run_kind headed cfg workflow exporting met =
      with_driver new_manager close_manager no_manager met.manager_err
        (with_workers headed cfg workflow exporting met)
  run_kind contexts cfg workflow exporting met =
      with_driver new_manager close_manager no_manager met.manager_err
        (with_workers contexts cfg workflow exporting met)
  run_kind cdp cfg workflow exporting met =
      with_driver run_playwright stop_playwright no_playwright met.playwright_err
        (with_workers cdp cfg workflow exporting met)
  run_kind hybrid cfg workflow exporting met =
      around (new_client ∷ [])
        (with_driver new_manager close_manager no_manager met.manager_err
          (with_workers hybrid cfg workflow exporting met))
        (close_client ∷ [])
  run_kind unknown cfg workflow exporting met = stop_here (not_implemented cfg.scenario)

  -- `Run`. The pool refuses a size below 1, and is closed last.
  unfoldable pub run : Config → Text → Bool → Met F E → Ran F E
  unfolding run_kind
  run cfg workflow exporting met =
      if ltb_ℤ (worker_limit cfg) (pos 1)
      then stop_here (pool_size (worker_limit cfg))
      else around (new_pool ∷ take_baseline ∷ [])
          (run_kind (kind_of cfg.scenario) cfg workflow exporting met) (close_pool ∷ [])
