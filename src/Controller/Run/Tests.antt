-- ===== src/Controller/Run/Tests.antt =====
-- Runs of internal/controller/controller.go: all goes well over HTTP; a worker of the hybrid scenario
-- cannot be made; the driver is cancelled.
use browser_analysis.Prelude.{
  ℕ, ◌≡◌, refl, ◌⊎◌, true, false, ◌==◌, [], ◌∷◌, none, some, if◌then◌else◌,
}
use browser_analysis.Prelude.Text.{codes}
use browser_analysis.Prelude.Double.{nat_double}
use browser_analysis.Accounting.Aggregator.{new_aggregator}
use browser_analysis.Config.{Config, defaults}
use browser_analysis.Controller.Run.{
  Met, kind_of, new_pool, take_baseline, new_client, new_manager, make_hybrid_worker, close_manager,
  close_client, close_pool, run,
}
use browser_analysis.Controller.Run.Handover.{IsHandedOver}
use browser_analysis.Controller.Run.Release.{nothing, gone, after_all, run-IsReleased}
use browser_analysis.Metrics.Recorder.{new_recorder}
use browser_analysis.Metrics.Sampler.{new_sampler}
use browser_analysis.Stats.{whole}
use browser_analysis.Prelude.Int.{pos}
use browser_analysis.Controller.{worker_limit, per_worker}

abbrev calm : Met ℕ ℕ
calm = record {
  manager_err = none;
  playwright_err = none;
  worker_err = λ i. none;
  driver_err = none;
  cancelled = false;
  write_run_err = none;
  system_written = true;
  write_summary_err = none;
  rec = new_recorder;
  sampler = new_sampler;
  aggregator = new_aggregator 1 0;
}

-- Worker 2 has no pool.
abbrev short : Met ℕ ℕ
short = record calm { worker_err = λ i. if i == 2 then some 7 else none }

abbrev stopped : Met ℕ ℕ
stopped = record calm { driver_err = some 9; cancelled = true }

abbrev both : Config
both = record defaults { scenario = codes "hybrid"; contexts_count = pos 200 }

short_test :
    (run whole (λ n. n == 0) 180 both (codes "complex") false short).calls
    ≡ new_pool
      ∷ take_baseline
      ∷ new_client
      ∷ new_manager
      ∷ make_hybrid_worker (codes "workflow") 0 4
      ∷ make_hybrid_worker (codes "workflow") 1 4
      ∷ make_hybrid_worker (codes "workflow") 2 4
      ∷ close_manager
      ∷ close_client
      ∷ close_pool
      ∷ []
unfolding run worker_limit per_worker kind_of defaults
short_test = refl

run-IsReleased_example :
    let r = run whole (λ n. n == 0) 180 both (codes "complex") false short in
    ((after_all r.calls nothing ≡ some nothing)
      ⊎ (after_all r.calls nothing ≡ some (record nothing { sampler = gone; monitor = gone })))
    × IsHandedOver r
run-IsReleased_example = run-IsReleased whole (λ n. n == 0) 180 both (codes "complex") false short
