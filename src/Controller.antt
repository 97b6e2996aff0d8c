-- ===== src/Controller.antt =====
-- internal/controller/controller.go: the workers that a run is given. The driver, the telemetry and the
-- results that `Run` calls after that are modelled with their packages.
pub mod Shares
pub mod Leak
pub mod Run
mod Tests
use browser_analysis.Prelude.{
  ℕ, zero, suc, ◌/◌, Bool, true, false, List, [], ◌∷◌, ◌⊎◌, inl, inr, if◌then◌else◌, ltb,
}
use browser_analysis.Prelude.Int.{ℤ, pos, negsuc}
use browser_analysis.Prelude.Text.{Text, codes, eq_text}
use browser_analysis.Prelude.Double.{Double}
use browser_analysis.Config.{Config}
use browser_analysis.Contexts.{Pool}
use browser_analysis.Metrics.Recorder.{Recorder}
use browser_analysis.Cdp.{Host}
use browser_analysis.Cdp.Worker.{Built, Meets, NewError, new_worker}
use browser_analysis.Results.{is_browser_scenario}

-- `workerLimit`, the size of the worker pool.
unfoldable pub worker_limit : Config → ℤ
worker_limit cfg =
    if is_browser_scenario cfg.scenario
    then cfg.concurrency.browser_worker_limit
    else cfg.concurrency.http_worker_limit

-- `perWorker`: the division cuts off towards 0, and a share below 1 is 1. A limit is at least 1.
unfoldable pub per_worker : ℤ → ℕ → ℕ
per_worker (pos n) limit = let share = n / limit in if ltb share 1 then 1 else share
per_worker (negsuc n) limit = 1

-- What the loop of the case "cdp" has called, the last call first to fail or none.
pub record Start (F W : Type 0) : Type 0 where
  pub built : List (Built F W)
  pub failed : Bool

module _ {F W : Type 0} ⦃d : Double F⦄ (h : Host W) where
  -- One round: an error returns from `Run` at once, with the workers of earlier rounds not yet handed
  -- to the pool, whose deferred `Close` closes none.
  unfoldable pub add_worker : Pool F ⊎ NewError → Built F W → Start F W → Start F W
  add_worker (inl p) b rest = record rest { built = b ∷ rest.built }
  add_worker (inr e) b rest = record { built = b ∷ []; failed = true }

  -- The loop, `k` workers from worker `i` on.
  unfoldable pub start_cdp : ℕ → ℕ → (ℕ → Meets) → Recorder F → W → Start F W
  unfolding new_worker add_worker
  start_cdp zero i meets rec w = record { built = []; failed = false }
  start_cdp (suc k) i meets rec w =
      let b = new_worker h (meets i) rec w in
      let rest = start_cdp k (suc i) meets b.rec b.world in add_worker b.pool b rest
