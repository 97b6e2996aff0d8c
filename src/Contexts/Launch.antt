-- ===== src/Contexts/Launch.antt =====
-- `NewPool` of internal/contexts/pool.go: the browser is launched by the manager, then the pool is built.
use browser_analysis.Prelude.{ℕ, Bool, List, Option, none, some}
use browser_analysis.Prelude.Double.{Double}
use browser_analysis.Metrics.Lifecycle.{event, browser_launch_completed}
use browser_analysis.Metrics.Recorder.{Recorder, record_browser_launch, record_lifecycle}
use browser_analysis.Workflow.{GoError}
use browser_analysis.Browser.Worker.{Manager, start_browser}
use browser_analysis.Contexts.{Pool, new_pool_with_browser}

-- The pool, if there was a browser, with whether it is returned without an error.
pub data Launched (F : Type 0) : Type 0 where
  no_browser : Recorder F → Launched F
  with_browser : Pool F → Bool → Launched F

module _ {F : Type 0} ⦃d : Double F⦄ where
  unfoldable pub launched_pool : ℕ → List (Option (ℕ × ℕ)) → Option ℕ → Recorder F → Launched F
  launched_pool now made none rec = no_browser rec
  launched_pool now made (some took) rec =
      let told =
        record_lifecycle (event browser_launch_completed now 0) (record_browser_launch took rec) in
      let (p, fine) = new_pool_with_browser now made told in with_browser p fine

  unfoldable pub new_pool :
      ℕ → Option GoError → ℕ → List (Option (ℕ × ℕ)) → Manager → Recorder F → Manager × Launched F
  unfolding launched_pool
  new_pool now launch_err took made m rec =
      let (m', launched) = start_browser launch_err took m in
      (m', launched_pool now made launched rec)
