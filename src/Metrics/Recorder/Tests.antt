-- ===== src/Metrics/Recorder/Tests.antt =====
-- Runs of the recorder of internal/metrics/metrics.go; a float is a whole number here.
use browser_analysis.Prelude.{ℕ, ◌≡◌, refl, true, false, List, [], ◌∷◌}
use browser_analysis.Prelude.Text.{codes}
use browser_analysis.Prelude.Double.{nat_double}
use browser_analysis.Metrics.Lifecycle.{event, browser_launch_completed}
use browser_analysis.Metrics.Recorder.{Recorder, new_recorder, reset}
use browser_analysis.Metrics.Recorder.Boundary.{
  Call, failure, launch, lifecycle_event, workflow, request, created, active, complete, failed, run,
  setup_calls, reset-run, SameSetup, IsCleared,
}

abbrev calls : List Call
calls =
    launch 2_000_000_000
    ∷ lifecycle_event (event browser_launch_completed 4 1)
    ∷ created
    ∷ active
    ∷ request 3_000_000_000 true
    ∷ request 1_000_000_000 false
    ∷ failure (codes "timeout")
    ∷ failed
    ∷ created
    ∷ active
    ∷ workflow 1_000_000_000
    ∷ complete
    ∷ []

abbrev start : Recorder ℕ
start = new_recorder

-- The launch outlives the boundary.
launches_kept : (reset (run calls start)).browser_launches ≡ 2 ∷ []
unfolding run reset new_recorder
launches_kept = refl

reset-run_example :
    let q = reset (run calls start) in
    (q ≡ reset (run (setup_calls calls) start))
    × SameSetup q (run (setup_calls calls) start)
    × IsCleared q
reset-run_example = reset-run calls start
