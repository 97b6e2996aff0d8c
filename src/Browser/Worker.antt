-- ===== src/Browser/Worker.antt =====
-- internal/browser/worker.go: a Chromium for each task. What `Launch` and `NewPage` give is an
-- argument; the calls that open and close are kept in the order in which they are made.
pub mod Cleanup
use browser_analysis.Prelude.{ℕ, ◌-◌, Bool, true, false, List, [], ◌∷◌, ◌++◌, Option, none, some}
use browser_analysis.Prelude.Text.{Text}
use browser_analysis.Prelude.Double.{Double}
use browser_analysis.Metrics.Lifecycle.{event, browser_launch_completed, page_create_completed}
use browser_analysis.Metrics.Recorder.{
  Recorder, record_browser_launch, record_lifecycle, record_workflow, workflow_failed,
}
use browser_analysis.Workflow.{Workflow, Result, GoError}
use browser_analysis.Browser.Page.{Page, execute}
use browser_analysis.Browser.Page.Reports.{record_results}

-- The fields of `Manager` that its mutex guards.
pub record Manager : Type 0 where
  pub started : Bool
  pub start_dur : ℕ
  pub start_err : Option GoError

-- `StartBrowser` with what `Launch` gives, an error or the time it took.
unfoldable pub start_browser : Option GoError → ℕ → Manager → Manager × Option ℕ
start_browser (some e) took m = (record m { started = true; start_err = some e }, none)
start_browser none took m = (record m { started = true; start_dur = took }, some took)

pub data Call : Type 0 where
  launch_browser new_page close_page close_browser : Call

-- The error of `Run`, with the one that it wraps.
pub data TaskError : Type 0 where
  not_launched no_page : GoError → TaskError
  workflow_error : Text → GoError → TaskError

pub record Ran (F W : Type 0) : Type 0 where
  pub manager : Manager
  pub rec : Recorder F
  pub calls : List Call
  pub results : List Result
  pub err : Option TaskError
  pub world : W

module _ {F W : Type 0} ⦃d : Double F⦄ (p : Page W) (base : Text) where
  -- The end of `Run`, the results having been recorded: the two deferred calls are made whatever the
  -- error.
  unfoldable pub conclude :
      Text → List Result → Option GoError → ℕ → W → Manager → Recorder F → Ran F W
  conclude name results (some e) took w m rec = record {
    manager = m;
    rec = workflow_failed rec;
    calls = new_page ∷ close_page ∷ [];
    results = results;
    err = some (workflow_error name e);
    world = w;
  }
  conclude name results none took w m rec = record {
    manager = m;
    rec = record_workflow took rec;
    calls = new_page ∷ close_page ∷ [];
    results = results;
    err = none;
    world = w;
  }

  unfoldable pub in_page : ℕ → ℕ → Workflow → W → Manager → Recorder F → Ran F W
  in_page now task wf w m rec =
      let opened = record_lifecycle (event page_create_completed now task) rec in
      let (results, err, w') = execute p base wf w in
      conclude wf.name results err (p.clock w' - p.clock w) w' m (record_results results opened)

  unfoldable pub try_page : ℕ → ℕ → Option GoError → Workflow → W → Manager → Recorder F → Ran F W
  try_page now task (some e) wf w m rec = record {
    manager = m;
    rec = rec;
    calls = [];
    results = [];
    err = some (no_page e);
    world = w;
  }
  try_page now task none wf w m rec = in_page now task wf w m rec

  -- Past the launch, the browser's `Close` being deferred.
  unfoldable pub in_browser :
      ℕ → ℕ → ℕ → Option GoError → Workflow → W → Manager → Recorder F → Ran F W
  in_browser now task took page_err wf w m rec =
      let launched =
        record_lifecycle (event browser_launch_completed now task)
          (record_browser_launch took rec) in
      let ran = try_page now task page_err wf w m launched in
      record ran { calls = launch_browser ∷ (ran.calls ++ close_browser ∷ []) }

  -- `Run`, at time `now`.
  unfoldable pub run_task :
      ℕ → ℕ → Option GoError → ℕ → Option GoError → Workflow → W → Manager → Recorder F → Ran F W
  run_task now task (some e) took page_err wf w m rec = record {
    manager = (start_browser (some e) took m).0;
    rec = rec;
    calls = [];
    results = [];
    err = some (not_launched e);
    world = w;
  }
  run_task now task none took page_err wf w m rec =
      in_browser now task took page_err wf w (start_browser none took m).0 rec
