-- ===== src/Browser/Worker/Cleanup.antt =====
-- What a task of internal/browser/worker.go closes and records.
use browser_analysis.Prelude.{
  ℕ, ◌+◌, ◌≡◌, refl, ap, Bool, true, false, List, [], ◌∷◌, Option, none, some, arith, length,
  length-append, count_if, if◌then◌else◌,
}
use browser_analysis.Prelude.Text.{Text}
use browser_analysis.Prelude.Double.{Double}
use browser_analysis.Metrics.Lifecycle.{event, browser_launch_completed, page_create_completed}
use browser_analysis.Metrics.Recorder.{
  Recorder, record_browser_launch, record_lifecycle, record_workflow, workflow_failed, seconds,
}
use browser_analysis.Workflow.{Workflow, GoError, Result}
use browser_analysis.Workflow.Recording.{has_time, has_error}
use browser_analysis.Browser.Page.{Page}
use browser_analysis.Browser.Page.Results.{page-Runs}
use browser_analysis.Browser.Page.Reports.{record_results, total, results-Added, failures-Runs}
use browser_analysis.Browser.Worker.{
  Manager, Call, launch_browser, new_page, close_page, close_browser, TaskError, workflow_error,
  Ran, conclude, try_page, in_page, in_browser, run_task, start_browser,
}

-- What is open, the page above its browser; `none` after a call that does not fit.
pub data Open : Type 0 where
  nothing browser page : Open

abbrev pub after : Call → Open → Option Open
after launch_browser nothing = some browser
after new_page browser = some page
after close_page page = some browser
after close_browser browser = some nothing
after _ _ = none

abbrev pub after_all : List Call → Open → Option Open
after_all [] o = some o
after_all (c ∷ cs) o = elim (after c o) [ none ↦ none | some o' ↦ after_all cs o' ]

abbrev pub failed_task : Option TaskError → Bool
failed_task none = false
failed_task (some e) = true

abbrev pub in_workflow : Option TaskError → Bool
in_workflow (some (workflow_error name e)) = true
in_workflow _ = false

abbrev pub is_launch : Call → Bool
is_launch launch_browser = true
is_launch _ = false

abbrev pub is_new_page : Call → Bool
is_new_page new_page = true
is_new_page _ = false

-- What a task leaves beside the recorder that it found.
pub record IsClean {F W : Type 0} (a : Recorder F) (ran : Ran F W) : Type 0 where
  pub all_closed : after_all ran.calls nothing ≡ some nothing
  pub launches :
      length ran.rec.browser_launches ≡ length a.browser_launches + count_if is_launch ran.calls
  pub browsers : ran.rec.browsers_created ≡ a.browsers_created + count_if is_launch ran.calls
  pub pages : ran.rec.pages_created ≡ a.pages_created + count_if is_new_page ran.calls
  pub steps :
      length ran.rec.step_latencies ≡ length a.step_latencies + count_if has_time ran.results
  pub failures : total ran.rec.failures ≡ total a.failures + (if in_workflow ran.err then 1 else 0)
  pub failed_workflows :
      ran.rec.workflow_failures ≡ a.workflow_failures + (if in_workflow ran.err then 1 else 0)
  pub workflows :
      length ran.rec.workflow_latencies
      ≡ length a.workflow_latencies + (if failed_task ran.err then 0 else 1)

-- The recorder after the executor's results are told and the end of `Run` is.
record Ended {F : Type 0} (rs : List Result) (bad : Bool) (a b : Recorder F) : Type 0 where
  pub steps : length b.step_latencies ≡ length a.step_latencies + count_if has_time rs
  pub failures : total b.failures ≡ total a.failures + (if bad then 1 else 0)
  pub failed : b.workflow_failures ≡ a.workflow_failures + (if bad then 1 else 0)
  pub workflows : length b.workflow_latencies ≡ length a.workflow_latencies + (if bad then 0 else 1)
  pub launches : b.browser_launches ≡ a.browser_launches
  pub browsers : b.browsers_created ≡ a.browsers_created
  pub pages : b.pages_created ≡ a.pages_created

module _ {F W : Type 0} ⦃d : Double F⦄ (p : Page W) (base : Text) where
  passed-Ended :
      (rs : List Result) (took : ℕ) (a : Recorder F)
      → count_if (λ r. has_error r.failure) rs ≡ 0
      → Ended rs false a (record_workflow took (record_results rs a))
  unfolding record_workflow
  passed-Ended rs took a h =
      let told = results-Added rs a in
      let b = record_results rs a in
      record {
        steps = told.steps_added;
        failures = omega (arith, told.failures_added);
        failed = omega (arith, told.failed_kept);
        workflows = omega (
          arith,
          ap length told.workflows_kept,
          length-append b.workflow_latencies (seconds took ∷ []),
        );
        launches = told.launches_kept;
        browsers = told.browsers_kept;
        pages = told.pages_kept;
      }

  failed-Ended :
      (rs : List Result) (a : Recorder F)
      → count_if (λ r. has_error r.failure) rs ≡ 1
      → Ended rs true a (workflow_failed (record_results rs a))
  unfolding workflow_failed
  failed-Ended rs a h =
      let told = results-Added rs a in
      record {
        steps = told.steps_added;
        failures = omega (arith, told.failures_added);
        failed = omega (arith, told.failed_kept);
        workflows = omega (arith, ap length told.workflows_kept);
        launches = told.launches_kept;
        browsers = told.browsers_kept;
        pages = told.pages_kept;
      }

  conclude-Ended :
      (name : Text) (rs : List Result) (err : Option GoError) (took : ℕ) (w : W) (m : Manager)
      (a : Recorder F)
      → count_if (λ r. has_error r.failure) rs ≡ (if has_error err then 1 else 0)
      → let ran = conclude p base name rs err took w m (record_results rs a) in
        Ended ran.results (failed_task ran.err) a ran.rec
        × (in_workflow ran.err ≡ failed_task ran.err)
        × (ran.calls ≡ new_page ∷ close_page ∷ [])
  unfolding conclude
  conclude-Ended name rs none took w m a h = (passed-Ended rs took a h, refl, refl)
  conclude-Ended name rs (some e) took w m a h = (failed-Ended rs a h, refl, refl)

  in_page-Ended :
      (now task : ℕ) (wf : Workflow) (w : W) (m : Manager) (rec : Recorder F)
      → let ran = in_page p base now task wf w m rec in
        Ended ran.results
          (failed_task ran.err)
          (record_lifecycle (event page_create_completed now task) rec)
          ran.rec
        × (in_workflow ran.err ≡ failed_task ran.err)
        × (ran.calls ≡ new_page ∷ close_page ∷ [])
  unfolding in_page
  in_page-Ended now task wf w m rec =
      conclude-Ended wf.name _ _ _ _ m _ (failures-Runs (page-Runs p base wf w))

  in_page-IsClean :
      (now task took : ℕ) (wf : Workflow) (w : W) (m : Manager) (rec : Recorder F)
      → IsClean rec (in_browser p base now task took none wf w m rec)
  unfolding in_browser try_page record_lifecycle record_browser_launch
  in_page-IsClean now task took wf w m rec =
      let launched =
        record_lifecycle (event browser_launch_completed now task)
          (record_browser_launch took rec) in
      let (ended, same, calls) = in_page-Ended now task wf w m launched in
      record {
        all_closed = rw calls refl;
        launches = rw calls (
            omega (
              arith,
              ap length ended.launches,
              length-append rec.browser_launches (seconds took ∷ []),
            ));
        browsers = rw calls (omega (arith, ended.browsers));
        pages = rw calls (omega (arith, ended.pages));
        steps = omega (arith, ended.steps);
        failures = rw same ended.failures;
        failed_workflows = rw same ended.failed;
        workflows = ended.workflows;
      }

  -- Whatever `Launch`, `NewPage` and the page give, the calls of a task open nothing twice and leave
  -- nothing open, the page being closed before its browser. The recorder counts the launch and the
  -- page exactly if there was one, and one step latency for each good result that took time; and if
  -- the task's error is the workflow's it has one failed workflow and one classified failure more, if
  -- there is no error one workflow latency more, and otherwise none of these.
  pub run_task-IsClean :
      (now task : ℕ) (launch_err : Option GoError) (took : ℕ) (page_err : Option GoError)
      (wf : Workflow) (w : W) (m : Manager) (rec : Recorder F)
      → IsClean rec (run_task p base now task launch_err took page_err wf w m rec)
  unfolding run_task start_browser in_browser try_page record_lifecycle record_browser_launch
  run_task-IsClean now task none took none wf w m rec = in_page-IsClean now task took wf w _ rec
  run_task-IsClean now task (some e) took page_err wf w m rec = record {
    all_closed = refl;
    launches = omega arith;
    browsers = omega arith;
    pages = omega arith;
    steps = omega arith;
    failures = omega arith;
    failed_workflows = omega arith;
    workflows = omega arith;
  }
  run_task-IsClean now task none took (some e) wf w m rec = record {
    all_closed = refl;
    launches = length-append rec.browser_launches (seconds took ∷ []);
    browsers = omega arith;
    pages = omega arith;
    steps = omega arith;
    failures = omega arith;
    failed_workflows = omega arith;
    workflows = omega arith;
  }
