-- ===== src/HttpWorker.antt =====
-- internal/httpworker/worker.go: a task on the HTTP executor, reported to the recorder. The time that the
-- whole workflow took is an argument.
pub mod Reports
mod Tests
use browser_analysis.Prelude.{
  ℕ, Bool, true, false, ◌&&◌, List, [], ◌∷◌, Option, none, some, arith, if◌then◌else◌, ltb,
}
use browser_analysis.Prelude.Double.{Double}
use browser_analysis.Metrics.Recorder.{
  Recorder, record_step, record_request, record_failure, record_workflow, workflow_failed,
}
use browser_analysis.Workflow.{
  Workflow, Result, RequestInfo, GoError, Status, ok, error_name, classify_error,
}
use browser_analysis.Workflow.Http.{Client, execute}
use browser_analysis.Workflow.Recording.{is_ok, record_timed, record_failed}

module _ {F : Type 0} ⦃d : Double F⦄ where
  -- The second of the three tests in the loop's body.
  unfoldable pub record_sent : Result → Option RequestInfo → Recorder F → Recorder F
  record_sent r none rec = rec
  record_sent r (some q) rec = record_request q.duration (is_ok r.status) rec

  unfoldable pub record_results : List Result → Recorder F → Recorder F
  record_results [] rec = rec
  record_results (r ∷ rest) rec =
      record_results rest (record_failed r.failure (record_sent r r.request (record_timed r rec)))

  -- The end of `Run`, on the executor's error.
  unfoldable pub report : ℕ → Option GoError → Recorder F → Recorder F × Bool
  report took (some e) rec = (workflow_failed rec, false)
  report took none rec = (record_workflow took rec, true)

  -- `Run`: the results kept in the task, whether it returns no error, and the world and recorder left.
  unfoldable pub run_task :
      {W : Type 0} → Client W → Workflow → ℕ → W → Recorder F → List Result × Bool × W × Recorder F
  run_task c wf took w rec =
      let (results, err, w') = execute c wf w in
      let (rec', fine) = report took err (record_results results rec) in (results, fine, w', rec')
