-- ===== src/HttpWorker/Reports.antt =====
-- What `Run` of internal/httpworker/worker.go leaves in the recorder.
use browser_analysis.Prelude.{
  ℕ, ◌+◌, ◌≡◌, refl, ap, ◌∙◌, Bool, true, false, not, List, [], ◌∷◌, Option, none, some, arith,
  length, count_if, length-append, if◌then◌else◌,
}
use browser_analysis.Prelude.Double.{Double}
use browser_analysis.Metrics.Recorder.{
  Recorder, record_step, record_request, record_failure, record_workflow, workflow_failed, seconds,
}
use browser_analysis.Workflow.{Workflow, Result, RequestInfo, GoError, OpType, Status}
use browser_analysis.Workflow.Http.{Client, execute}
use browser_analysis.HttpWorker.{record_sent, record_results, report, run_task}
use browser_analysis.Workflow.Recording.{is_ok, has_error, has_time, record_timed, record_failed}

-- A result of a request, good or bad; and one with a duration to record.
abbrev pub sent_as : Bool → Result → Bool
sent_as good r = elim r.request [
  | none ↦ false
  | some q ↦ elim good [ true ↦ is_ok r.status | false ↦ not (is_ok r.status) ]
]

record Reported {F : Type 0} (rs : List Result) (a b : Recorder F) : Type 0 where
  pub good_counted : b.requests_ok ≡ a.requests_ok + count_if (sent_as true) rs
  pub bad_counted : b.requests_failed ≡ a.requests_failed + count_if (sent_as false) rs
  pub requests_timed :
      length b.request_latencies + a.requests_ok + a.requests_failed
      ≡ length a.request_latencies + b.requests_ok + b.requests_failed
  pub steps_timed : length b.step_latencies ≡ length a.step_latencies + count_if has_time rs
  pub workflows_kept : b.workflow_latencies ≡ a.workflow_latencies
  pub failures_kept : b.workflow_failures ≡ a.workflow_failures

-- The same with the end of `Run`.
pub record TaskReported {F : Type 0} (rs : List Result) (err : Option GoError) (fine : Bool)
    (a b : Recorder F) : Type 0 where
  pub as_executed : fine ≡ not (has_error err)
  pub good_requests : b.requests_ok ≡ a.requests_ok + count_if (sent_as true) rs
  pub bad_requests : b.requests_failed ≡ a.requests_failed + count_if (sent_as false) rs
  pub request_times :
      length b.request_latencies + a.requests_ok + a.requests_failed
      ≡ length a.request_latencies + b.requests_ok + b.requests_failed
  pub step_times : length b.step_latencies ≡ length a.step_latencies + count_if has_time rs
  pub workflow_times :
      length b.workflow_latencies ≡ length a.workflow_latencies + (if fine then 1 else 0)
  pub failed_workflows : b.workflow_failures ≡ a.workflow_failures + (if fine then 0 else 1)

module _ {F : Type 0} ⦃d : Double F⦄ where
  fields-Reported :
      (op : OpType) (took : ℕ) (status : Status) (request : Option RequestInfo)
      (failure : Option GoError) (rec : Recorder F)
      → let r : Result = record {
        op = op;
        duration = took;
        status = status;
        request = request;
        failure = failure;
      } in
        Reported (r ∷ []) rec (record_failed failure (record_sent r request (record_timed r rec)))
  unfolding record_failed record_sent record_timed record_failure record_request record_step
  fields-Reported op took status none none rec =
      ground (arith, length-append rec.step_latencies (seconds took ∷ []))
  fields-Reported op took status none (some e) rec =
      ground (arith, length-append rec.step_latencies (seconds took ∷ []))
  fields-Reported op took status (some q) none rec = ground (
    arith,
    length-append rec.step_latencies (seconds took ∷ []),
    length-append rec.request_latencies (seconds q.duration ∷ []),
  )
  fields-Reported op took status (some q) (some e) rec = ground (
    arith,
    length-append rec.step_latencies (seconds took ∷ []),
    length-append rec.request_latencies (seconds q.duration ∷ []),
  )

  results-Reported : (rs : List Result) (rec : Recorder F) → Reported rs rec (record_results rs rec)
  unfolding record_results
  results-Reported [] rec = record {
    good_counted = omega arith;
    bad_counted = omega arith;
    requests_timed = omega arith;
    steps_timed = omega arith;
    workflows_kept = refl;
    failures_kept = refl;
  }
  results-Reported (r ∷ rs) rec =
      let first = fields-Reported r.op r.duration r.status r.request r.failure rec in
      let rest =
        results-Reported rs
          (record_failed r.failure (record_sent r r.request (record_timed r rec))) in
      record {
        good_counted = ground (arith, first, rest);
        bad_counted = ground (arith, first, rest);
        requests_timed = omega (arith, first, rest);
        steps_timed = ground (arith, first, rest);
        workflows_kept = rest.workflows_kept ∙ first.workflows_kept;
        failures_kept = rest.failures_kept ∙ first.failures_kept;
      }

  reported :
      (took : ℕ) (err : Option GoError) (results : List Result) (a : Recorder F)
      → Reported results a (record_results results a)
      → let (after, fine) = report took err (record_results results a) in
        TaskReported results err fine a after
  unfolding report workflow_failed record_workflow
  reported took none results a told =
      let b = record_results results a in
      record {
        as_executed = refl;
        good_requests = told.good_counted;
        bad_requests = told.bad_counted;
        request_times = told.requests_timed;
        step_times = told.steps_timed;
        workflow_times = omega (
          arith,
          ap length told.workflows_kept,
          length-append b.workflow_latencies (seconds took ∷ []),
        );
        failed_workflows = omega (arith, told.failures_kept);
      }
  reported took (some e) results a told = record {
    as_executed = refl;
    good_requests = told.good_counted;
    bad_requests = told.bad_counted;
    request_times = told.requests_timed;
    step_times = told.steps_timed;
    workflow_times = omega (arith, ap length told.workflows_kept);
    failed_workflows = omega (arith, told.failures_kept);
  }

  -- A task keeps the executor's results, and `Run` returns no error exactly if the executor returns
  -- none. The recorder then has one more request, good or bad by the result's status, with its latency,
  -- for every result with a request; one more step latency for every good result that took time; and
  -- one more workflow latency if there is no error, or else one more failed workflow.
  pub run_task_reports :
      {W : Type 0} (c : Client W) (wf : Workflow) (took : ℕ) (w : W) (rec : Recorder F)
      → let (results, err, w') = execute c wf w in
        let (kept, fine, left, after) = run_task c wf took w rec in
        (kept ≡ results) × TaskReported results err fine rec after
  unfolding run_task
  run_task_reports c wf took w rec =
      let (results, err, w') = execute c wf w in
      (refl, reported took err results rec (results-Reported results rec))
