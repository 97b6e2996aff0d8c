-- ===== src/Browser/Page/Reports.antt =====
-- The loop over a page's results that internal/browser/worker.go, internal/contexts/worker.go and
-- internal/cdp/worker.go run, and what it leaves in the recorder.
use browser_analysis.Prelude.{
  ℕ, suc, ◌+◌, ◌≡◌, refl, ◌∙◌, List, [], ◌∷◌, Option, none, some, arith, length, length-append,
  count_if, if◌then◌else◌,
}
use browser_analysis.Prelude.Text.{Text}
use browser_analysis.Prelude.Double.{Double}
use browser_analysis.Metrics.Recorder.{
  Recorder, record_step, record_failure, count_failure, seconds,
}
use browser_analysis.Workflow.{Result, GoError, Step, Status, error_name, classify_error}
use browser_analysis.Workflow.Steps.Verdicts.{Runs, all_done, stopped, went_on}
use browser_analysis.Workflow.Recording.{has_time, has_error, record_timed, record_failed}

module _ {F : Type 0} ⦃d : Double F⦄ where
  unfoldable pub record_results : List Result → Recorder F → Recorder F
  record_results [] rec = rec
  record_results (r ∷ rest) rec = record_results rest (record_failed r.failure (record_timed r rec))

-- All the failures that the recorder has classified.
abbrev pub total : List (Text × ℕ) → ℕ
total [] = 0
total ((k, n) ∷ m) = n + total m

total-count_failure :
    (reason : Text) (m : List (Text × ℕ)) → total (count_failure reason m) ≡ suc (total m)
unfolding count_failure
total-count_failure reason [] = refl
total-count_failure reason ((k, n) ∷ m) = ground (arith, total-count_failure reason m)

-- What the loop adds: step latencies and classified failures, and nothing else that is counted here.
pub record Added {F : Type 0} (rs : List Result) (a b : Recorder F) : Type 0 where
  pub steps_added : length b.step_latencies ≡ length a.step_latencies + count_if has_time rs
  pub failures_added : total b.failures ≡ total a.failures + count_if (λ r. has_error r.failure) rs
  pub workflows_kept : b.workflow_latencies ≡ a.workflow_latencies
  pub failed_kept : b.workflow_failures ≡ a.workflow_failures
  pub launches_kept : b.browser_launches ≡ a.browser_launches
  pub browsers_kept : b.browsers_created ≡ a.browsers_created
  pub pages_kept : b.pages_created ≡ a.pages_created

module _ {F : Type 0} ⦃d : Double F⦄ where
  step-Added :
      (took : ℕ) (status : Status) (failure : Option GoError) (r : Result) (rec : Recorder F)
      → r.duration ≡ took
      → r.status ≡ status
      → r.failure ≡ failure
      → Added (r ∷ []) rec (record_failed failure (record_timed r rec))
  unfolding record_failed record_timed record_failure record_step
  step-Added took status none r rec ht hs hf =
      ground (arith, length-append rec.step_latencies (seconds r.duration ∷ []))
  step-Added took status (some e) r rec ht hs hf = ground (
    arith,
    length-append rec.step_latencies (seconds r.duration ∷ []),
    total-count_failure (error_name (classify_error e)) rec.failures,
  )

  pub results-Added : (rs : List Result) (rec : Recorder F) → Added rs rec (record_results rs rec)
  unfolding record_results
  results-Added [] rec = record {
    steps_added = omega arith;
    failures_added = omega arith;
    workflows_kept = refl;
    failed_kept = refl;
    launches_kept = refl;
    browsers_kept = refl;
    pages_kept = refl;
  }
  results-Added (r ∷ rs) rec =
      let first = step-Added r.duration r.status r.failure r rec refl refl refl in
      let rest = results-Added rs (record_failed r.failure (record_timed r rec)) in
      record {
        steps_added = ground (arith, first.steps_added, rest.steps_added);
        failures_added = ground (arith, first.failures_added, rest.failures_added);
        workflows_kept = rest.workflows_kept ∙ first.workflows_kept;
        failed_kept = rest.failed_kept ∙ first.failed_kept;
        launches_kept = rest.launches_kept ∙ first.launches_kept;
        browsers_kept = rest.browsers_kept ∙ first.browsers_kept;
        pages_kept = rest.pages_kept ∙ first.pages_kept;
      }

-- In a run, one result holds an error if the run ended with one, and none otherwise.
pub failures-Runs :
    {ss : List Step} {rs : List Result} {err : Option GoError}
    → Runs ss rs err
    → count_if (λ r. has_error r.failure) rs ≡ (if has_error err then 1 else 0)
failures-Runs all_done = refl
failures-Runs (stopped e same bad held) = ground (arith, held)
failures-Runs (went_on same fine clean rest) = ground (arith, clean, failures-Runs rest)
