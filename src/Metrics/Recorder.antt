-- ===== src/Metrics/Recorder.antt =====
-- internal/metrics/metrics.go: the thread-safe sink of a run. Each method holds the mutex for its
-- whole body, so concurrent calls are a sequence of whole calls. A duration is in nanoseconds, `F`
-- is float64. `tasksActive` is an integer, since it is also counted down; the other counters only
-- count up, one by one, and are left unbounded.
pub mod Boundary
pub mod Counts
mod Tests
use browser_analysis.Prelude.{ℕ, suc, ◌+◌, ◌/◌, ◌%◌, Bool, List, [], ◌∷◌, ◌++◌, if◌then◌else◌}
use browser_analysis.Prelude.Text.{Text, eq_text}
use browser_analysis.Prelude.Int.{ℤ, pos, ◌+ℤ◌, ◌-ℤ◌}
use browser_analysis.Prelude.Double.{Double}
use browser_analysis.Metrics.Lifecycle.{
  EventType, LifecycleEvent, browser_launch_started, browser_launch_completed, browser_connected,
  context_create_started, context_create_completed, page_create_started, page_create_completed,
}

pub record Recorder (F : Type 0) : Type 0 where
  pub workflow_latencies : List F
  pub step_latencies : List F
  pub request_latencies : List F
  pub http_step_latencies : List F
  pub browser_step_latencies : List F
  pub browser_launches : List F
  pub context_creations : List F
  pub cdp_connects : List F
  pub task_rss_deltas : List F
  pub browsers_created : ℕ
  pub contexts_created : ℕ
  pub pages_created : ℕ
  pub lifecycle : List LifecycleEvent
  pub measurement_elapsed : F
  pub tasks_active : ℤ
  pub tasks_created : ℕ
  pub tasks_queued : ℕ
  pub tasks_complete : ℕ
  pub tasks_failed : ℕ
  pub tasks_canceled : ℕ
  pub retries : ℕ
  pub requests_ok : ℕ
  pub requests_failed : ℕ
  pub ws_events : ℕ
  pub workflow_failures : ℕ
  pub escalations : ℕ
  pub failures : List (Text × ℕ)

-- `r.failures[reason]++`.
unfoldable pub count_failure : Text → List (Text × ℕ) → List (Text × ℕ)
count_failure reason [] = (reason, 1) ∷ []
count_failure reason ((k, n) ∷ m) =
    if eq_text k reason then (k, suc n) ∷ m else (k, n) ∷ count_failure reason m

-- `r.failures[reason]`, 0 for a missing key.
pub failure_count : Text → List (Text × ℕ) → ℕ
failure_count reason [] = 0
failure_count reason ((k, n) ∷ m) = if eq_text k reason then n else failure_count reason m

module _ {F : Type 0} ⦃d : Double F⦄ where
  -- `d.Seconds()`.
  pub seconds : ℕ → F
  seconds t =
      d.fadd (d.of_nat (t / 1_000_000_000))
        (d.fdiv (d.of_nat (t % 1_000_000_000)) (d.of_nat 1_000_000_000))

  unfoldable pub new_recorder : Recorder F
  new_recorder = record {
    workflow_latencies = [];
    step_latencies = [];
    request_latencies = [];
    http_step_latencies = [];
    browser_step_latencies = [];
    browser_launches = [];
    context_creations = [];
    cdp_connects = [];
    task_rss_deltas = [];
    browsers_created = 0;
    contexts_created = 0;
    pages_created = 0;
    lifecycle = [];
    measurement_elapsed = d.of_nat 0;
    tasks_active = pos 0;
    tasks_created = 0;
    tasks_queued = 0;
    tasks_complete = 0;
    tasks_failed = 0;
    tasks_canceled = 0;
    retries = 0;
    requests_ok = 0;
    requests_failed = 0;
    ws_events = 0;
    workflow_failures = 0;
    escalations = 0;
    failures = [];
  }

  unfoldable pub record_failure : Text → Recorder F → Recorder F
  unfolding count_failure
  record_failure reason r = record r { failures = count_failure reason r.failures }

  -- The setup series, the lifecycle counts and the elapsed time stay.
  unfoldable pub reset : Recorder F → Recorder F
  reset r = record r {
    workflow_latencies = [];
    step_latencies = [];
    request_latencies = [];
    http_step_latencies = [];
    browser_step_latencies = [];
    task_rss_deltas = [];
    lifecycle = [];
    tasks_active = pos 0;
    tasks_created = 0;
    tasks_queued = 0;
    tasks_complete = 0;
    tasks_failed = 0;
    tasks_canceled = 0;
    retries = 0;
    requests_ok = 0;
    requests_failed = 0;
    ws_events = 0;
    workflow_failures = 0;
    escalations = 0;
    failures = [];
  }

  unfoldable pub set_measurement_elapsed : ℕ → Recorder F → Recorder F
  unfolding seconds
  set_measurement_elapsed t r = record r { measurement_elapsed = seconds t }

  unfoldable pub record_workflow : ℕ → Recorder F → Recorder F
  unfolding seconds
  record_workflow t r = record r { workflow_latencies = r.workflow_latencies ++ seconds t ∷ [] }

  unfoldable pub record_step : ℕ → Recorder F → Recorder F
  unfolding seconds
  record_step t r = record r { step_latencies = r.step_latencies ++ seconds t ∷ [] }

  unfoldable pub record_http_step : ℕ → Recorder F → Recorder F
  unfolding seconds
  record_http_step t r = record r { http_step_latencies = r.http_step_latencies ++ seconds t ∷ [] }

  unfoldable pub record_browser_step : ℕ → Recorder F → Recorder F
  unfolding seconds
  record_browser_step t r = record r {
    browser_step_latencies = r.browser_step_latencies ++ seconds t ∷ [];
  }

  unfoldable pub record_browser_launch : ℕ → Recorder F → Recorder F
  unfolding seconds
  record_browser_launch t r = record r { browser_launches = r.browser_launches ++ seconds t ∷ [] }

  unfoldable pub record_context_creation : ℕ → Recorder F → Recorder F
  unfolding seconds
  record_context_creation t r = record r {
    context_creations = r.context_creations ++ seconds t ∷ [];
  }

  unfoldable pub record_cdp_connect : ℕ → Recorder F → Recorder F
  unfolding seconds
  record_cdp_connect t r = record r { cdp_connects = r.cdp_connects ++ seconds t ∷ [] }

  unfoldable pub record_task_rss_delta : ℕ → Recorder F → Recorder F
  record_task_rss_delta delta r = record r {
    task_rss_deltas = r.task_rss_deltas ++ d.of_nat delta ∷ [];
  }

  unfoldable pub record_request : ℕ → Bool → Recorder F → Recorder F
  unfolding seconds
  record_request t succeeded r =
      let s = record r { request_latencies = r.request_latencies ++ seconds t ∷ [] } in
      if succeeded
      then record s { requests_ok = suc s.requests_ok }
      else record s { requests_failed = suc s.requests_failed }

  -- The `switch` of `RecordLifecycle`.
  bump_lifecycle : EventType → Recorder F → Recorder F
  bump_lifecycle browser_launch_started r = record r { browsers_created = suc r.browsers_created }
  bump_lifecycle browser_launch_completed r = record r { browsers_created = suc r.browsers_created }
  bump_lifecycle browser_connected r = record r { browsers_created = suc r.browsers_created }
  bump_lifecycle context_create_started r = record r { contexts_created = suc r.contexts_created }
  bump_lifecycle context_create_completed r = record r { contexts_created = suc r.contexts_created }
  bump_lifecycle page_create_started r = record r { pages_created = suc r.pages_created }
  bump_lifecycle page_create_completed r = record r { pages_created = suc r.pages_created }
  bump_lifecycle _ r = r

  unfoldable pub record_lifecycle : LifecycleEvent → Recorder F → Recorder F
  unfolding bump_lifecycle
  record_lifecycle ev r =
      bump_lifecycle ev.event_type (record r { lifecycle = r.lifecycle ++ ev ∷ [] })

  unfoldable pub task_created : Recorder F → Recorder F
  task_created r = record r { tasks_created = suc r.tasks_created }

  unfoldable pub task_queued : Recorder F → Recorder F
  task_queued r = record r { tasks_queued = suc r.tasks_queued }

  unfoldable pub task_cancelled : Recorder F → Recorder F
  task_cancelled r = record r { tasks_canceled = suc r.tasks_canceled }

  unfoldable pub retry : Recorder F → Recorder F
  retry r = record r { retries = suc r.retries }

  unfoldable pub ws_event : Recorder F → Recorder F
  ws_event r = record r { ws_events = suc r.ws_events }

  unfoldable pub workflow_failed : Recorder F → Recorder F
  workflow_failed r = record r { workflow_failures = suc r.workflow_failures }

  unfoldable pub record_escalation : Recorder F → Recorder F
  record_escalation r = record r { escalations = suc r.escalations }

  unfoldable pub task_active : Recorder F → Recorder F
  task_active r = record r { tasks_active = r.tasks_active +ℤ pos 1 }

  unfoldable pub task_complete : Recorder F → Recorder F
  task_complete r = record r {
    tasks_complete = suc r.tasks_complete;
    tasks_active = r.tasks_active -ℤ pos 1;
  }

  unfoldable pub task_failed : Recorder F → Recorder F
  task_failed r = record r {
    tasks_failed = suc r.tasks_failed;
    tasks_active = r.tasks_active -ℤ pos 1;
  }

  unfoldable pub set_active : ℤ → Recorder F → Recorder F
  set_active n r = record r { tasks_active = n }

  unfoldable pub lifecycle_counts : Recorder F → ℕ × ℕ × ℕ
  lifecycle_counts r = (r.browsers_created, r.contexts_created, r.pages_created)

-- `Counters`, what `Snapshot` copies.
pub record Counters : Type 0 where
  pub created : ℕ
  pub queued : ℕ
  pub active : ℤ
  pub complete : ℕ
  pub failed : ℕ
  pub canceled : ℕ
  pub retries : ℕ
  pub requests_ok : ℕ
  pub requests_failed : ℕ
  pub ws_events : ℕ
  pub workflow_failures : ℕ
  pub escalations : ℕ

unfoldable pub snapshot : {F : Type 0} → Recorder F → Counters
snapshot r = record {
  created = r.tasks_created;
  queued = r.tasks_queued;
  active = r.tasks_active;
  complete = r.tasks_complete;
  failed = r.tasks_failed;
  canceled = r.tasks_canceled;
  retries = r.retries;
  requests_ok = r.requests_ok;
  requests_failed = r.requests_failed;
  ws_events = r.ws_events;
  workflow_failures = r.workflow_failures;
  escalations = r.escalations;
}

-- `Latencies`: workflow, step, request, browser launch, context creation, CDP connect.
unfoldable pub latencies :
    {F : Type 0} → Recorder F → List F × List F × List F × List F × List F × List F
latencies r = (
  r.workflow_latencies, r.step_latencies, r.request_latencies, r.browser_launches,
  r.context_creations, r.cdp_connects,
)

unfoldable pub transport_latencies : {F : Type 0} → Recorder F → List F × List F
transport_latencies r = (r.http_step_latencies, r.browser_step_latencies)
