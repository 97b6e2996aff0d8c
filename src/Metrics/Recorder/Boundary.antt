-- ===== src/Metrics/Recorder/Boundary.antt =====
-- The measurement boundary: what `Reset` of internal/metrics/metrics.go lets through. A run of the
-- recorder is the sequence of its method calls.
use browser_analysis.Prelude.{
  ℕ, ◌≡◌, refl, sym, ap, ◌∙◌, subst, Bool, true, false, List, [], ◌∷◌, Bool-cases, if◌then◌else◌,
  inl, inr,
}
use browser_analysis.Prelude.Text.{Text}
use browser_analysis.Prelude.Int.{ℤ, pos}
use browser_analysis.Prelude.Double.{Double}
use browser_analysis.Metrics.Lifecycle.{EventType, LifecycleEvent, navigation_started}
use browser_analysis.Metrics.Recorder.{
  Recorder, bump_lifecycle, record_failure, reset, set_measurement_elapsed, record_browser_launch,
  record_context_creation, record_cdp_connect, record_task_rss_delta, record_lifecycle,
  record_workflow, record_step, record_http_step, record_browser_step, record_request, task_created,
  task_queued, task_active, task_complete, task_failed, task_cancelled, retry, set_active, ws_event,
  workflow_failed, record_escalation,
}

-- One call of a method that changes the recorder.
pub data Call : Type 0 where
  failure : Text → Call
  resets : Call
  elapsed : ℕ → Call
  launch : ℕ → Call
  creation : ℕ → Call
  connect : ℕ → Call
  rss_delta : ℕ → Call
  lifecycle_event : LifecycleEvent → Call
  workflow : ℕ → Call
  step_time : ℕ → Call
  http_step : ℕ → Call
  browser_step : ℕ → Call
  request : ℕ → Bool → Call
  created : Call
  queued : Call
  active : Call
  complete : Call
  failed : Call
  cancelled : Call
  retried : Call
  active_is : ℤ → Call
  ws : Call
  workflow_fails : Call
  escalation : Call

module _ {F : Type 0} ⦃d : Double F⦄ where
  unfoldable pub step : Call → Recorder F → Recorder F
  unfolding record_failure reset set_measurement_elapsed record_browser_launch
      record_context_creation record_cdp_connect record_task_rss_delta record_lifecycle
      record_workflow record_step record_http_step record_browser_step record_request task_created
      task_queued task_active task_complete task_failed task_cancelled retry set_active ws_event
      workflow_failed record_escalation
  step (failure x) r = record_failure x r
  step resets r = reset r
  step (elapsed x) r = set_measurement_elapsed x r
  step (launch x) r = record_browser_launch x r
  step (creation x) r = record_context_creation x r
  step (connect x) r = record_cdp_connect x r
  step (rss_delta x) r = record_task_rss_delta x r
  step (lifecycle_event x) r = record_lifecycle x r
  step (workflow x) r = record_workflow x r
  step (step_time x) r = record_step x r
  step (http_step x) r = record_http_step x r
  step (browser_step x) r = record_browser_step x r
  step (request t b) r = record_request t b r
  step created r = task_created r
  step queued r = task_queued r
  step active r = task_active r
  step complete r = task_complete r
  step failed r = task_failed r
  step cancelled r = task_cancelled r
  step retried r = retry r
  step (active_is x) r = set_active x r
  step ws r = ws_event r
  step workflow_fails r = workflow_failed r
  step escalation r = record_escalation r

  unfoldable pub run : List Call → Recorder F → Recorder F
  unfolding step
  run [] r = r
  run (c ∷ cs) r = run cs (step c r)

-- The calls whose traces outlive the boundary.
abbrev pub is_setup : Call → Bool
is_setup (elapsed t) = true
is_setup (launch t) = true
is_setup (creation t) = true
is_setup (connect t) = true
is_setup (lifecycle_event ev) = true
is_setup _ = false

abbrev pub setup_calls : List Call → List Call
setup_calls [] = []
setup_calls (c ∷ cs) = let rest = setup_calls cs in if is_setup c then c ∷ rest else rest

module _ {F : Type 0} ⦃d : Double F⦄ where
  reset-step_measured :
      (c : Call) (r : Recorder F) → is_setup c ≡ false → reset (step c r) ≡ reset r
  unfolding step reset
  reset-step_measured (elapsed t) r h = cc
  reset-step_measured (launch t) r h = cc
  reset-step_measured (creation t) r h = cc
  reset-step_measured (connect t) r h = cc
  reset-step_measured (lifecycle_event ev) r h = cc
  reset-step_measured (request t true) r h = refl
  reset-step_measured (request t false) r h = refl
  reset-step_measured _ r h = refl

  bump-reset :
      (t : EventType) (r : Recorder F) (new old : List LifecycleEvent)
      → reset (bump_lifecycle t (record (reset r) { lifecycle = new }))
        ≡ reset (bump_lifecycle t (record r { lifecycle = old }))
  unfolding bump_lifecycle reset
  bump-reset navigation_started r new old = refl
  bump-reset _ r new old = refl

  reset-step_reset : (c : Call) (r : Recorder F) → reset (step c (reset r)) ≡ reset (step c r)
  unfolding step reset
  reset-step_reset (request t true) r = refl
  reset-step_reset (request t false) r = refl
  reset-step_reset (lifecycle_event ev) r = bump-reset ev.event_type r _ _
  reset-step_reset _ r = refl

  reset-step_cong :
      (c : Call) (r s : Recorder F) → reset r ≡ reset s → reset (step c r) ≡ reset (step c s)
  reset-step_cong c r s h =
      sym (reset-step_reset c r) ∙ ap (λ t. reset (step c t)) h ∙ reset-step_reset c s

  reset-run_cong :
      (cs : List Call) (r s : Recorder F)
      → reset r ≡ reset s
      → reset (run cs r) ≡ reset (run (setup_calls cs) s)
  unfolding run
  reset-run_cong [] r s h = h
  reset-run_cong (c ∷ cs) r s h = elim (Bool-cases (is_setup c)) [
    | inl yes_setup ↦
        rw yes_setup (reset-run_cong cs (step c r) (step c s) (reset-step_cong c r s h))
    | inr measured ↦
        rw measured (reset-run_cong cs (step c r) s (reset-step_measured c r measured ∙ h))
  ]

  -- What the calls of setup have recorded, in their series and counts, is the same in two recorders.
  pub record SameSetup (q p : Recorder F) : Type 0 where
    pub launches : q.browser_launches ≡ p.browser_launches
    pub creations : q.context_creations ≡ p.context_creations
    pub connects : q.cdp_connects ≡ p.cdp_connects
    pub browsers : q.browsers_created ≡ p.browsers_created
    pub contexts : q.contexts_created ≡ p.contexts_created
    pub pages : q.pages_created ≡ p.pages_created
    pub elapsed_time : q.measurement_elapsed ≡ p.measurement_elapsed

  -- A recorder with nothing from a measurement in it.
  pub record IsCleared (q : Recorder F) : Type 0 where
    pub series :
        (q.workflow_latencies ≡ [])
        × (q.step_latencies ≡ [])
        × (q.request_latencies ≡ [])
        × (q.http_step_latencies ≡ [])
        × (q.browser_step_latencies ≡ [])
        × (q.task_rss_deltas ≡ [])
        × (q.lifecycle ≡ [])
    pub tasks :
        (q.tasks_active ≡ pos 0)
        × (q.tasks_created ≡ 0)
        × (q.tasks_queued ≡ 0)
        × (q.tasks_complete ≡ 0)
        × (q.tasks_failed ≡ 0)
        × (q.tasks_canceled ≡ 0)
    pub counts :
        (q.retries ≡ 0)
        × (q.requests_ok ≡ 0)
        × (q.requests_failed ≡ 0)
        × (q.ws_events ≡ 0)
        × (q.workflow_failures ≡ 0)
        × (q.escalations ≡ 0)
        × (q.failures ≡ [])

  reset-SameSetup : (r : Recorder F) → SameSetup (reset r) r
  unfolding reset
  reset-SameSetup r = record {
    launches = refl;
    creations = refl;
    connects = refl;
    browsers = refl;
    contexts = refl;
    pages = refl;
    elapsed_time = refl;
  }

  reset-IsCleared : (r : Recorder F) → IsCleared (reset r)
  unfolding reset
  reset-IsCleared r = record {
    series = (refl, refl, refl, refl, refl, refl, refl);
    tasks = (refl, refl, refl, refl, refl, refl);
    counts = (refl, refl, refl, refl, refl, refl, refl);
  }

  -- What a warmup has recorded is gone after `Reset`, but for the calls of setup: whatever was called
  -- before, the recorder is then as if only the launch, context, connect and lifecycle calls and the
  -- calls of `SetMeasurementElapsed` had been made. The series of launches, contexts and connects, the
  -- counts of browsers, contexts and pages and the elapsed time are those that these calls have left,
  -- and all other series and counts, the lifecycle events too, are empty or 0.
  pub reset-run :
      (cs : List Call) (r : Recorder F)
      → let q = reset (run cs r) in
        (q ≡ reset (run (setup_calls cs) r)) × SameSetup q (run (setup_calls cs) r) × IsCleared q
  reset-run cs r = (
    reset-run_cong cs r r refl,
    subst (λ q. SameSetup q (run (setup_calls cs) r)) (sym (reset-run_cong cs r r refl))
        (reset-SameSetup (run (setup_calls cs) r)),
    reset-IsCleared (run cs r),
  )
