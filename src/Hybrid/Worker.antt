-- ===== src/Hybrid/Worker.antt =====
-- `Run` of internal/hybrid/worker.go: a task on a context of the pool, by the hybrid executor. Whether
-- the page can be made, and the time that the workflow took, are arguments.
use browser_analysis.Prelude.{
  ℕ, zero, suc, ◌+◌, ◌≡◌, refl, ap, ◌∙◌, Bool, true, false, not, List, [], ◌∷◌, Option, none, some,
  arith, if◌then◌else◌,
}
use browser_analysis.Prelude.Double.{Double}
use browser_analysis.Metrics.Recorder.{
  Recorder, record_browser_step, record_http_step, record_failure, record_escalation,
  record_workflow, workflow_failed,
}
use browser_analysis.Workflow.{Workflow, Step, Result, GoError, SessionState}
use browser_analysis.Workflow.Http.{Client, Outcome}
use browser_analysis.Hybrid.{EscalationPolicy, browser_only, Run, execute}
use browser_analysis.Contexts.Sets.{put}
use browser_analysis.Contexts.{Pool, context, refused, acquire, release, take_context}
use browser_analysis.Workflow.Recording.{has_error, has_time, record_failed}

module _ {F : Type 0} ⦃d : Double F⦄ where
  -- The two tests in the loop's body.
  record_step_time : EscalationPolicy → Result → Recorder F → Recorder F
  record_step_time p r rec =
      if has_time r
      then (if browser_only p r.op
          then record_browser_step r.duration rec
          else record_http_step r.duration rec)
      else rec

  record_results : EscalationPolicy → List Result → Recorder F → Recorder F
  unfolding record_step_time record_failed
  record_results p [] rec = rec
  record_results p (r ∷ rest) rec =
      record_results p rest (record_failed r.failure (record_step_time p r rec))

  record_escalations : ℕ → Recorder F → Recorder F
  record_escalations zero rec = rec
  record_escalations (suc n) rec = record_escalations n (record_escalation rec)

  -- `Run` past the executor, on its error.
  finish : Option GoError → ℕ → ℕ → ℕ → Pool F → Pool F × Bool
  unfolding release record_escalations
  finish (some e) escalations took c p =
      let r = release c (record p { closed_contexts = c ∷ p.closed_contexts }) in
      (record r { rec = workflow_failed r.rec }, false)
  finish none escalations took c p =
      let r = release c (record p { rec = record_escalations escalations p.rec }) in
      (record r { rec = record_workflow took r.rec }, true)

  serve : {W : Type 0} → EscalationPolicy → Run W → ℕ → ℕ → Pool F → Pool F × Bool
  unfolding finish record_results
  serve policy ran took c p =
      finish ran.err ran.escalations took c
        (record p { rec = record_results policy ran.results p.rec })

  module _ {W : Type 0} (http : Client W) (page_step : Step → SessionState → W → Outcome × W) where
    unfoldable pub run_task :
        EscalationPolicy → Workflow → ℕ → Option (ℕ × ℕ) → Bool → ℕ → W → Pool F → Pool F × Bool
    unfolding acquire serve execute
    run_task policy wf now made page_made took w p =
        let (q, got) = acquire now made p in
        elim got [
          | refused e ↦ (q, false)
          | context c ↦
              if page_made
              then serve policy (execute http page_step policy wf w) took c q
              else (release c q, false)
        ]

  escalations-failed :
      (e : Option GoError) (rec : Recorder F) → (record_failed e rec).escalations ≡ rec.escalations
  unfolding record_failed record_failure
  escalations-failed none rec = refl
  escalations-failed (some e) rec = refl

  escalations-record :
      (n : ℕ) (rec : Recorder F) → (record_escalations n rec).escalations ≡ rec.escalations + n
  unfolding record_escalations record_escalation
  escalations-record zero rec = omega arith
  escalations-record (suc n) rec = omega (arith, escalations-record n (record_escalation rec))

  escalations-results :
      (p : EscalationPolicy) (rs : List Result) (rec : Recorder F)
      → (record_results p rs rec).escalations ≡ rec.escalations
  unfolding record_results record_step_time record_browser_step record_http_step
  escalations-results p [] rec = refl
  escalations-results p (r ∷ rs) rec =
      escalations-results p rs _ ∙ escalations-failed r.failure _ ∙ ground arith

  finish-escalations :
      (err : Option GoError) (n took c : ℕ) (p : Pool F)
      → let (q, fine) = finish err n took c p in
        q.rec.escalations ≡ p.rec.escalations + (if fine then n else 0)
  unfolding finish release workflow_failed record_workflow
  finish-escalations none n took c p = ground (arith, escalations-record n p.rec)
  finish-escalations (some e) n took c p = ground arith

  finish-context :
      (err : Option GoError) (n took now c : ℕ) (made : Option (ℕ × ℕ)) (p : Pool F)
      → p.closed ≡ false
      → let (q, fine) = finish err n took c p in
        (fine ≡ not (has_error err))
        × (q.closed_contexts ≡ (if fine then p.closed_contexts else c ∷ p.closed_contexts))
        × ((acquire now made q).1 ≡ context c)
  unfolding finish release acquire take_context
  finish-context none n took now c made p h = ground arith
  finish-context (some e) n took now c made p h = ground arith

module _ {F W : Type 0} ⦃d : Double F⦄ (http : Client W)
    (page_step : Step → SessionState → W → Outcome × W) where
  run_task_idle :
      (policy : EscalationPolicy) (wf : Workflow) (now : ℕ) (made : Option (ℕ × ℕ)) (took : ℕ)
      (w : W) (p : Pool F) (c : ℕ) (rest : List ℕ)
      → p.closed ≡ false
      → p.available ≡ c ∷ rest
      → run_task http page_step policy wf now made true took w p
        ≡ serve policy
            (execute http page_step policy wf w)
            took
            c
            (record p { available = rest; in_use = put c p.in_use })
  unfolding run_task acquire take_context
  run_task_idle policy wf now made took w p c rest h e = ground arith

  -- A task on an open pool with an idle context `c`, whose page can be made: `Run` returns no error
  -- exactly if the executor returns none; the recorder counts the executor's escalations in that case
  -- and none otherwise; and after an error `c` has been closed, but whether or not there was one the
  -- next `Acquire` gives `c`.
  pub run_task-escalations :
      (policy : EscalationPolicy) (wf : Workflow) (now : ℕ) (made : Option (ℕ × ℕ)) (took : ℕ)
      (w : W) (p : Pool F) (c : ℕ) (rest : List ℕ)
      → p.closed ≡ false
      → p.available ≡ c ∷ rest
      → let ran = execute http page_step policy wf w in
        let (q, fine) = run_task http page_step policy wf now made true took w p in
        (fine ≡ not (has_error ran.err))
        × (q.rec.escalations ≡ p.rec.escalations + (if fine then ran.escalations else 0))
        × (q.closed_contexts ≡ (if fine then p.closed_contexts else c ∷ p.closed_contexts))
        × ((acquire now made q).1 ≡ context c)
  unfolding serve
  run_task-escalations policy wf now made took w p c rest h e =
      let ran = execute http page_step policy wf w in
      let lent = record p { available = rest; in_use = put c p.in_use } in
      let told = record lent { rec = record_results policy ran.results p.rec } in
      let (fine, closed, again) = finish-context ran.err ran.escalations took now c made told h in
      rw (run_task_idle policy wf now made took w p c rest h e) (
        fine,
        finish-escalations ran.err ran.escalations took c told
            ∙ ap
                (λ n.
                  n
                  + (if (finish ran.err ran.escalations took c told).1 then ran.escalations else 0))
                (escalations-results policy ran.results p.rec),
        closed,
        again,
      )
