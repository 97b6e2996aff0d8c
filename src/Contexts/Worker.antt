-- ===== src/Contexts/Worker.antt =====
-- `Run` of internal/contexts/worker.go: a task on a context of the pool. What Playwright does, and what
-- the page executor returns, are arguments.
use browser_analysis.Prelude.{
  ℕ, ◌≡◌, Bool, true, false, not, List, ◌∷◌, Option, arith, if◌then◌else◌,
}
use browser_analysis.Prelude.Double.{Double}
use browser_analysis.Metrics.Lifecycle.{event, page_create_completed}
use browser_analysis.Metrics.Recorder.{record_lifecycle, record_workflow, workflow_failed}
use browser_analysis.Workflow.{Result}
use browser_analysis.Browser.Page.Reports.{record_results}
use browser_analysis.Contexts.{Pool, context, refused, acquire, release, take_context}

-- What the task meets: no page, or a page on which the executor gives results, a time and an error.
pub data Outcome : Type 0 where
  no_page : Outcome
  executed : List Result → ℕ → Bool → Outcome

module _ {F : Type 0} ⦃d : Double F⦄ where
  -- The end of `Run`, on whether the executor failed.
  unfoldable pub end_task : Bool → ℕ → ℕ → Pool F → Pool F × Bool
  unfolding release
  end_task true took c p =
      let r = release c (record p { closed_contexts = c ∷ p.closed_contexts }) in
      (record r { rec = workflow_failed r.rec }, false)
  end_task false took c p =
      let r = release c p in (record r { rec = record_workflow took r.rec }, true)

  -- Past `Acquire`: the pool afterwards, and whether `Run` returns without an error.
  serve : ℕ → ℕ → Outcome → ℕ → Pool F → Pool F × Bool
  unfolding release record_results end_task
  serve now task no_page c p = (release c p, false)
  serve now task (executed results took failed) c p =
      let opened = record_lifecycle (event page_create_completed now task) p.rec in
      end_task failed took c (record p { rec = record_results results opened })

  pub run_task : ℕ → ℕ → Option (ℕ × ℕ) → Outcome → Pool F → Pool F × Bool
  unfolding acquire serve
  run_task now task made outcome p =
      let (q, got) = acquire now made p in
      elim got [ refused e ↦ (q, false) | context c ↦ serve now task outcome c q ]

-- Whether the task succeeds, and whether its context is closed for the error.
abbrev pub succeeds : Outcome → Bool
succeeds no_page = false
succeeds (executed results took failed) = not failed

abbrev pub poisons : Outcome → Bool
poisons no_page = false
poisons (executed results took failed) = failed

module _ {F : Type 0} ⦃d : Double F⦄ where
  -- On an open pool with an idle context `c`, a task whatever its outcome puts `c` back on top of the
  -- idle ones, so that the next `Acquire` gives `c` again; it has closed `c` exactly if the executor
  -- failed. So a context that was closed for an error does serve the next task.
  pub run_task-context :
      (now task : ℕ) (made : Option (ℕ × ℕ)) (outcome : Outcome) (p : Pool F) (c : ℕ)
      (rest : List ℕ)
      → p.closed ≡ false
      → p.available ≡ c ∷ rest
      → let (q, fine) = run_task now task made outcome p in
        (fine ≡ succeeds outcome)
        × (q.available ≡ p.available)
        × (q.closed_contexts
            ≡ (if poisons outcome then c ∷ p.closed_contexts else p.closed_contexts))
        × ((acquire now made q).1 ≡ context c)
  unfolding run_task serve end_task acquire take_context release
  run_task-context now task made no_page p c rest h e = ground arith
  run_task-context now task made (executed results took true) p c rest h e = ground arith
  run_task-context now task made (executed results took false) p c rest h e = ground arith
