-- ===== src/Hybrid/Success.antt =====
-- The loop of internal/hybrid/executor.go is the other executors' with the routed step, so what holds of
-- an HTTP step and of a page step holds of a hybrid run.
use browser_analysis.Prelude.{
  ℕ, suc, ◌≡◌, refl, ap, sym, subst, ◌∙◌, inl, inr, Bool, true, false, List, [], ◌∷◌, none,
  if◌then◌else◌, Option-cases,
}
use browser_analysis.Prelude.Text.{Text}
use browser_analysis.Workflow.{OpType, Step, Workflow, SessionState, cart_get}
use browser_analysis.Workflow.Steps.{Outcome, run_steps}
use browser_analysis.Workflow.Steps.Verdicts.{
  OutcomeVerdict, if-Verdict, Runs, run_steps_passed, run_steps_failed, run_steps-Runs,
}
use browser_analysis.Workflow.Steps.Success.{well_ordered, Works, Succeeds, run_steps_success}
use browser_analysis.Workflow.Http.{Client}
use browser_analysis.Workflow.Http.Results.{execute_step-Verdict}
use browser_analysis.Workflow.Http.Success.{IsServing, ready, execute_step_success}
use browser_analysis.Browser.Page.{Page}
use browser_analysis.Browser.Page as Page
use browser_analysis.Browser.Page.Results
use browser_analysis.Browser.Page.Success.{
  IsResponsive, page_ready, execute_step_success as execute_page_step,
}
use browser_analysis.Hybrid.{
  EscalationPolicy, policy_workflow, policy_other, browser_only, route, execute_steps, execute,
}
use browser_analysis.Hybrid.Escalation.{steps_passed, steps_failed}

module _ {W : Type 0} (http : Client W) (page_step : Step → SessionState → W → Outcome × W)
    (policy : EscalationPolicy) where
  steps_alike :
      (n : ℕ) (ss : List Step) (st : SessionState) (w : W)
      → let r = execute_steps http page_step policy n ss st w in
        (r.results, r.err, r.world) ≡ run_steps (route http page_step policy) ss st w
  unfolding execute_steps run_steps
  steps_alike n [] st w = refl
  steps_alike n (s ∷ ss) st w =
      let (o, w') = route http page_step policy s st w in
      let ih = steps_alike (if browser_only policy s.op then suc n else n) ss o.state w' in
      elim (Option-cases (route http page_step policy s st w).0.err) [
        | inr (e, failed) ↦
            rw (steps_failed http page_step policy n s ss st w e failed)
              (rw (run_steps_failed (route http page_step policy) s ss st w e failed) refl)
        | inl passed ↦ rw (steps_passed http page_step policy n s ss st w passed) (
            rw (run_steps_passed (route http page_step policy) s ss st w passed)
              (ap (λ t. (o.result ∷ t.0, t.1, t.2)) ih))
      ]

  -- The results, the error and the world of `Execute` are those of the loop that runs each step where
  -- the policy sends it.
  pub hybrid-run_steps :
      (wf : Workflow) (w : W)
      → let r = execute http page_step policy wf w in
        (r.results, r.err, r.world)
        ≡ run_steps
            (route http page_step policy)
            wf.steps
            (record { session_id = []; order_id = [] })
            w
  unfolding execute
  hybrid-run_steps wf w = steps_alike 0 wf.steps _ w

if-Succeeds :
    {W : Type 0} (session order b : Bool) (x y : Outcome × W)
    → (b ≡ true → Succeeds session order x.0)
    → Succeeds session order y.0
    → Succeeds session order (if b then x else y).0
if-Succeeds session order true x y hx hy = hx refl
if-Succeeds session order false x y hx hy = hy

-- The page executor knows every operation that a policy sends to it.
page_ready-ready :
    (policy : EscalationPolicy) (op : OpType) (session order : Bool)
    → browser_only policy op ≡ true
    → page_ready op session order ≡ ready op session order
unfolding browser_only
page_ready-ready (policy_other name) op session order h = cc
page_ready-ready policy_workflow cart_get session order h = cc
page_ready-ready policy_workflow op session order h = refl

module _ {W : Type 0} (http : Client W) (p : Page W) (base : Text) (policy : EscalationPolicy) where
  route-Verdict :
      (s : Step) (st : SessionState) (w : W)
      → OutcomeVerdict s.op (route http (Page.execute_step p base) policy s st w).0
  unfolding route
  route-Verdict s st w =
      if-Verdict _ _ _ _ (Results.execute_step-Verdict p base s st w)
        (execute_step-Verdict http s st w)

  -- Whatever the target and the page answer, a hybrid run leaves one result for each step it reached,
  -- in order: no error status and no error before the last, and an error at the last exactly when
  -- `Execute` returns one.
  pub hybrid-Runs :
      (wf : Workflow) (w : W)
      → let r = execute http (Page.execute_step p base) policy wf w in Runs wf.steps r.results r.err
  hybrid-Runs wf w =
      subst (λ t. Runs wf.steps t.0 t.1)
        (sym (hybrid-run_steps http (Page.execute_step p base) policy wf w))
        (run_steps-Runs _ route-Verdict wf.steps _ w)

  module _ (serving : IsServing http) (responsive : IsResponsive p base) where
    route_success : Works ready (route http (Page.execute_step p base) policy)
    unfolding route
    route_success s st w session order r hs ho =
        if-Succeeds _ _ (browser_only policy s.op) _ _
          (λ sent.
            execute_page_step p base responsive s st w session order
              (rw (page_ready-ready policy s.op session order sent) r) hs ho)
          (execute_step_success http serving s st w session order r hs ho)

    -- Against a target that answers every request with a status below 400, in a page where every action
    -- gives a text, both with identifiers that are not empty in their answers to the requests for a
    -- session and for a checkout, a workflow of known operations, in which a session is created
    -- before the cart and checkout steps, and an order before its retrieval, returns no error under
    -- any policy.
    pub hybrid_success :
        (wf : Workflow) (w : W)
        → well_ordered ready false false wf.steps ≡ true
        → (execute http (Page.execute_step p base) policy wf w).err ≡ none
    hybrid_success wf w r =
        ap (λ t. t.1) (hybrid-run_steps http (Page.execute_step p base) policy wf w)
        ∙ run_steps_success _ ready route_success wf.steps _ w false false r (λ h. cc) (λ h. cc)
