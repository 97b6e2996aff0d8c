-- ===== src/Browser/Page/Results.antt =====
-- What `Execute` of internal/browser/executor.go returns.
use browser_analysis.Prelude.{ℕ, refl, ◌⊎◌, inl, inr, Option, none, some}
use browser_analysis.Prelude.Text.{Text}
use browser_analysis.Workflow.{
  OpType, Step, Workflow, GoError, SessionState, other, launch, navigate, dom_ready, session_create,
  products, product, cart_add, cart_get, checkout, order_get, local_storage, indexed_db, execute_js,
  ws_connect,
}
use browser_analysis.Workflow.Steps.Verdicts.{OutcomeVerdict, if-Verdict, Runs, run_steps-Runs}
use browser_analysis.Workflow.Http.{Method, Body}
use browser_analysis.Browser.Page.{
  Action, Page, finish, perform, read_state, read_text, call_api, step_as, execute_step, execute,
}

module _ {W : Type 0} (p : Page W) (base : Text) where
  finish-Verdict :
      (op : OpType) (start : ℕ) (err : Option GoError) (st : SessionState) (w : W)
      → OutcomeVerdict op (finish p base op start err st w).0
  unfolding finish
  finish-Verdict op start none st w = (refl, inl (λ h. cc, refl, refl))
  finish-Verdict op start (some e) st w = (refl, inr (refl, e, refl, refl))

  read_state-Verdict :
      (op : OpType) (start : ℕ) (got : GoError ⊎ SessionState) (st : SessionState) (w : W)
      → OutcomeVerdict op (read_state p base op start got st w).0
  unfolding read_state
  read_state-Verdict op start (inl e) st w = finish-Verdict op start (some e) st w
  read_state-Verdict op start (inr st') st w = finish-Verdict op start none st' w

  read_text-Verdict :
      (op : OpType) (start : ℕ) (extract : Text → GoError ⊎ SessionState) (st : SessionState)
      (t : GoError ⊎ Text) (w : W)
      → OutcomeVerdict op (read_text p base op start extract st t w).0
  unfolding read_text
  read_text-Verdict op start extract st (inl e) w = finish-Verdict op start (some e) st w
  read_text-Verdict op start extract st (inr raw) w = read_state-Verdict op start (extract raw) st w

  perform-Verdict :
      (op : OpType) (a : Action) (st : SessionState) (w : W)
      → OutcomeVerdict op (perform p base op a st w).0
  unfolding perform
  perform-Verdict op a st w = finish-Verdict _ _ _ _ _

  call_api-Verdict :
      (op : OpType) (method : Method) (path : Text) (body : Body)
      (extract : Text → GoError ⊎ SessionState) (st : SessionState) (w : W)
      → OutcomeVerdict op (call_api p base op method path body extract st w).0
  unfolding call_api
  call_api-Verdict op method path body extract st w = read_text-Verdict _ _ _ _ _ _

  step_as-Verdict :
      (op : OpType) (s : Step) (st : SessionState) (w : W)
      → OutcomeVerdict op (step_as p base op s st w).0
  unfolding step_as
  step_as-Verdict launch s st w = finish-Verdict _ _ _ _ _
  step_as-Verdict navigate s st w = perform-Verdict _ _ _ _
  step_as-Verdict dom_ready s st w = perform-Verdict _ _ _ _
  step_as-Verdict session_create s st w = call_api-Verdict _ _ _ _ _ _ _
  step_as-Verdict products s st w = call_api-Verdict _ _ _ _ _ _ _
  step_as-Verdict product s st w = call_api-Verdict _ _ _ _ _ _ _
  step_as-Verdict cart_add s st w =
      if-Verdict _ _ _ _ (finish-Verdict _ _ _ _ _) (call_api-Verdict _ _ _ _ _ _ _)
  step_as-Verdict checkout s st w =
      if-Verdict _ _ _ _ (finish-Verdict _ _ _ _ _) (call_api-Verdict _ _ _ _ _ _ _)
  step_as-Verdict order_get s st w =
      if-Verdict _ _ _ _ (finish-Verdict _ _ _ _ _) (call_api-Verdict _ _ _ _ _ _ _)
  step_as-Verdict local_storage s st w = perform-Verdict _ _ _ _
  step_as-Verdict indexed_db s st w = perform-Verdict _ _ _ _
  step_as-Verdict execute_js s st w = perform-Verdict _ _ _ _
  step_as-Verdict ws_connect s st w = finish-Verdict _ _ _ _ _
  step_as-Verdict cart_get s st w = finish-Verdict _ _ _ _ _
  step_as-Verdict (other op) s st w = finish-Verdict _ _ _ _ _

  pub execute_step-Verdict :
      (s : Step) (st : SessionState) (w : W) → OutcomeVerdict s.op (execute_step p base s st w).0
  unfolding execute_step
  execute_step-Verdict s st w = step_as-Verdict s.op s st w

  -- Whatever the page answers, `Execute` returns one result for each step it reached, in order: no
  -- error status and no error before the last, and an error at the last exactly when it returns one.
  pub page-Runs : (wf : Workflow) (w : W) → let t = execute p base wf w in Runs wf.steps t.0 t.1
  unfolding execute
  page-Runs wf w = run_steps-Runs _ execute_step-Verdict wf.steps _ w
