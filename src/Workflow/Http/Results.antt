-- ===== src/Workflow/Http/Results.antt =====
-- What `Execute` of internal/workflow/http_executor.go returns, and what it sends.
use browser_analysis.Prelude.{ℕ, refl, ◌⊎◌, inl, inr, Bool, true, false, if◌then◌else◌, leb}
use browser_analysis.Prelude.Text.{Text, is_empty}
use browser_analysis.Workflow.{
  OpType, Step, Workflow, GoError, SessionState, other, launch, navigate, dom_ready, session_create,
  products, product, cart_add, cart_get, checkout, order_get,
}
use browser_analysis.Workflow.Steps.Verdicts.{OutcomeVerdict, refuse-Verdict, Runs, run_steps-Runs}
use browser_analysis.Workflow.Http.{
  Request, Reply, Outcome, refuse, accepted, Client, finish, perform, step_as, execute_step,
  execute,
}

if-Verdict :
    (op : OpType) (b : Bool) (x y : Outcome)
    → OutcomeVerdict op x
    → OutcomeVerdict op y
    → OutcomeVerdict op (if b then x else y)
if-Verdict op true x y hx hy = hx
if-Verdict op false x y hx hy = hy

accepted-Verdict :
    (op : OpType) (q : Request) (status took : ℕ) (st : SessionState) (x : GoError ⊎ SessionState)
    → OutcomeVerdict op (accepted op q status took st x)
unfolding accepted
accepted-Verdict op q status took st (inl e) = (refl, inr (refl, e, refl, refl))
accepted-Verdict op q status took st (inr st') = (refl, inl (λ h. cc, refl, refl))

finish-Verdict :
    (op : OpType) (q : Request) (extract : Text → GoError ⊎ SessionState) (st : SessionState)
    (reply : Reply)
    → OutcomeVerdict op (finish op q extract st reply)
unfolding finish
finish-Verdict op q extract st (Reply.not_built e) = refuse-Verdict op e st
finish-Verdict op q extract st (Reply.not_sent e took) = (refl, inr (refl, e, refl, refl))
finish-Verdict op q extract st (Reply.cut_off status e took) = (refl, inr (refl, e, refl, refl))
finish-Verdict op q extract st (Reply.answered status raw took) =
    if-Verdict op (leb 400 status) _ (accepted op q status took st (extract raw))
      (refl, inr (refl, _, refl, refl)) (accepted-Verdict op q status took st (extract raw))

guard-Verdict :
    {W : Type 0} (op : OpType) (b : Bool) (e : GoError) (st : SessionState) (w : W)
    (x : Outcome × W)
    → OutcomeVerdict op x.0
    → OutcomeVerdict op (if b then (refuse op e st, w) else x).0
guard-Verdict op true e st w x h = refuse-Verdict op e st
guard-Verdict op false e st w x h = h

module _ {W : Type 0} (c : Client W) where
  perform-Verdict :
      (op : OpType) (q : Request) (extract : Text → GoError ⊎ SessionState) (st : SessionState)
      (w : W)
      → OutcomeVerdict op (perform c op q extract st w).0
  unfolding perform
  perform-Verdict op q extract st w = finish-Verdict op q extract st (c.send q w).0

  step-Verdict :
      (op : OpType) (s : Step) (st : SessionState) (w : W)
      → OutcomeVerdict op (step_as c op s st w).0
  unfolding step_as
  step-Verdict launch s st w = (refl, inl (λ h. cc, refl, refl))
  step-Verdict (other op) s st w = refuse-Verdict (other op) _ st
  step-Verdict session_create s st w = perform-Verdict session_create _ _ st w
  step-Verdict navigate s st w = perform-Verdict navigate _ _ st w
  step-Verdict dom_ready s st w = perform-Verdict dom_ready _ _ st w
  step-Verdict products s st w = perform-Verdict products _ _ st w
  step-Verdict product s st w = perform-Verdict product _ _ st w
  step-Verdict cart_add s st w =
      guard-Verdict cart_add (is_empty st.session_id) _ st w _ (perform-Verdict cart_add _ _ st w)
  step-Verdict cart_get s st w =
      guard-Verdict cart_get (is_empty st.session_id) _ st w _ (perform-Verdict cart_get _ _ st w)
  step-Verdict checkout s st w =
      guard-Verdict checkout (is_empty st.session_id) _ st w _ (perform-Verdict checkout _ _ st w)
  step-Verdict order_get s st w =
      guard-Verdict order_get (is_empty st.order_id) _ st w _ (perform-Verdict order_get _ _ st w)
  step-Verdict _ s st w = (refl, inl (λ h. cc, refl, refl))

module _ {W : Type 0} (c : Client W) where
  pub execute_step-Verdict :
      (s : Step) (st : SessionState) (w : W) → OutcomeVerdict s.op (execute_step c s st w).0
  unfolding execute_step
  execute_step-Verdict s st w = step-Verdict c s.op s st w

  -- `Execute` returns the results of the workflow's steps in order, each for the operation of its
  -- step: if it returns no error, one for every step and none with status "error"; otherwise it stops
  -- at the first step that fails, whose result is the last one and holds the error returned.
  pub execute-Runs : (wf : Workflow) (w : W) → let t = execute c wf w in Runs wf.steps t.0 t.1
  unfolding execute
  execute-Runs wf w = run_steps-Runs (execute_step c) execute_step-Verdict wf.steps _ w
