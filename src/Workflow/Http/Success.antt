-- ===== src/Workflow/Http/Success.antt =====
-- When the workflows of internal/workflow succeed over HTTP: identifiers are created before the
-- steps that need them.
use browser_analysis.Prelude.{
  ℕ, ◌≡◌, refl, ◌⊎◌, inr, Bool, true, false, ◌||◌, none, arith, leb, All,
}
use browser_analysis.Prelude.Text.{Text, is_empty, codes}
use browser_analysis.Workflow.{
  OpType, Step, Workflow, GoError, SessionState, other, navigate, dom_ready, session_create,
  products, product, cart_add, cart_get, checkout, order_get, default_workflows,
}
use browser_analysis.Workflow.Http.{
  post, no_body, checkout_body, Request, answered, Client, finish, accepted, keep, take_session,
  take_order, perform, step_as, execute_step, execute,
}
use browser_analysis.Workflow.Steps.Success.{
  makes_session, makes_order, well_ordered, Has, Succeeds, Works, run_steps_success, guard_success,
}

-- The requests whose answers hold identifiers.
abbrev pub session_request : Request
session_request = record { method = post; path = codes "/api/session"; body = no_body }

abbrev pub checkout_request : Text → Request
checkout_request session = record {
  method = post;
  path = codes "/api/checkout";
  body = checkout_body session;
}

-- What a healthy target does: every request is answered with a status below 400; and the answers to the
-- requests for a session and for a checkout hold identifiers that the decoders find.
pub record IsServing {W : Type 0} (c : Client W) : Type 0 where
  pub answers :
      (q : Request) (w : W)
      → (status : ℕ) × (raw : Text) × (took : ℕ) × ((c.send q w).0 ≡ answered status raw took)
        × (leb 400 status ≡ false)
  pub sessions :
      (w : W) (status took : ℕ) (raw : Text)
      → (c.send session_request w).0 ≡ answered status raw took
      → (id : Text) × (c.decode_session raw ≡ inr id) × (is_empty id ≡ false)
  pub orders :
      (session : Text) (w : W) (status took : ℕ) (raw : Text)
      → (c.send (checkout_request session) w).0 ≡ answered status raw took
      → (id : Text) × (c.decode_order raw ≡ inr id) × (is_empty id ≡ false)

-- Whether the identifiers that an operation needs are at hand.
abbrev pub ready : OpType → Bool → Bool → Bool
ready cart_add session order = session
ready cart_get session order = session
ready checkout session order = session
ready order_get session order = order
ready (other op) session order = false
ready _ session order = true

finish_success :
    (op : OpType) (q : Request) (extract : Text → GoError ⊎ SessionState) (st next : SessionState)
    (status took : ℕ) (raw : Text)
    → leb 400 status ≡ false
    → extract raw ≡ inr next
    → let o = finish op q extract st (answered status raw took) in (o.err ≡ none) × (o.state ≡ next)
unfolding finish accepted
finish_success op q extract st next status took raw fine e = ground arith

module _ {W : Type 0} (c : Client W) (serving : IsServing c) where
  perform_success :
      (op : OpType) (q : Request) (extract : Text → GoError ⊎ SessionState) (st : SessionState)
      (w : W) (session order : Bool)
      → ((status took : ℕ) (raw : Text)
          → (c.send q w).0 ≡ answered status raw took
          → (next : SessionState) × (extract raw ≡ inr next)
            × Has session next.session_id
            × Has order next.order_id)
      → Succeeds session order (perform c op q extract st w).0
  unfolding perform
  perform_success op q extract st w session order h =
      let (status, raw, took, answer, fine) = serving.answers q w in
      let (next, e, hs, ho) = h status took raw answer in
      let (clean, is) = finish_success op q extract st next status took raw fine e in
      rw answer (clean, rw is hs, rw is ho)

  -- An answer that is not read leaves the identifiers.
  kept :
      (op : OpType) (q : Request) (st : SessionState) (w : W) (session order : Bool)
      → Has session st.session_id
      → Has order st.order_id
      → Succeeds (session || false) (order || false) (perform c op q (keep st) st w).0
  unfolding keep
  kept op q st w session order hs ho =
      perform_success op q (keep st) st w _ _
        λ status took raw e. (st, refl, ground arith, ground arith)

  step_success :
      (op : OpType) (s : Step) (st : SessionState) (w : W) (session order : Bool)
      → ready op session order ≡ true
      → Has session st.session_id
      → Has order st.order_id
      → Succeeds (session || makes_session op) (order || makes_order op) (step_as c op s st w).0
  unfolding step_as take_session take_order
  step_success session_create s st w session order r hs ho =
      perform_success session_create _ (take_session c st) st w _ _ λ status took raw answer.
        let (id, e, full) = serving.sessions w status took raw answer in
        (record st { session_id = id }, ground arith, λ _. full, ground arith)
  step_success checkout s st w session order r hs ho =
      guard_success _ _ (is_empty st.session_id) _ _ (hs r) (
        perform_success checkout _ (take_order c st) st w _ _ λ status took raw answer.
          let (id, e, full) = serving.orders st.session_id w status took raw answer in
          (record st { order_id = id }, ground arith, ground arith, λ _. full))
  step_success cart_add s st w session order r hs ho =
      guard_success _ _ (is_empty st.session_id) _ _ (hs r)
        (kept cart_add _ st w session order hs ho)
  step_success cart_get s st w session order r hs ho =
      guard_success _ _ (is_empty st.session_id) _ _ (hs r)
        (kept cart_get _ st w session order hs ho)
  step_success order_get s st w session order r hs ho =
      guard_success _ _ (is_empty st.order_id) _ _ (ho r)
        (kept order_get _ st w session order hs ho)
  step_success navigate s st w session order r hs ho = kept navigate _ st w session order hs ho
  step_success dom_ready s st w session order r hs ho = kept dom_ready _ st w session order hs ho
  step_success products s st w session order r hs ho = kept products _ st w session order hs ho
  step_success product s st w session order r hs ho = kept product _ st w session order hs ho
  step_success (other op) s st w session order r hs ho = cc
  step_success _ s st w session order r hs ho = (refl, ground arith, ground arith)

  pub execute_step_success : Works ready (execute_step c)
  unfolding execute_step
  execute_step_success s st w = step_success s.op s st w

  -- Against a target that answers every request with a status below 400 and with identifiers that are
  -- not empty, a workflow in which a session is created before the cart and checkout steps, and an
  -- order before its retrieval, returns no error.
  pub well_ordered_success :
      (wf : Workflow) (w : W)
      → well_ordered ready false false wf.steps ≡ true
      → (execute c wf w).1 ≡ none
  unfolding execute
  well_ordered_success wf w r =
      run_steps_success (execute_step c) ready execute_step_success wf.steps _ w false false r
        (λ h. cc) (λ h. cc)

  -- Against a target that answers every request with a status below 400 and with identifiers that are
  -- not empty, each of the four default workflows returns no error.
  pub default_workflows_success : (w : W) → All (λ wf. (execute c wf w).1 ≡ none) default_workflows
  unfolding default_workflows
  default_workflows_success w = (
    well_ordered_success _ w refl,
    (
      well_ordered_success _ w refl,
      (well_ordered_success _ w refl, (well_ordered_success _ w refl, tt)),
    ),
  )
