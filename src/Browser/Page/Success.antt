-- ===== src/Browser/Page/Success.antt =====
-- When the workflows of internal/workflow succeed in a page of internal/browser/executor.go.
use browser_analysis.Prelude.{◌≡◌, refl, ◌⊎◌, inr, Bool, true, false, ◌||◌, ◌++◌, none, some, arith}
use browser_analysis.Prelude.Text.{Text, is_empty, codes}
use browser_analysis.Workflow.{
  OpType, Step, Workflow, GoError, SessionState, other, launch, navigate, dom_ready, session_create,
  products, product, cart_add, cart_get, checkout, order_get, local_storage, indexed_db, execute_js,
  ws_connect,
}
use browser_analysis.Workflow.Steps.Success.{
  makes_session, makes_order, well_ordered, Has, Succeeds, Works, run_steps_success, guard_success,
}
use browser_analysis.Workflow.Http.{Method, post, Body, no_body, checkout_body, unknown_op}
use browser_analysis.Workflow.Http.Success.{ready}
use browser_analysis.Browser.Page.{
  Action, fetch, socket_check, socket_url, session_url, gave_text, error_of, text_of, text_error,
  Page, finish, perform, read_state, read_text, call_api, keep, take_session, take_order, step_as,
  execute_step, execute,
}

-- What a healthy page does, with the target at a base address: every action gives a text; and the texts
-- of the requests for a session and for a checkout hold identifiers that the decoders find.
pub record IsResponsive {W : Type 0} (p : Page W) (base : Text) : Type 0 where
  pub answers : (a : Action) (w : W) → (t : Text) × ((p.act a w).0 ≡ gave_text t)
  pub sessions :
      (w : W) (raw : Text)
      → (p.act (fetch post (base ++ codes "/api/session") no_body) w).0 ≡ gave_text raw
      → (id : Text) × (p.decode_session raw ≡ inr id) × (is_empty id ≡ false)
  pub orders :
      (session : Text) (w : W) (raw : Text)
      → (p.act (fetch post (base ++ codes "/api/checkout") (checkout_body session)) w).0
        ≡ gave_text raw
      → (id : Text) × (p.decode_order raw ≡ inr id) × (is_empty id ≡ false)

-- As in `Workflow.Http.Success`, less the operation that the page executor does not know.
abbrev pub page_ready : OpType → Bool → Bool → Bool
page_ready cart_get session order = false
page_ready op session order = ready op session order

module _ {W : Type 0} (p : Page W) (base : Text) where
  -- `cart_get` fails in every page and state: the error names an unknown operation.
  pub cart_get-unknown :
      (s : Step) (st : SessionState) (w : W)
      → s.op ≡ cart_get
      → let (o, w') = execute_step p base s st w in
        (o.err ≡ some (unknown_op (p.quote (codes "cart_get")))) × (o.state ≡ st) × (w' ≡ w)
  unfolding execute_step step_as finish
  cart_get-unknown s st w e = rw e (refl, refl, refl)

  module _ (responsive : IsResponsive p base) where
    perform_success :
        (op : OpType) (a : Action) (st : SessionState) (w : W) (session order : Bool)
        → Has session st.session_id
        → Has order st.order_id
        → Succeeds (session || false) (order || false) (perform p base op a st w).0
    unfolding perform finish error_of
    perform_success op a st w session order hs ho =
        let (t, e) = responsive.answers a w in rw e (refl, ground arith, ground arith)

    call_success :
        (op : OpType) (method : Method) (path : Text) (body : Body)
        (extract : Text → GoError ⊎ SessionState) (st : SessionState) (w : W) (session order : Bool)
        → ((raw : Text)
            → (p.act (fetch method (base ++ path) body) w).0 ≡ gave_text raw
            → (next : SessionState) × (extract raw ≡ inr next)
              × Has session next.session_id
              × Has order next.order_id)
        → Succeeds session order (call_api p base op method path body extract st w).0
    unfolding call_api read_text read_state finish text_of
    call_success op method path body extract st w session order h =
        let (t, e) = responsive.answers (fetch method (base ++ path) body) w in
        let (next, e', hs, ho) = h t e in rw e (rw e' (refl, hs, ho))

    kept :
        (op : OpType) (method : Method) (path : Text) (body : Body) (st : SessionState) (w : W)
        (session order : Bool)
        → Has session st.session_id
        → Has order st.order_id
        → Succeeds
            (session || false)
            (order || false)
            (call_api p base op method path body (keep p base st) st w).0
    unfolding keep
    kept op method path body st w session order hs ho =
        call_success op method path body (keep p base st) st w _ _
          λ raw e. (st, refl, ground arith, ground arith)

    step_success :
        (op : OpType) (s : Step) (st : SessionState) (w : W) (session order : Bool)
        → page_ready op session order ≡ true
        → Has session st.session_id
        → Has order st.order_id
        → Succeeds
            (session || makes_session op)
            (order || makes_order op)
            (step_as p base op s st w).0
    unfolding step_as take_session take_order finish text_of text_error
    step_success session_create s st w session order r hs ho =
        call_success session_create _ _ _ (take_session p base st) st w _ _ λ raw answer.
          let (id, e, full) = responsive.sessions w raw answer in
          (record st { session_id = id }, ground arith, λ _. full, ground arith)
    step_success checkout s st w session order r hs ho =
        guard_success _ _ (is_empty st.session_id) _ _ (hs r) (
          call_success checkout _ _ _ (take_order p base st) st w _ _ λ raw answer.
            let (id, e, full) = responsive.orders st.session_id w raw answer in
            (record st { order_id = id }, ground arith, ground arith, λ _. full))
    step_success cart_add s st w session order r hs ho =
        guard_success _ _ (is_empty st.session_id) _ _ (hs r)
          (kept cart_add _ _ _ st w session order hs ho)
    step_success order_get s st w session order r hs ho =
        guard_success _ _ (is_empty st.order_id) _ _ (ho r)
          (kept order_get _ _ _ st w session order hs ho)
    step_success products s st w session order r hs ho = kept products _ _ _ st w _ _ hs ho
    step_success product s st w session order r hs ho = kept product _ _ _ st w _ _ hs ho
    step_success ws_connect s st w session order r hs ho =
        let (t, e) = responsive.answers (socket_check (socket_url base) (session_url base)) w in
        rw e (refl, ground arith, ground arith)
    step_success cart_get s st w session order r hs ho = cc
    step_success (other op) s st w session order r hs ho = cc
    step_success navigate s st w session order r hs ho = perform_success navigate _ st w _ _ hs ho
    step_success dom_ready s st w session order r hs ho = perform_success dom_ready _ st w _ _ hs ho
    step_success local_storage s st w session order r hs ho =
        perform_success local_storage _ st w _ _ hs ho
    step_success indexed_db s st w session order r hs ho =
        perform_success indexed_db _ st w _ _ hs ho
    step_success execute_js s st w session order r hs ho =
        perform_success execute_js _ st w _ _ hs ho
    step_success launch s st w session order r hs ho = (refl, ground arith, ground arith)

    pub execute_step_success : Works page_ready (execute_step p base)
    unfolding execute_step
    execute_step_success s st w = step_success s.op s st w

    -- In a page where every action gives a text and the answers hold identifiers that are not empty, a
    -- workflow without cart_get in which a session is created before the cart and checkout steps, and
    -- an order before its retrieval, returns no error.
    pub page_success :
        (wf : Workflow) (w : W)
        → well_ordered page_ready false false wf.steps ≡ true
        → (execute p base wf w).1 ≡ none
    unfolding execute
    page_success wf w r =
        run_steps_success (execute_step p base) page_ready execute_step_success wf.steps _ w false
          false r (λ h. cc) (λ h. cc)
