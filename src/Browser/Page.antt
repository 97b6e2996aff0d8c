-- ===== src/Browser/Page.antt =====
-- internal/browser/executor.go: workflow steps in a page. Playwright is a parameter: an action is a call
-- on the page with what varies in it, the scripts' texts being constants, and its answer is what the
-- `select` takes, the page's or that of the context that is done.
pub mod Reports
pub mod Results
pub mod Success
use browser_analysis.Prelude.{
  ℕ, ◌-◌, ◌⊎◌, inl, inr, Bool, true, false, List, [], ◌∷◌, ◌++◌, Option, none, some, ◌==◌,
  if◌then◌else◌,
}
use browser_analysis.Prelude.Text.{Text, codes, is_empty, has_prefix}
use browser_analysis.Workflow.{
  OpType, Step, Workflow, GoError, plain_error, Result, SessionState, ok, error, other, launch,
  navigate, dom_ready, session_create, products, product, cart_add, cart_get, checkout, order_get,
  local_storage, indexed_db, execute_js, ws_connect,
}
use browser_analysis.Workflow.Steps.{Outcome, run_steps}
use browser_analysis.Workflow.Http.{
  Method, get, post, Body, no_body, cart_body, checkout_body, no_session, no_order, unknown_op,
}

-- `Goto`, `WaitForFunction`, and the scripts of `Evaluate`: `indexDBJS` is `indexed_db_check`, and
-- `fetch` and `socket_check` are those of `apiCall` and `wsCheck`.
pub data Action : Type 0 where
  goto : Text → Action
  wait_complete local_storage_check indexed_db_check js_loop : Action
  fetch : Method → Text → Body → Action
  socket_check : Text → Text → Action

-- Besides a text, `Evaluate` can give a value of another type, whose name the error shows.
pub data Answer : Type 0 where
  context_done : GoError → Answer
  failed : GoError → Answer
  gave_text : Text → Answer
  gave_other : Text → Answer

-- `navigate`, `waitFor` and `eval` look at the error only.
unfoldable pub error_of : Answer → Option GoError
error_of (context_done e) = some e
error_of (failed e) = some e
error_of _ = none

-- `evalString`.
unfoldable pub text_of : Answer → GoError ⊎ Text
text_of (context_done e) = inl e
text_of (failed e) = inl e
text_of (gave_text t) = inr t
text_of (gave_other type_name) = inl (plain_error (codes "expected string, got " ++ type_name))

-- `strings.TrimSuffix(s, "/")`; a slash is 47.
trim_slash : Text → Text
trim_slash [] = []
trim_slash (c ∷ []) = if c == 47 then [] else c ∷ []
trim_slash (c ∷ d ∷ s) = c ∷ trim_slash (d ∷ s)

drop_four : Text → Text
drop_four (a ∷ b ∷ c ∷ d ∷ rest) = rest
drop_four short = []

-- The address of `wsCheck`: `ws` in place of the scheme's first four letters, or before an address
-- that has none.
unfoldable pub socket_url : Text → Text
unfolding trim_slash drop_four
socket_url base =
    let url = trim_slash base in
    (if has_prefix url (codes "http") then codes "ws" ++ drop_four url else codes "ws://" ++ url)
    ++ codes "/ws/events"

unfoldable pub session_url : Text → Text
unfolding trim_slash
session_url base = trim_slash base ++ codes "/api/session"

-- `wsCheck` drops the text.
unfoldable pub text_error : GoError ⊎ Text → Option GoError
text_error (inl e) = some e
text_error (inr t) = none

-- The page, the clock, the JSON decoders and `strconv.Quote`.
pub record Page (W : Type 0) : Type 0 where
  pub act : Action → W → Answer × W
  pub clock : W → ℕ
  pub decode_session : Text → GoError ⊎ Text
  pub decode_order : Text → GoError ⊎ Text
  pub quote : Text → Text

module _ {W : Type 0} (p : Page W) (base : Text) where
  -- The closure `done` of `executeStep`, with the time at which the step began.
  unfoldable pub finish : OpType → ℕ → Option GoError → SessionState → W → Outcome × W
  finish op start err st w = (
    record {
      result = record {
        op = op;
        duration = p.clock w - start;
        status = elim err [ none ↦ ok | some e ↦ error ];
        request = none;
        failure = err;
      };
      err = err;
      state = st;
    },
    w,
  )

  -- A case that looks at the error only.
  unfoldable pub perform : OpType → Action → SessionState → W → Outcome × W
  perform op a st w = let (answer, w') = p.act a w in finish op (p.clock w) (error_of answer) st w'

  -- What a case makes of the text of `apiCall`: `json.Unmarshal` can fail.
  unfoldable pub read_state : OpType → ℕ → GoError ⊎ SessionState → SessionState → W → Outcome × W
  read_state op start (inl e) st w = finish op start (some e) st w
  read_state op start (inr st') st w = finish op start none st' w

  unfoldable pub read_text :
      OpType → ℕ → (Text → GoError ⊎ SessionState) → SessionState → GoError ⊎ Text → W → Outcome × W
  read_text op start extract st (inl e) w = finish op start (some e) st w
  read_text op start extract st (inr raw) w = read_state op start (extract raw) st w

  unfoldable pub call_api :
      OpType
      → Method
      → Text
      → Body
      → (Text → GoError ⊎ SessionState)
      → SessionState
      → W
      → Outcome × W
  call_api op method path body extract st w =
      let (answer, w') = p.act (fetch method (base ++ path) body) w in
      read_text op (p.clock w) extract st (text_of answer) w'

  keep : SessionState → Text → GoError ⊎ SessionState
  keep st raw = inr st

  take_session : SessionState → Text → GoError ⊎ SessionState
  take_session st raw = elim (p.decode_session raw) [
    | inl e ↦ inl e
    | inr id ↦ inr (record st { session_id = id })
  ]

  take_order : SessionState → Text → GoError ⊎ SessionState
  take_order st raw = elim (p.decode_order raw) [
    | inl e ↦ inl e
    | inr id ↦ inr (record st { order_id = id })
  ]

  home_or : Text → Text
  home_or path = if is_empty path then codes "/home" else path

  -- The `switch` of `executeStep`. It has no case for `cart_get`.
  unfoldable pub step_as : OpType → Step → SessionState → W → Outcome × W
  unfolding take_session take_order keep home_or
  step_as launch s st w = finish launch (p.clock w) none st w
  step_as navigate s st w = perform navigate (goto (base ++ home_or s.product_id)) st w
  step_as dom_ready s st w = perform dom_ready wait_complete st w
  step_as session_create s st w =
      call_api session_create post (codes "/api/session") no_body (take_session st) st w
  step_as products s st w = call_api products get (codes "/api/products") no_body (keep st) st w
  step_as product s st w =
      call_api product get (codes "/api/products/" ++ s.product_id) no_body (keep st) st w
  step_as cart_add s st w =
      if is_empty st.session_id
      then finish cart_add (p.clock w) (some no_session) st w
      else call_api cart_add post (codes "/api/cart") (cart_body st.session_id s.product_id s.qty)
          (keep st) st w
  step_as checkout s st w =
      if is_empty st.session_id
      then finish checkout (p.clock w) (some no_session) st w
      else call_api checkout post (codes "/api/checkout") (checkout_body st.session_id)
          (take_order st) st w
  step_as order_get s st w =
      if is_empty st.order_id
      then finish order_get (p.clock w) (some no_order) st w
      else call_api order_get get (codes "/api/order/" ++ st.order_id) no_body (keep st) st w
  step_as local_storage s st w = perform local_storage local_storage_check st w
  step_as indexed_db s st w = perform indexed_db indexed_db_check st w
  step_as execute_js s st w = perform execute_js js_loop st w
  step_as ws_connect s st w =
      let (answer, w') = p.act (socket_check (socket_url base) (session_url base)) w in
      finish ws_connect (p.clock w) (text_error (text_of answer)) st w'
  step_as cart_get s st w =
      finish cart_get (p.clock w) (some (unknown_op (p.quote (codes "cart_get")))) st w
  step_as (other op) s st w = finish (other op) (p.clock w) (some (unknown_op (p.quote op))) st w

  unfoldable pub execute_step : Step → SessionState → W → Outcome × W
  unfolding step_as
  execute_step s st w = step_as s.op s st w

  -- `Execute`, whose loop is `run_steps`.
  unfoldable pub execute : Workflow → W → List Result × Option GoError × W
  unfolding run_steps
  execute wf w = run_steps execute_step wf.steps (record { session_id = []; order_id = [] }) w
