-- ===== src/Workflow/Http.antt =====
-- internal/workflow/http_executor.go. The HTTP client is a parameter: `send` answers a request and
-- moves the outside world on. So is encoding/json: `decode_session` and `decode_order` read the
-- identifiers of an answer's body. Bodies are ASCII, so their length is their number of characters.
pub mod Results
pub mod Success
use Prim.Native.Nat.{ℕ, zero, suc, ◌+◌, ◌/◌, ◌%◌}
use browser_analysis.Prelude.{
  Bool, true, false, ◌&&◌, ◌||◌, ◌⊎◌, inl, inr, List, [], ◌∷◌, ◌++◌, Option, none, some, ltb, leb,
  ◌==◌, length, if◌then◌else◌,
}
use browser_analysis.Prelude.Text.{Text, codes, is_empty}
pub use browser_analysis.Workflow.Steps.{Outcome, bare, refuse}
use browser_analysis.Workflow.Steps.{run_steps}
use browser_analysis.Workflow.{
  OpType, Step, Workflow, GoError, plain_error, RequestInfo, Status, Result, SessionState, ok,
  skipped, error, launch, navigate, dom_ready, session_create, products, product, cart_add,
  cart_get, checkout, order_get, local_storage, indexed_db, execute_js, ws_connect, other,
}

pub data Method : Type 0 where
  get post : Method

abbrev pub method_name : Method → Text
method_name get = codes "GET"
method_name post = codes "POST"

-- The bodies that the executor sends; `json.Marshal` does not fail on them.
pub data Body : Type 0 where
  no_body : Body
  cart_body : Text → Text → ℕ → Body  -- session, product, quantity
  checkout_body : Text → Body  -- session

pub record Request : Type 0 where
  pub method : Method
  pub path : Text
  pub body : Body

-- How a request can end, with the time that it took.
pub data Reply : Type 0 where
  not_built : GoError → Reply  -- http.NewRequestWithContext fails
  not_sent : GoError → ℕ → Reply  -- client.Do fails
  cut_off : ℕ → GoError → ℕ → Reply  -- io.ReadAll fails, after a status
  answered : ℕ → Text → ℕ → Reply  -- status and whole body

-- unicode.IsSpace.
is_space : ℕ → Bool
is_space c =
    (leb 9 c && leb c 13)
    || c == 32
    || c == 0x85
    || c == 0xA0
    || c == 0x1680
    || (leb 0x2000 c && leb c 0x200A)
    || c == 0x2028
    || c == 0x2029
    || c == 0x202F
    || c == 0x205F
    || c == 0x3000

trim_left : Text → Text
unfolding is_space
trim_left [] = []
trim_left (c ∷ s) = if is_space c then trim_left s else c ∷ s

trim_right : Text → Text
unfolding is_space
trim_right [] = []
trim_right (c ∷ s) = let rest = trim_right s in if is_empty rest && is_space c then [] else c ∷ rest

take : ℕ → Text → Text
take zero s = []
take (suc n) [] = []
take (suc n) (c ∷ s) = c ∷ take n s

-- `%d`. The fuel is the number itself, which has no more digits than that.
decimal_from : ℕ → ℕ → Text
decimal_from zero n = []
decimal_from (suc fuel) n =
    let high = decimal_from fuel (n / 10) in (if n == 0 then [] else high ++ (48 + n % 10) ∷ [])

decimal : ℕ → Text
unfolding decimal_from
decimal n = if n == 0 then codes "0" else decimal_from n n

-- `strings.TrimSpace(string(raw))`, cut to 200 bytes.
body_text : Text → Text
unfolding trim_left trim_right take
body_text raw =
    let trimmed = trim_right (trim_left raw) in
    if ltb 200 (length trimmed) then take 200 trimmed else trimmed

-- `fmt.Errorf("http %d on %s %s: %s", …)`.
pub http_error : ℕ → Method → Text → Text → GoError
unfolding body_text decimal
http_error status method path raw = plain_error (
    codes "http "
    ++ (decimal status
        ++ (codes " on "
            ++ (method_name method ++ (codes " " ++ (path ++ (codes ": " ++ body_text raw)))))))

unfoldable pub no_session : GoError
no_session = plain_error (codes "no session")

pub no_order : GoError
no_order = plain_error (codes "no order")

-- `quoted` is the name as `%q` writes it.
pub unknown_op : Text → GoError
unknown_op quoted = plain_error (codes "unknown op " ++ quoted)

info : Request → ℕ → ℕ → Text → Option RequestInfo
info q status duration message = some (record {
  method = method_name q.method;
  path = q.path;
  status = status;
  duration = duration;
  err_string = message;
})

sent : OpType → Request → ℕ → ℕ → Text → Status → Option GoError → Result
unfolding info
sent op q status duration message verdict failure = record {
  op = op;
  duration = duration;
  status = verdict;
  request = info q status duration message;
  failure = failure;
}

-- A status of 400 or more: the server's message goes into the error.
pub rejected : OpType → Request → ℕ → Text → ℕ → SessionState → Outcome
unfolding sent http_error
rejected op q status raw took st =
    let e = http_error status q.method q.path raw in
    record { result = sent op q status took e.message error (some e); err = some e; state = st }

-- Any other status, after `extract` has read the body.
pub accepted : OpType → Request → ℕ → ℕ → SessionState → GoError ⊎ SessionState → Outcome
unfolding sent
accepted op q status took st (inl e) = record {
  result = sent op q status took [] error (some e);
  err = some e;
  state = st;
}
accepted op q status took st (inr st') = record {
  result = sent op q status took [] ok none;
  err = none;
  state = st';
}

-- `do` past the client's answer. `extract` is `inl` for its error, or the new session state.
unfoldable pub finish :
    OpType → Request → (Text → GoError ⊎ SessionState) → SessionState → Reply → Outcome
unfolding sent rejected accepted
finish op q extract st (not_built e) = refuse op e st
finish op q extract st (not_sent e took) = record {
  result = record (sent op q 0 0 e.message error (some e)) { duration = took };
  err = some e;
  state = st;
}
finish op q extract st (cut_off status e took) = record {
  result = sent op q status took [] error (some e);
  err = some e;
  state = st;
}
finish op q extract st (answered status raw took) =
    if leb 400 status
    then rejected op q status raw took st
    else accepted op q status took st (extract raw)

-- `extract` is nil.
pub keep : SessionState → Text → GoError ⊎ SessionState
keep st raw = inr st

-- The JSON decoders, and the client.
pub record Client (W : Type 0) : Type 0 where
  pub send : Request → W → Reply × W
  pub decode_session : Text → GoError ⊎ Text
  pub decode_order : Text → GoError ⊎ Text
  pub quote : Text → Text  -- strconv.Quote

module _ {W : Type 0} (c : Client W) where
  pub take_session : SessionState → Text → GoError ⊎ SessionState
  take_session st raw = elim (c.decode_session raw) [
    | inl e ↦ inl e
    | inr id ↦ inr (record st { session_id = id })
  ]

  pub take_order : SessionState → Text → GoError ⊎ SessionState
  take_order st raw = elim (c.decode_order raw) [
    | inl e ↦ inl e
    | inr id ↦ inr (record st { order_id = id })
  ]

  -- `do`.
  unfoldable pub perform :
      OpType → Request → (Text → GoError ⊎ SessionState) → SessionState → W → Outcome × W
  perform op q extract st w = let (reply, w') = c.send q w in (finish op q extract st reply, w')

  abbrev fetch : OpType → Text → SessionState → W → Outcome × W
  fetch op path st w =
      perform op (record { method = get; path = path; body = no_body }) (keep st) st w

  -- The `switch` of `executeStep`.
  unfoldable pub step_as : OpType → Step → SessionState → W → Outcome × W
  step_as launch s st w = (record { result = bare launch ok none; err = none; state = st }, w)
  step_as session_create s st w =
      perform session_create (record { method = post; path = codes "/api/session"; body = no_body })
        (take_session st) st w
  step_as navigate s st w = fetch navigate (codes "/") st w
  step_as dom_ready s st w = fetch dom_ready (codes "/") st w
  step_as products s st w = fetch products (codes "/api/products") st w
  step_as product s st w = fetch product (codes "/api/products/" ++ s.product_id) st w
  step_as cart_add s st w =
      if is_empty st.session_id
      then (refuse cart_add no_session st, w)
      else perform cart_add
          (record {
            method = post;
            path = codes "/api/cart";
            body = cart_body st.session_id s.product_id s.qty;
          })
          (keep st) st w
  step_as cart_get s st w =
      if is_empty st.session_id
      then (refuse cart_get no_session st, w)
      else fetch cart_get (codes "/api/cart?session_id=" ++ st.session_id) st w
  step_as checkout s st w =
      if is_empty st.session_id
      then (refuse checkout no_session st, w)
      else perform checkout
          (record {
            method = post;
            path = codes "/api/checkout";
            body = checkout_body st.session_id;
          })
          (take_order st) st w
  step_as order_get s st w =
      if is_empty st.order_id
      then (refuse order_get no_order st, w)
      else fetch order_get (codes "/api/order/" ++ st.order_id) st w
  step_as (other op) s st w = (refuse (other op) (unknown_op (c.quote op)) st, w)
  step_as browser_op s st w =
      (record { result = bare browser_op skipped none; err = none; state = st }, w)

  unfoldable pub execute_step : Step → SessionState → W → Outcome × W
  unfolding step_as
  execute_step s st w = step_as s.op s st w

  -- `Execute`, whose loop is `run_steps`.
  unfoldable pub execute : Workflow → W → List Result × Option GoError × W
  unfolding run_steps
  execute wf w = run_steps execute_step wf.steps (record { session_id = []; order_id = [] }) w
