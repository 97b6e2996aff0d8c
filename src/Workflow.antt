-- ===== src/Workflow.antt =====
-- internal/workflow: workflow.go, workflows.go, errors.go and state.go.
pub mod Steps
pub mod Recording
pub mod Http
mod Tests
use browser_analysis.Prelude.{
  ℕ, Bool, true, false, ◌&&◌, ◌||◌, List, [], ◌∷◌, Option, none, some, if◌then◌else◌, ◌≡◌, refl,
}
use browser_analysis.Prelude.Text.{Text, codes, contains, eq_text}

-- `OpType` is a string; `other` is any that the constants do not name.
pub data OpType : Type 0 where
  launch navigate dom_ready session_create products product cart_add cart_get checkout : OpType
  order_get local_storage indexed_db execute_js ws_connect : OpType
  other : Text → OpType

pub record Step : Type 0 where
  pub op : OpType
  pub product_id : Text
  pub qty : ℕ

pub record Workflow : Type 0 where
  pub name : Text
  pub steps : List Step

-- An `error`: its message, and what `errors.Is` and `errors.As` find in its chain.
pub record GoError : Type 0 where
  pub message : Text
  pub is_deadline : Bool  -- errors.Is(err, contextDeadline)
  pub is_cancelled : Bool  -- errors.Is(err, contextCancelled)
  pub is_net : Bool  -- errors.As(err, &netErr) for a net.Error

-- `fmt.Errorf` or `errors.New` with no wrapped error.
abbrev pub plain_error : Text → GoError
plain_error m = record { message = m; is_deadline = false; is_cancelled = false; is_net = false }

unfoldable pub deadline_error : GoError
deadline_error = record (plain_error (codes "deadline exceeded")) { is_deadline = true }

unfoldable pub cancelled_error : GoError
cancelled_error = record (plain_error (codes "cancelled")) { is_cancelled = true }

pub record RequestInfo : Type 0 where
  pub method : Text
  pub path : Text
  pub status : ℕ
  pub duration : ℕ
  pub err_string : Text

pub data Status : Type 0 where
  ok skipped error : Status

-- Durations are in nanoseconds.
pub record Result : Type 0 where
  pub op : OpType
  pub duration : ℕ
  pub status : Status
  pub request : Option RequestInfo
  pub failure : Option GoError

pub record SessionState : Type 0 where
  pub session_id : Text
  pub order_id : Text

pub data ErrorType : Type 0 where
  application_error browser_error timeout resource_exhaustion : ErrorType
  cancellation infrastructure_error : ErrorType

-- The names that the failure counters use.
abbrev pub error_name : ErrorType → Text
error_name application_error = codes "application_error"
error_name browser_error = codes "browser_error"
error_name timeout = codes "timeout"
error_name resource_exhaustion = codes "resource_exhaustion"
error_name cancellation = codes "cancellation"
error_name infrastructure_error = codes "infrastructure_error"

-- `ClassifyError` of an error that is not nil.
unfoldable pub classify_error : GoError → ErrorType
classify_error e =
    if e.is_deadline || contains e.message (codes "deadline exceeded")
    then timeout
    else if e.is_cancelled
    then cancellation
    else if e.is_net
    then infrastructure_error
    else if contains e.message (codes "connection refused")
        || contains e.message (codes "no such host")
        || contains e.message (codes "EOF")
    then infrastructure_error
    else application_error

abbrev plain_step : OpType → Step
plain_step op = record { op = op; product_id = []; qty = 0 }

abbrev navigate_to : Text → Step
navigate_to path = record { op = navigate; product_id = path; qty = 0 }

unfoldable pub default_workflows : List Workflow
default_workflows =
    record {
      name = codes "minimal";
      steps = plain_step launch ∷ navigate_to (codes "/home") ∷ plain_step dom_ready ∷ [];
    }
    ∷ record {
      name = codes "SPA";
      steps =
          plain_step launch
          ∷ navigate_to (codes "/home")
          ∷ navigate_to (codes "/product/p1")
          ∷ navigate_to (codes "/cart")
          ∷ [];
    }
    ∷ record {
      name = codes "stateful";
      steps =
          plain_step launch
          ∷ plain_step session_create
          ∷ navigate_to (codes "/home")
          ∷ plain_step local_storage
          ∷ plain_step indexed_db
          ∷ plain_step products
          ∷ [];
    }
    ∷ record {
      name = codes "complex";
      steps =
          plain_step launch
          ∷ plain_step session_create
          ∷ navigate_to (codes "/home")
          ∷ plain_step execute_js
          ∷ plain_step local_storage
          ∷ plain_step indexed_db
          ∷ plain_step products
          ∷ plain_step ws_connect
          ∷ record { op = cart_add; product_id = codes "p1"; qty = 1 }
          ∷ plain_step checkout
          ∷ plain_step order_get
          ∷ [];
    }
    ∷ []

pub find_workflow : Text → List Workflow → Option Workflow
find_workflow name [] = none
find_workflow name (w ∷ ws) = if eq_text w.name name then some w else find_workflow name ws

-- `Get`.
unfoldable pub get : Text → Option Workflow
unfolding find_workflow default_workflows
get name = find_workflow name default_workflows
