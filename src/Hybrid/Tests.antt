-- ===== src/Hybrid/Tests.antt =====
-- A run of internal/hybrid/executor.go with a page executor that fails at IndexedDB.
use browser_analysis.Prelude.{ℕ, ◌+◌, ◌≡◌, refl, inr, [], ◌∷◌, none}
use browser_analysis.Prelude.Text.{codes}
use browser_analysis.Workflow.{
  session_create, cart_add, checkout, order_get, Step, Workflow, SessionState, ok, launch, navigate,
  local_storage, indexed_db, plain_error,
}
use browser_analysis.Workflow.Http.{Client, answered, Outcome, bare, refuse, execute_step}
use browser_analysis.Prelude.{some}
use browser_analysis.Prelude.Double.{nat_double}
use browser_analysis.Metrics.Recorder.{new_recorder}
use browser_analysis.Contexts.{Pool, new_pool_with_browser}
use browser_analysis.Hybrid.{policy_workflow, browser_only, route, execute}
use browser_analysis.Workflow.Http.Success.{IsServing}
use browser_analysis.Browser.Page.{Page, gave_text, execute_step as execute_page_step}
use browser_analysis.Browser.Page.Success.{IsResponsive}
use browser_analysis.Hybrid.Success.{hybrid_success}

abbrev healthy : Client ℕ
healthy = record {
  send = λ q w. (answered 200 (codes "{}") 5, w + 1);
  decode_session = λ raw. inr (codes "s1");
  decode_order = λ raw. inr (codes "o1");
  quote = λ t. t;
}

abbrev page : Step → SessionState → ℕ → Outcome × ℕ
page s st w = elim s.op [
  | indexed_db ↦ (refuse indexed_db (plain_error (codes "no database")) st, w)
  | op ↦ (record { result = bare op ok none; err = none; state = st }, w)
]

-- A session is made and a product ordered and looked up over HTTP, with a page step between.
abbrev shopping : Workflow
shopping = record {
  name = codes "shopping";
  steps =
      record { op = session_create; product_id = []; qty = 0 }
      ∷ record { op = local_storage; product_id = []; qty = 0 }
      ∷ record { op = cart_add; product_id = codes "p1"; qty = 2 }
      ∷ record { op = checkout; product_id = []; qty = 0 }
      ∷ record { op = order_get; product_id = []; qty = 0 }
      ∷ [];
}

abbrev flow : Workflow
flow = record {
  name = codes "flow";
  steps =
      record { op = launch; product_id = []; qty = 0 }
      ∷ record { op = navigate; product_id = codes "/home"; qty = 0 }
      ∷ record { op = indexed_db; product_id = []; qty = 0 }
      ∷ record { op = local_storage; product_id = []; qty = 0 }
      ∷ [];
}

flow_escalates : (execute healthy page policy_workflow flow 0).escalations ≡ 1
unfolding execute route execute_step browser_only
flow_escalates = refl

-- The same flow on a pool with one idle context.
abbrev pool : Pool ℕ
pool = (new_pool_with_browser 0 (some (1, 5) ∷ []) new_recorder).0

-- A page that always answers, under the same flow.
abbrev quick : Page ℕ
quick = record {
  act = λ a w. (gave_text (codes "ok"), w + 5);
  clock = λ w. w;
  decode_session = λ raw. inr (codes "s1");
  decode_order = λ raw. inr (codes "o1");
  quote = λ t. t;
}

quick-IsResponsive : IsResponsive quick (codes "http://h")
quick-IsResponsive = record {
  answers = λ a w. (codes "ok", refl);
  sessions = λ w raw e. (codes "s1", refl, refl);
  orders = λ session w raw e. (codes "o1", refl, refl);
}

healthy-IsServing : IsServing healthy
healthy-IsServing = record {
  answers = λ q w. (200, codes "{}", 5, refl, refl);
  sessions = λ w status took raw e. (codes "s1", refl, refl);
  orders = λ session w status took raw e. (codes "o1", refl, refl);
}

hybrid_success_example :
    (execute healthy (execute_page_step quick (codes "http://h")) policy_workflow shopping 0).err
    ≡ none
hybrid_success_example =
    hybrid_success healthy quick (codes "http://h") policy_workflow healthy-IsServing
      quick-IsResponsive shopping 0 refl
