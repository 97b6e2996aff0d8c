-- ===== src/Browser/Tests.antt =====
-- Runs of the page executor and of the worker of internal/browser in a page that always answers, and
-- in one whose context is done. The world is the clock.
use browser_analysis.Prelude.{ℕ, ◌+◌, ◌≡◌, refl, inr, true, [], ◌∷◌, none}
use browser_analysis.Prelude.Text.{codes}
use browser_analysis.Prelude.Double.{nat_double}
use browser_analysis.Metrics.Recorder.{new_recorder}
use browser_analysis.Workflow.{
  Workflow, launch, session_create, cart_add, checkout, order_get, deadline_error,
}
use browser_analysis.Browser.Page.{Page, gave_text, context_done, socket_url}
use browser_analysis.Browser.Page.Success.{IsResponsive}
use browser_analysis.Browser.Worker.{Manager, run_task}
use browser_analysis.Browser.Worker.Cleanup.{IsClean, run_task-IsClean}

abbrev quick : Page ℕ
quick = record {
  act = λ a w. (gave_text (codes "ok"), w + 5);
  clock = λ w. w;
  decode_session = λ raw. inr (codes "s1");
  decode_order = λ raw. inr (codes "o1");
  quote = λ t. t;
}

quick-IsResponsive : IsResponsive quick (codes "http://h")
quick-IsResponsive = record {
  answers = λ a w. (codes "ok", refl);
  sessions = λ w raw e. (codes "s1", refl, refl);
  orders = λ session w raw e. (codes "o1", refl, refl);
}

abbrev late : Page ℕ
late = record quick { act = λ a w. (context_done deadline_error, w + 30) }

abbrev purchase : Workflow
purchase = record {
  name = codes "purchase";
  steps =
      record { op = launch; product_id = []; qty = 0 }
      ∷ record { op = session_create; product_id = []; qty = 0 }
      ∷ record { op = cart_add; product_id = codes "p1"; qty = 2 }
      ∷ record { op = checkout; product_id = []; qty = 0 }
      ∷ record { op = order_get; product_id = []; qty = 0 }
      ∷ [];
}

socket_test : socket_url (codes "http://h:8080/") ≡ codes "ws://h:8080/ws/events"
unfolding socket_url
socket_test = refl

abbrev idle : Manager
idle = record { started = true; start_dur = 4; start_err = none }

run_task-IsClean_example :
    IsClean {F = ℕ} new_recorder
      (run_task late (codes "http://h") 1 7 none 20 none purchase 0 idle new_recorder)
run_task-IsClean_example =
    run_task-IsClean late (codes "http://h") 1 7 none 20 none purchase 0 idle new_recorder
