-- ===== src/Workflow/Tests.antt =====
-- Runs of the HTTP executor of internal/workflow against a target that always answers, and one that
-- is down. The world counts the requests.
use browser_analysis.Prelude.{ℕ, ◌+◌, ◌≡◌, refl, inr, [], ◌∷◌, some, map}
use browser_analysis.Prelude.Text.{codes}
use browser_analysis.Workflow.{
  Workflow, Result, ok, error, launch, navigate, plain_error, cart_add, classify_error, timeout,
  deadline_error,
}
use browser_analysis.Workflow.Http.{Client, answered, not_sent, no_session, execute_step, execute}
use browser_analysis.Workflow.Http.Results.{execute-Runs}
use browser_analysis.Workflow.Steps.Verdicts.{Runs}
use browser_analysis.Workflow.Http.Success.{IsServing}

abbrev healthy : Client ℕ
healthy = record {
  send = λ q w. (answered 200 (codes "{}") 5, w + 1);
  decode_session = λ raw. inr (codes "s1");
  decode_order = λ raw. inr (codes "o1");
  quote = λ t. t;
}

healthy-IsServing : IsServing healthy
healthy-IsServing = record {
  answers = λ q w. (200, codes "{}", 5, refl, refl);
  sessions = λ w status took raw e. (codes "s1", refl, refl);
  orders = λ session w status took raw e. (codes "o1", refl, refl);
}

abbrev down : Client ℕ
down = record healthy { send = λ q w. (not_sent (plain_error (codes "EOF")) 3, w + 1) }

abbrev shopping : Workflow
shopping = record {
  name = codes "shopping";
  steps =
      record { op = launch; product_id = []; qty = 0 }
      ∷ record { op = cart_add; product_id = codes "p1"; qty = 2 }
      ∷ [];
}

abbrev visit : Workflow
visit = record {
  name = codes "visit";
  steps =
      record { op = launch; product_id = []; qty = 0 }
      ∷ record { op = navigate; product_id = codes "/home"; qty = 0 }
      ∷ [];
}

-- With no session the cart step fails, and no request is sent.
shopping_runs :
    let (rs, err, w) = execute healthy shopping 0 in
    (map (λ (r : Result). r.status) rs ≡ ok ∷ error ∷ [])
    × (err ≡ some (plain_error (codes "no session")))
    × (w ≡ 0)
unfolding execute execute_step no_session
shopping_runs = (refl, refl, refl)

deadline_classified : classify_error deadline_error ≡ timeout
unfolding classify_error deadline_error
deadline_classified = refl

execute-Runs_example : Runs visit.steps (execute down visit 0).0 (execute down visit 0).1
execute-Runs_example = execute-Runs down visit 0
