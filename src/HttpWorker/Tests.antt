-- ===== src/HttpWorker/Tests.antt =====
-- A task whose second request is refused.
use browser_analysis.Prelude.{ℕ, ◌+◌, ◌*◌, [], ◌∷◌, inr}
use browser_analysis.Prelude.Text.{codes}
use browser_analysis.Prelude.Double.{nat_double}
use browser_analysis.Workflow.{Workflow, products, product}
use browser_analysis.Workflow.Http.{Client, answered}

-- The first request is answered, the next ones are not found.
abbrev client : Client ℕ
client = record {
  send = λ q w. (answered (200 + 204 * w) (codes "x") 5, w + 1);
  decode_session = λ raw. inr raw;
  decode_order = λ raw. inr raw;
  quote = λ t. t;
}

abbrev browse : Workflow
browse = record {
  name = codes "browse";
  steps =
      record { op = products; product_id = []; qty = 0 }
      ∷ record { op = product; product_id = codes "p1"; qty = 0 }
      ∷ [];
}
