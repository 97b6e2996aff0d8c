-- ===== src/Hybrid.antt =====
-- internal/hybrid/executor.go: workflow steps routed to the browser or to HTTP by a policy. The page
-- executor drives Playwright and is a parameter: `page_step` gives a step's outcome, as the HTTP
-- executor does.
pub mod Escalation
pub mod Success
pub mod Worker
mod Tests
use browser_analysis.Prelude.{
  ℕ, suc, Bool, true, false, List, [], ◌∷◌, Option, none, some, if◌then◌else◌,
}
use browser_analysis.Prelude.Text.{Text}
use browser_analysis.Workflow.{
  OpType, Step, Workflow, GoError, Result, SessionState, navigate, dom_ready, local_storage,
  indexed_db, execute_js, ws_connect,
}
use browser_analysis.Workflow.Http.{Client, Outcome, execute_step}

-- `PolicyWorkflow`, and every other string.
pub data EscalationPolicy : Type 0 where
  policy_workflow : EscalationPolicy
  policy_other : Text → EscalationPolicy

runs_in_browser : OpType → Bool
runs_in_browser local_storage = true
runs_in_browser indexed_db = true
runs_in_browser execute_js = true
runs_in_browser ws_connect = true
runs_in_browser navigate = true
runs_in_browser dom_ready = true
runs_in_browser _ = false

-- `BrowserOnly`.
unfoldable pub browser_only : EscalationPolicy → OpType → Bool
unfolding runs_in_browser
browser_only policy_workflow op = runs_in_browser op
browser_only (policy_other name) op = false

-- What `Execute` returns, durations aside: the results, the escalations and the error; and the world.
pub record Run (W : Type 0) : Type 0 where
  pub results : List Result
  pub escalations : ℕ
  pub err : Option GoError
  pub world : W

module _ {W : Type 0} (http : Client W) (page_step : Step → SessionState → W → Outcome × W) where
  -- The branch in the loop's body.
  unfoldable pub route : EscalationPolicy → Step → SessionState → W → Outcome × W
  route p s st w = if browser_only p s.op then page_step s st w else execute_step http s st w

  -- The loop, `n` being the escalations so far.
  pub execute_steps : EscalationPolicy → ℕ → List Step → SessionState → W → Run W
  execute_steps p n [] st w = record { results = []; escalations = n; err = none; world = w }
  execute_steps p n (s ∷ ss) st w =
      let (o, w') = route p s st w in
      let counted = if browser_only p s.op then suc n else n in
      let rest = execute_steps p counted ss o.state w' in
      elim o.err [
        | some e ↦ record { results = o.result ∷ []; escalations = n; err = some e; world = w' }
        | none ↦ record rest { results = o.result ∷ rest.results }
      ]

  unfoldable pub execute : EscalationPolicy → Workflow → W → Run W
  unfolding execute_steps
  execute p wf w = execute_steps p 0 wf.steps (record { session_id = []; order_id = [] }) w
