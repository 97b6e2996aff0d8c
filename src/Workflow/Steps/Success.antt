-- ===== src/Workflow/Steps/Success.antt =====
-- When the loop over a workflow's steps succeeds: identifiers are created before the steps that need
-- them.
use browser_analysis.Prelude.{
  ◌≡◌, refl, Bool, true, false, ◌&&◌, ◌||◌, List, [], ◌∷◌, none, arith, if◌then◌else◌,
}
use browser_analysis.Prelude.Text.{Text, is_empty}
use browser_analysis.Workflow.{OpType, Step, SessionState, session_create, checkout}
use browser_analysis.Workflow.Steps.{Outcome, run_steps}
use browser_analysis.Workflow.Steps.Verdicts.{run_steps_passed}

abbrev pub makes_session : OpType → Bool
makes_session session_create = true
makes_session _ = false

abbrev pub makes_order : OpType → Bool
makes_order checkout = true
makes_order _ = false

-- Each step finds the identifiers that it needs, `ready` saying which these are.
abbrev pub well_ordered : (OpType → Bool → Bool → Bool) → Bool → Bool → List Step → Bool
well_ordered ready session order [] = true
well_ordered ready session order (s ∷ ss) =
    ready s.op session order
    && well_ordered ready (session || makes_session s.op) (order || makes_order s.op) ss

-- If the flag is set, there is an identifier.
abbrev pub Has : Bool → Text → Type 0
Has b id = b ≡ true → is_empty id ≡ false

abbrev pub Succeeds : Bool → Bool → Outcome → Type 0
Succeeds session order o =
    (o.err ≡ none) × Has session o.state.session_id × Has order o.state.order_id

both : (a b : Bool) → (a && b) ≡ true → (a ≡ true) × (b ≡ true)
both a b h = ground arith

-- A step that is ready succeeds, and leaves the identifier that it makes.
abbrev pub Works :
    {W : Type 0} → (OpType → Bool → Bool → Bool) → (Step → SessionState → W → Outcome × W) → Type 0
Works {W} ready step =
    (s : Step) (st : SessionState) (w : W) (session order : Bool)
    → ready s.op session order ≡ true
    → Has session st.session_id
    → Has order st.order_id
    → Succeeds (session || makes_session s.op) (order || makes_order s.op) (step s st w).0

pub run_steps_success :
    {W : Type 0} (step : Step → SessionState → W → Outcome × W)
    (ready : OpType → Bool → Bool → Bool)
    → Works ready step
    → (ss : List Step) (st : SessionState) (w : W) (session order : Bool)
    → well_ordered ready session order ss ≡ true
    → Has session st.session_id
    → Has order st.order_id
    → (run_steps step ss st w).1 ≡ none
unfolding run_steps
run_steps_success step ready works [] st w session order r hs ho = refl
run_steps_success step ready works (s ∷ ss) st w session order r hs ho =
    let (now, later) = both _ _ r in
    let (clean, hs', ho') = works s st w session order now hs ho in
    rw (run_steps_passed step s ss st w clean) (
      run_steps_success step ready works ss (step s st w).0.state (step s st w).1
        (session || makes_session s.op) (order || makes_order s.op) later hs' ho')

-- A guard that is not met.
pub guard_success :
    {W : Type 0} (session order : Bool) (b : Bool) (x y : Outcome × W)
    → b ≡ false
    → Succeeds session order y.0
    → Succeeds session order (if b then x else y).0
guard_success session order true x y h k = cc
guard_success session order false x y h k = k
