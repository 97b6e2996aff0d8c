-- ===== src/Workflow/Steps.antt =====
-- The loop that every executor of internal/workflow, internal/browser and internal/hybrid runs over the
-- steps of a workflow, and what a step leaves.
pub mod Verdicts
pub mod Success
use browser_analysis.Prelude.{ℕ, List, [], ◌∷◌, Option, none, some}
use browser_analysis.Workflow.{OpType, Step, GoError, Result, SessionState, Status, error}

-- What a step leaves: its result, and the error that the function returns beside it.
pub record Outcome : Type 0 where
  pub result : Result
  pub err : Option GoError
  pub state : SessionState

-- A result with no request behind it.
abbrev pub bare : OpType → Status → Option GoError → Result
bare op status failure = record {
  op = op;
  duration = 0;
  status = status;
  request = none;
  failure = failure;
}

abbrev pub refuse : OpType → GoError → SessionState → Outcome
refuse op e st = record { result = bare op error (some e); err = some e; state = st }

module _ {W : Type 0} (execute_step : Step → SessionState → W → Outcome × W) where
  -- The results in order, the error, and the world that is left.
  unfoldable pub run_steps : List Step → SessionState → W → List Result × Option GoError × W
  run_steps [] st w = ([], none, w)
  run_steps (s ∷ ss) st w =
      let (o, w') = execute_step s st w in
      let (rest, err, w'') = run_steps ss o.state w' in
      elim o.err [ some e ↦ (o.result ∷ [], some e, w') | none ↦ (o.result ∷ rest, err, w'') ]
