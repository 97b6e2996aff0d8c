-- ===== src/Workflow/Steps/Verdicts.antt =====
-- What the results of the steps' loop say.
use browser_analysis.Prelude.{
  ◌≡◌, refl, ◌≢◌, ◌⊎◌, inl, inr, Bool, true, false, if◌then◌else◌, List, [], ◌∷◌, Option, none,
  some, arith,
}
use browser_analysis.Workflow.{OpType, Step, GoError, Result, SessionState, error}
use browser_analysis.Workflow.Steps.{Outcome, refuse, run_steps}

-- What one step's result and error say together: no error and a status other than "error", or the
-- error that the result holds too, and status "error".
abbrev pub Verdict : OpType → Result → Option GoError → Type 0
Verdict op r err =
    (r.op ≡ op)
    × (((r.status ≢ error) × (r.failure ≡ none) × (err ≡ none))
        ⊎ ((r.status ≡ error) × (e : GoError) × (r.failure ≡ some e) × (err ≡ some e)))

abbrev pub OutcomeVerdict : OpType → Outcome → Type 0
OutcomeVerdict op o = Verdict op o.result o.err

pub refuse-Verdict :
    (op : OpType) (e : GoError) (st : SessionState) → OutcomeVerdict op (refuse op e st)
refuse-Verdict op e st = (refl, inr (refl, e, refl, refl))

pub if-Verdict :
    {W : Type 0} (op : OpType) (b : Bool) (x y : Outcome × W)
    → OutcomeVerdict op x.0
    → OutcomeVerdict op y.0
    → OutcomeVerdict op (if b then x else y).0
if-Verdict op true x y hx hy = hx
if-Verdict op false x y hx hy = hy

-- The results that a list of steps may leave: one for each step, in order and none of them an error;
-- or such results for the first steps, and at the next step the error that is returned.
pub data Runs : List Step → List Result → Option GoError → Type 0 where
  all_done : Runs [] [] none
  stopped :
      {s : Step} {ss : List Step} {r : Result} (e : GoError)
      → r.op ≡ s.op
      → r.status ≡ error
      → r.failure ≡ some e
      → Runs (s ∷ ss) (r ∷ []) (some e)
  went_on :
      {s : Step} {ss : List Step} {r : Result} {rs : List Result} {err : Option GoError}
      → r.op ≡ s.op
      → r.status ≢ error
      → r.failure ≡ none
      → Runs ss rs err
      → Runs (s ∷ ss) (r ∷ rs) err

module _ {W : Type 0} (step : Step → SessionState → W → Outcome × W) where
  pub run_steps_passed :
      (s : Step) (ss : List Step) (st : SessionState) (w : W)
      → (step s st w).0.err ≡ none
      → let (o, w') = step s st w in
        let (rest, err, last) = run_steps step ss o.state w' in
        run_steps step (s ∷ ss) st w ≡ (o.result ∷ rest, err, last)
  unfolding run_steps
  run_steps_passed s ss st w h = ground arith

  pub run_steps_failed :
      (s : Step) (ss : List Step) (st : SessionState) (w : W) (e : GoError)
      → (step s st w).0.err ≡ some e
      → let (o, w') = step s st w in run_steps step (s ∷ ss) st w ≡ (o.result ∷ [], some e, w')
  unfolding run_steps
  run_steps_failed s ss st w e h = ground arith

  -- If each step's result and error agree, the loop leaves the results of a run.
  pub run_steps-Runs :
      ((s : Step) (st : SessionState) (w : W) → OutcomeVerdict s.op (step s st w).0)
      → (ss : List Step) (st : SessionState) (w : W)
      → let t = run_steps step ss st w in Runs ss t.0 t.1
  unfolding run_steps
  run_steps-Runs verdict [] st w = all_done
  run_steps-Runs verdict (s ∷ ss) st w =
      let (o, w') = step s st w in
      let rest = run_steps-Runs verdict ss o.state w' in
      let (same, ended) = verdict s st w in
      elim ended [
        | inl (fine, clean, no_err) ↦
            rw (run_steps_passed s ss st w no_err) (went_on same fine clean rest)
        | inr (bad, e, held, given) ↦
            rw (run_steps_failed s ss st w e given) (stopped e same bad held)
      ]
