-- ===== src/Hybrid/Escalation.antt =====
-- What internal/hybrid/executor.go counts as an escalation.
use browser_analysis.Prelude.{
  ℕ, suc, ◌+◌, ◌≡◌, refl, ap, ◌⊎◌, inl, inr, List, [], ◌∷◌, ◌++◌, none, some, arith, length,
  count_if, if◌then◌else◌, Option-cases,
}
use browser_analysis.Workflow.{Step, Workflow, GoError, SessionState}
use browser_analysis.Workflow.Http.{Client, Outcome}
use browser_analysis.Hybrid.{EscalationPolicy, browser_only, Run, route, execute_steps, execute}

-- The steps that the policy sends to the browser.
abbrev pub browser_steps : EscalationPolicy → List Step → ℕ
browser_steps p ss = count_if (λ s. browser_only p s.op) ss

-- The steps that were completed, the rest of the workflow, and how the run has ended: with no rest, or
-- with an error at the rest's first step, whose result is then the last one.
pub record IsEscalated {W : Type 0} (p : EscalationPolicy) (n : ℕ) (ss : List Step) (r : Run W)
    : Type 0 where
  pub done : List Step
  pub rest : List Step
  pub split : ss ≡ done ++ rest
  pub counted : r.escalations ≡ n + browser_steps p done
  pub ended :
      ((r.err ≡ none) × (rest ≡ []) × (length r.results ≡ length done))
      ⊎ ((e : GoError) × (r.err ≡ some e) × (length r.results ≡ suc (length done)))

module _ {W : Type 0} (http : Client W) (page_step : Step → SessionState → W → Outcome × W) where
  pub steps_failed :
      (p : EscalationPolicy) (n : ℕ) (s : Step) (ss : List Step) (st : SessionState) (w : W)
      (e : GoError)
      → (route http page_step p s st w).0.err ≡ some e
      → let (o, w') = route http page_step p s st w in
        execute_steps http page_step p n (s ∷ ss) st w
        ≡ record { results = o.result ∷ []; escalations = n; err = some e; world = w' }
  unfolding execute_steps
  steps_failed p n s ss st w e h = ground arith

  pub steps_passed :
      (p : EscalationPolicy) (n : ℕ) (s : Step) (ss : List Step) (st : SessionState) (w : W)
      → (route http page_step p s st w).0.err ≡ none
      → let (o, w') = route http page_step p s st w in
        let r =
          execute_steps http page_step p (if browser_only p s.op then suc n else n) ss o.state w' in
        execute_steps http page_step p n (s ∷ ss) st w ≡ record r { results = o.result ∷ r.results }
  unfolding execute_steps
  steps_passed p n s ss st w h = ground arith

  steps-IsEscalated :
      (p : EscalationPolicy) (n : ℕ) (ss : List Step) (st : SessionState) (w : W)
      → IsEscalated p n ss (execute_steps http page_step p n ss st w)
  unfolding execute_steps
  steps-IsEscalated p n [] st w = record {
    done = [];
    rest = [];
    split = refl;
    counted = omega arith;
    ended = inl (refl, refl, refl);
  }
  steps-IsEscalated p n (s ∷ ss) st w =
      let (o, w') = route http page_step p s st w in
      elim (Option-cases (route http page_step p s st w).0.err) [
        | inr (e, failed) ↦ rw (steps_failed p n s ss st w e failed) (record {
          done = [];
          rest = s ∷ ss;
          split = refl;
          counted = omega arith;
          ended = inr (e, refl, refl);
        })
        | inl passed ↦
            let ih = steps-IsEscalated p (if browser_only p s.op then suc n else n) ss o.state w' in
            rw (steps_passed p n s ss st w passed) (record {
              done = s ∷ ih.done;
              rest = ih.rest;
              split = ap (◌∷◌ s) ih.split;
              counted = ground (arith, ih.counted);
              ended = ground (arith, ih.ended);
            })
      ]

  -- `Execute` counts as escalations exactly the steps that the policy sends to the browser among the
  -- completed ones. With no error these are all steps, one result each; with an error the failing
  -- step, which is not counted, has the last result.
  pub execute-IsEscalated :
      (p : EscalationPolicy) (wf : Workflow) (w : W)
      → IsEscalated p 0 wf.steps (execute http page_step p wf w)
  unfolding execute
  execute-IsEscalated p wf w = steps-IsEscalated p 0 wf.steps _ w
