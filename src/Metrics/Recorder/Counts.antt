-- ===== src/Metrics/Recorder/Counts.antt =====
-- The counters of internal/metrics/metrics.go count the calls of their methods.
use browser_analysis.Prelude.{
  ℕ, suc, ◌+◌, ◌≡◌, refl, ap, Bool, true, false, List, [], ◌∷◌, ◌++◌, arith, length, count_if,
  length-append, All, if◌then◌else◌,
}
use browser_analysis.Prelude.Text.{Text, eq_text, eq_text_iff}
use browser_analysis.Prelude.Int.{pos, pos_part, neg_part, +ℤ_parts, -ℤ_parts}
use browser_analysis.Prelude.Double.{Double}
use browser_analysis.Metrics.Lifecycle.{EventType}
use browser_analysis.Metrics.Recorder.{
  Recorder, snapshot, new_recorder, seconds, bump_lifecycle, count_failure, failure_count,
}
use browser_analysis.Metrics.Recorder.Boundary.{
  Call, failure, created, active, complete, failed, cancelled, request, lifecycle_event, resets,
  active_is, step, run,
}

-- Which call it is.
abbrev pub is_created : Call → Bool
is_created created = true
is_created _ = false

abbrev pub is_complete : Call → Bool
is_complete complete = true
is_complete _ = false

abbrev pub is_failed : Call → Bool
is_failed failed = true
is_failed _ = false

abbrev pub is_active : Call → Bool
is_active active = true
is_active _ = false

abbrev pub is_cancelled : Call → Bool
is_cancelled cancelled = true
is_cancelled _ = false

abbrev pub is_request : Bool → Call → Bool
is_request true (request t true) = true
is_request false (request t false) = true
is_request _ _ = false

-- Neither clears the counters nor sets one outright.
abbrev pub is_counting : Call → Bool
is_counting resets = false
is_counting (active_is n) = false
is_counting _ = true

abbrev pub AllCounting : List Call → Type 0
AllCounting cs = All (λ c. is_counting c ≡ true) cs

-- What `cs` adds to the counters.
record Counted {F : Type 0} (r : Recorder F) (cs : List Call) (s : Recorder F) : Type 0 where
  created_counted : s.tasks_created ≡ r.tasks_created + count_if is_created cs
  complete_counted : s.tasks_complete ≡ r.tasks_complete + count_if is_complete cs
  failed_counted : s.tasks_failed ≡ r.tasks_failed + count_if is_failed cs
  cancelled_counted : s.tasks_canceled ≡ r.tasks_canceled + count_if is_cancelled cs
  ok_counted : s.requests_ok ≡ r.requests_ok + count_if (is_request true) cs
  bad_counted : s.requests_failed ≡ r.requests_failed + count_if (is_request false) cs
  requests_counted :
      length s.request_latencies + r.requests_ok + r.requests_failed
      ≡ length r.request_latencies + s.requests_ok + s.requests_failed
  active_counted :
      pos_part s.tasks_active
        + neg_part r.tasks_active
        + count_if is_complete cs
        + count_if is_failed cs
      ≡ neg_part s.tasks_active + pos_part r.tasks_active + count_if is_active cs

module _ {F : Type 0} ⦃d : Double F⦄ where
  step-Counted : (c : Call) (r : Recorder F) → is_counting c ≡ true → Counted r (c ∷ []) (step c r)
  unfolding step
  step-Counted (request t true) r h =
      omega (arith, length-append r.request_latencies (seconds t ∷ []))
  step-Counted (request t false) r h =
      omega (arith, length-append r.request_latencies (seconds t ∷ []))
  step-Counted active r h = omega (arith, +ℤ_parts r.tasks_active (pos 1))
  step-Counted complete r h = omega (arith, -ℤ_parts r.tasks_active (pos 1))
  step-Counted failed r h = omega (arith, -ℤ_parts r.tasks_active (pos 1))
  step-Counted resets r h = cc
  step-Counted (active_is n) r h = cc
  step-Counted (lifecycle_event ev) r h = ground arith
  step-Counted _ r h = omega arith

  run-Counted : (cs : List Call) (r : Recorder F) → AllCounting cs → Counted r cs (run cs r)
  unfolding run
  run-Counted [] r h = omega arith
  run-Counted (c ∷ cs) r (counting, rest) =
      ground (arith, step-Counted c r counting, run-Counted cs (step c r) rest)

module _ (F : Type 0) ⦃d : Double F⦄ where
  -- The counters of a new recorder, after calls none of which resets it or sets the active count:
  -- each counts the calls of its method; every request was counted once, as good or as failed; and
  -- the active count is the number of starts less the number of completions and failures.
  pub snapshot_counts :
      (cs : List Call)
      → AllCounting cs
      → let r = run cs (new_recorder {F = F}) in
        let s = snapshot r in
        (s.created ≡ count_if is_created cs)
        × (s.complete ≡ count_if is_complete cs)
        × (s.failed ≡ count_if is_failed cs)
        × (s.canceled ≡ count_if is_cancelled cs)
        × (s.requests_ok ≡ count_if (is_request true) cs)
        × (s.requests_failed ≡ count_if (is_request false) cs)
        × (length r.request_latencies ≡ s.requests_ok + s.requests_failed)
        × (pos_part s.active + count_if is_complete cs + count_if is_failed cs
            ≡ neg_part s.active + count_if is_active cs)
  unfolding snapshot new_recorder
  snapshot_counts cs h = omega (arith, run-Counted {F = F} cs (new_recorder {F = F}) h)

-- A failure of this reason.
abbrev pub is_failure_of : Text → Call → Bool
is_failure_of reason (failure k) = eq_text k reason
is_failure_of reason _ = false

failure_count-count_failure :
    (k reason : Text) (m : List (Text × ℕ))
    → failure_count reason (count_failure k m)
      ≡ (if eq_text k reason then suc (failure_count reason m) else failure_count reason m)
unfolding failure_count count_failure
failure_count-count_failure k reason [] = refl
failure_count-count_failure k reason ((j, n) ∷ m) = ground (
  arith,
  eq_text_iff j k,
  eq_text_iff j reason,
  eq_text_iff k reason,
  failure_count-count_failure k reason m,
)

abbrev pub is_reset : Call → Bool
is_reset resets = true
is_reset _ = false

module _ {F : Type 0} ⦃d : Double F⦄ where
  bump-failures : (t : EventType) (r : Recorder F) → (bump_lifecycle t r).failures ≡ r.failures
  unfolding bump_lifecycle
  bump-failures t r = ground arith

  failures-step :
      (reason : Text) (c : Call) (r : Recorder F)
      → is_reset c ≡ false
      → failure_count reason (step c r).failures
        ≡ count_if (is_failure_of reason) (c ∷ []) + failure_count reason r.failures
  unfolding step
  failures-step reason (failure k) r h =
      ground (arith, failure_count-count_failure k reason r.failures)
  failures-step reason (request t true) r h = omega arith
  failures-step reason (request t false) r h = omega arith
  failures-step reason resets r h = cc
  failures-step reason (lifecycle_event ev) r h =
      let logged = record r { lifecycle = r.lifecycle ++ ev ∷ [] } in
      omega (arith, ap (failure_count reason) (bump-failures ev.event_type logged))
  failures-step reason _ r h = omega arith

  -- While nothing resets the recorder, the count under each reason grows by one for each failure
  -- recorded with that reason, and for no other call.
  pub failures-run :
      (reason : Text) (cs : List Call) (r : Recorder F)
      → All (λ c. is_reset c ≡ false) cs
      → failure_count reason (run cs r).failures
        ≡ count_if (is_failure_of reason) cs + failure_count reason r.failures
  unfolding run
  failures-run reason [] r h = omega arith
  failures-run reason (c ∷ cs) r (kept, rest) =
      ground (arith, failures-step reason c r kept, failures-run reason cs (step c r) rest)
