-- ===== src/Controller/Run/Release.antt =====
-- What `Run` of internal/controller/controller.go has in its hands from call to call.
use browser_analysis.Prelude.{
  ℕ, zero, suc, ◌≡◌, refl, ◌∙◌, Bool, true, false, not, ◌&&◌, List, [], ◌∷◌, ◌++◌, Option, none,
  some, arith, if◌then◌else◌, Bool-cases, Option-cases, ◌⊎◌, inl, inr,
}
use browser_analysis.Prelude.Text.{Text}
use browser_analysis.Prelude.Int.{pos, pos_part, ltb_ℤ}
use browser_analysis.Prelude.Double.{Double}
use browser_analysis.Config.{Config}
use browser_analysis.Controller.{worker_limit, per_worker}
use browser_analysis.Controller.Run.{
  Kind, http, headed, contexts, cdp, hybrid, unknown, kind_of, Call, new_pool, close_pool,
  take_baseline, set_workers, new_client, close_client, new_manager, close_manager, run_playwright,
  stop_playwright, make_http_worker, make_browser_worker, make_context_worker, make_cdp_worker,
  make_hybrid_worker, make_run_context, cancel_run, watch_signals, unwatch_signals, start_sampler,
  cancel_sampler, drain_sampler, start_monitor, cancel_monitor, drain_monitor, drive, write_run,
  write_system, write_processes, write_summary, write_resources, publish, Met, Ran, around,
  policy_or_default, make_workers, workers_of, around_driver, deferred, publish_all, persist,
  conclude, drive_run, go_on, with_workers, with_driver, run_kind, run, no_manager, no_playwright,
}
use browser_analysis.Controller.Run.Handover.{IsHandedOver, run-IsHandedOver}
use browser_analysis.Stats.{FloatMath}

-- A goroutine of the telemetry: not started, running, told to stop, or gone.
pub data Stage : Type 0 where
  off live stopping gone : Stage

-- What `Run` holds itself; what its workers own is not among it.
pub record Held : Type 0 where
  pub pool : Bool
  pub client : Bool
  pub manager : Bool
  pub playwright : Bool
  pub ready : Bool  -- the pool has its workers
  pub context : Bool  -- the run context is not cancelled
  pub signals : Bool
  pub sampler : Stage
  pub monitor : Stage

abbrev pub nothing : Held
nothing = record {
  pool = false;
  client = false;
  manager = false;
  playwright = false;
  ready = false;
  context = false;
  signals = false;
  sampler = off;
  monitor = off;
}

abbrev pub is_live : Stage → Bool
is_live live = true
is_live _ = false

abbrev pub is_gone : Stage → Bool
is_gone gone = true
is_gone _ = false

abbrev pub is_off : Stage → Bool
is_off off = true
is_off _ = false

-- A cancellation is told once and does no harm after that; before the start there is none.
abbrev pub cancel : Stage → Option Stage
cancel off = none
cancel live = some stopping
cancel stopping = some stopping
cancel gone = some gone

-- To wait for what nobody told to stop takes for ever.
abbrev pub drain : Stage → Option Stage
drain stopping = some gone
drain _ = none

abbrev pub when : Bool → Held → Option Held
when b h = if b then some h else none

abbrev pub with_sampler : Option Stage → Held → Option Held
with_sampler none h = none
with_sampler (some s) h = some (record h { sampler = s })

abbrev pub with_monitor : Option Stage → Held → Option Held
with_monitor none h = none
with_monitor (some s) h = some (record h { monitor = s })

-- A file is written when neither goroutine is left that could still add to it.
abbrev pub is_quiet : Held → Bool
is_quiet h = is_gone h.sampler && is_gone h.monitor

-- The rules: `none` if a call is made where it must not be. What is started was not, and what is
-- stopped was; each kind of worker needs its means; a pool that is driven has its workers, under a
-- context, with signals watched and both goroutines at work; a pool is closed when its run is over.
abbrev pub after : Call → Held → Option Held
after new_pool h = when (not h.pool) (record h { pool = true })
after close_pool h = when (h.pool && not h.context) (record h { pool = false; ready = false })
after take_baseline h = when (not h.manager && not h.playwright) h
after set_workers h = when h.pool (record h { ready = true })
after new_client h = when (not h.client) (record h { client = true })
after close_client h = when h.client (record h { client = false })
after new_manager h = when (not h.manager) (record h { manager = true })
after close_manager h = when h.manager (record h { manager = false })
after run_playwright h = when (not h.playwright) (record h { playwright = true })
after stop_playwright h = when h.playwright (record h { playwright = false })
after (make_http_worker i) h = when (h.pool && h.client) h
after (make_browser_worker i) h = when (h.pool && h.manager) h
after (make_context_worker i n) h = when (h.pool && h.manager) h
after (make_cdp_worker i n) h = when (h.pool && h.playwright) h
after (make_hybrid_worker p i n) h = when (h.pool && (h.client && h.manager)) h
after make_run_context h = when (not h.context) (record h { context = true })
after cancel_run h = when h.context (record h { context = false })
after watch_signals h = when (not h.signals) (record h { signals = true })
after unwatch_signals h = when h.signals (record h { signals = false })
after start_sampler h = when (is_off h.sampler && h.context) (record h { sampler = live })
after cancel_sampler h = with_sampler (cancel h.sampler) h
after drain_sampler h = with_sampler (drain h.sampler) h
after start_monitor h = when (is_off h.monitor && h.context) (record h { monitor = live })
after cancel_monitor h = with_monitor (cancel h.monitor) h
after drain_monitor h = with_monitor (drain h.monitor) h
after drive h =
    when (h.ready && (h.context && (h.signals && (is_live h.sampler && is_live h.monitor)))) h
after write_run h = when (is_quiet h) h
after write_system h = when (is_quiet h) h
after write_processes h = when (is_quiet h) h
after write_summary h = when (is_quiet h) h
after write_resources h = when (is_quiet h) h
after publish h = when (is_quiet h) h

abbrev pub after_all : List Call → Held → Option Held
after_all [] h = some h
after_all (c ∷ cs) h = elim (after c h) [ none ↦ none | some h' ↦ after_all cs h' ]

after_all-append :
    (xs ys : List Call) (h h' : Held)
    → after_all xs h ≡ some h'
    → after_all (xs ++ ys) h ≡ after_all ys h'
after_all-append [] ys h h' e = ground arith
after_all-append (x ∷ xs) ys h h' e = elim (Option-cases (after x h)) [
  | inl refused ↦ absurd (ground arith)
  | inr (m, passed) ↦ ground (arith, after_all-append xs ys m h')
]

around_lem :
    {F E : Type 0} (before after : List Call) (r : Ran F E) (h h1 h2 h3 : Held)
    → after_all before h ≡ some h1
    → after_all r.calls h1 ≡ some h2
    → after_all after h2 ≡ some h3
    → after_all (around before r after).calls h ≡ some h3
around_lem before after r h h1 h2 h3 a b c =
    after_all-append before (r.calls ++ after) h h1 a ∙ after_all-append r.calls after h1 h2 b ∙ c

-- Before the driver starts, and after the telemetry has ended. The client, the manager and Playwright
-- are as they are.
abbrev set_up : Held → Held
set_up h = record h {
  pool = true;
  ready = false;
  context = false;
  signals = false;
  sampler = off;
  monitor = off;
}

abbrev torn_down : Held → Held
torn_down h = record h {
  pool = true;
  ready = true;
  context = false;
  signals = false;
  sampler = gone;
  monitor = gone;
}

abbrev driven : Held → Held
driven h = record h {
  pool = true;
  ready = true;
  context = true;
  signals = true;
  sampler = gone;
  monitor = gone;
}

-- One of the three ends of a part: it never drove, or it drove and all is over.
abbrev Ends : {F E : Type 0} → Ran F E → Held → Type 0
Ends r h =
    (after_all r.calls (set_up h) ≡ some (set_up h))
    ⊎ (after_all r.calls (set_up h) ≡ some (torn_down h))

around-Ends :
    {F E : Type 0} (before after : List Call) (r : Ran F E) (h h' : Held)
    → after_all before (set_up h) ≡ some (set_up h')
    → after_all after (set_up h') ≡ some (set_up h)
    → after_all after (torn_down h') ≡ some (torn_down h)
    → Ends r h'
    → Ends (around before r after) h
around-Ends before after r h h' a b c (inl e) =
    inl (around_lem before after r (set_up h) (set_up h') (set_up h') (set_up h) a e b)
around-Ends before after r h h' a b c (inr e) =
    inr (around_lem before after r (set_up h) (set_up h') (torn_down h') (torn_down h) a e c)

make_workers_lem :
    {E : Type 0} (make : ℕ → Call) (err : ℕ → Option E) (k i : ℕ) (h : Held)
    → ((j : ℕ) → after (make j) h ≡ some h)
    → after_all (make_workers make err k i).0 h ≡ some h
unfolding make_workers
make_workers_lem make err zero i h ok = refl
make_workers_lem make err (suc k) i h ok = elim (Option-cases (err i)) [
  | inl fine ↦ ground (arith, ok i, make_workers_lem make err k (suc i) h ok)
  | inr (e, stopped) ↦ ground (arith, ok i)
]

module _ {F E : Type 0} ⦃d : Double F⦄ (fm : FloatMath F) (eq_zero : F → Bool) (measured : F)
    (cfg : Config) (workflow : Text) (exporting : Bool) (met : Met F E) where
  conclude_lem :
      (h : Held)
      → after_all (conclude fm eq_zero measured cfg workflow exporting met).calls (driven h)
        ≡ some (driven h)
  unfolding conclude persist publish_all
  conclude_lem h = ground arith

  drive_run_lem :
      (h : Held)
      → after_all (drive_run fm eq_zero measured cfg workflow exporting met).calls (set_up h)
        ≡ some (torn_down h)
  unfolding drive_run
  drive_run_lem h =
      around_lem around_driver deferred (conclude fm eq_zero measured cfg workflow exporting met)
        (set_up h) (driven h) (driven h) (torn_down h) refl (conclude_lem h) refl

  go_on-Ends :
      (made : List Call × Option (ℕ × E)) (h : Held)
      → after_all made.0 (set_up h) ≡ some (set_up h)
      → Ends (go_on fm eq_zero measured cfg workflow exporting met made) h
  unfolding go_on
  go_on-Ends (made, some (i, e)) h ok = inl ok
  go_on-Ends (made, none) h ok = inr (
      around_lem made [] (drive_run fm eq_zero measured cfg workflow exporting met) (set_up h)
        (set_up h) (torn_down h) (torn_down h) ok (drive_run_lem h) refl)

  with_workers-Ends :
      (k : Kind) (h : Held)
      → after_all (workers_of k cfg met.worker_err).0 (set_up h) ≡ some (set_up h)
      → Ends (with_workers fm eq_zero measured k cfg workflow exporting met) h
  unfolding with_workers
  with_workers-Ends k h ok = go_on-Ends (workers_of k cfg met.worker_err) h ok

  -- The manager, and Playwright.
  managed-Ends :
      (err : Option E) (r : Ran F E) (h : Held)
      → h.manager ≡ false
      → Ends r (record h { manager = true })
      → Ends (with_driver fm eq_zero measured new_manager close_manager no_manager err r) h
  unfolding with_driver
  managed-Ends (some e) r h free k = inl refl
  managed-Ends none r h free k =
      around-Ends (new_manager ∷ []) (close_manager ∷ []) r h (record h { manager = true })
        (ground arith) (ground arith) (ground arith) k

  played-Ends :
      (err : Option E) (r : Ran F E) (h : Held)
      → h.playwright ≡ false
      → Ends r (record h { playwright = true })
      → Ends (with_driver fm eq_zero measured run_playwright stop_playwright no_playwright err r) h
  unfolding with_driver
  played-Ends (some e) r h free k = inl refl
  played-Ends none r h free k =
      around-Ends (run_playwright ∷ []) (stop_playwright ∷ []) r h (record h { playwright = true })
        (ground arith) (ground arith) (ground arith) k

  client-Ends :
      (r : Ran F E) (h : Held)
      → h.client ≡ false
      → Ends r (record h { client = true })
      → Ends (around (new_client ∷ []) r (close_client ∷ [])) h
  client-Ends r h free k =
      around-Ends (new_client ∷ []) (close_client ∷ []) r h (record h { client = true })
        (ground arith) (ground arith) (ground arith) k

  run_kind-Ends :
      (k : Kind) → Ends (run_kind fm eq_zero measured k cfg workflow exporting met) nothing
  unfolding run_kind workers_of
  run_kind-Ends http =
      let h = record nothing { client = true } in
      client-Ends (with_workers fm eq_zero measured http cfg workflow exporting met) nothing refl (
        with_workers-Ends http h (
          make_workers_lem {E = E} make_http_worker (λ i. none) (pos_part (worker_limit cfg)) 0
            (set_up h) (λ j. refl)))
  run_kind-Ends headed =
      let h = record nothing { manager = true } in
      managed-Ends met.manager_err
        (with_workers fm eq_zero measured headed cfg workflow exporting met) nothing refl
        (with_workers-Ends headed h (
          make_workers_lem {E = E} make_browser_worker (λ i. none) (pos_part (worker_limit cfg)) 0
            (set_up h) (λ j. refl)))
  run_kind-Ends contexts =
      let h = record nothing { manager = true } in
      managed-Ends met.manager_err
        (with_workers fm eq_zero measured contexts cfg workflow exporting met) nothing refl
        (with_workers-Ends contexts h (
          make_workers_lem
            (λ i.
              make_context_worker i (per_worker cfg.contexts_count (pos_part (worker_limit cfg))))
            met.worker_err (pos_part (worker_limit cfg)) 0 (set_up h) (λ j. refl)))
  run_kind-Ends cdp =
      let h = record nothing { playwright = true } in
      played-Ends met.playwright_err
        (with_workers fm eq_zero measured cdp cfg workflow exporting met) nothing refl
        (with_workers-Ends cdp h (
          make_workers_lem
            (λ i. make_cdp_worker i (per_worker cfg.contexts_count (pos_part (worker_limit cfg))))
            met.worker_err (pos_part (worker_limit cfg)) 0 (set_up h) (λ j. refl)))
  run_kind-Ends hybrid =
      let h = record nothing { client = true; manager = true } in
      client-Ends
        (with_driver fm eq_zero measured new_manager close_manager no_manager met.manager_err
          (with_workers fm eq_zero measured hybrid cfg workflow exporting met))
        nothing refl
        (managed-Ends met.manager_err
          (with_workers fm eq_zero measured hybrid cfg workflow exporting met)
          (record nothing { client = true }) refl
          (with_workers-Ends hybrid h (
            make_workers_lem
              (λ i.
                make_hybrid_worker (policy_or_default cfg.escalation) i
                  (per_worker cfg.contexts_count (pos_part (worker_limit cfg))))
              met.worker_err (pos_part (worker_limit cfg)) 0 (set_up h) (λ j. refl))))
  run_kind-Ends unknown = inl refl

  released :
      let r = run fm eq_zero measured cfg workflow exporting met in
      (after_all r.calls nothing ≡ some nothing)
      ⊎ (after_all r.calls nothing ≡ some (record nothing { sampler = gone; monitor = gone }))
  unfolding run
  released =
      let body = run_kind fm eq_zero measured (kind_of cfg.scenario) cfg workflow exporting met in
      elim (Bool-cases (ltb_ℤ (worker_limit cfg) (pos 1))) [
        | inl small ↦ rw small (inl refl)
        | inr large ↦ rw large (elim (run_kind-Ends (kind_of cfg.scenario)) [
          | inl e ↦ inl (
              around_lem (new_pool ∷ take_baseline ∷ []) (close_pool ∷ []) body nothing
                (set_up nothing) (set_up nothing) nothing refl e refl)
          | inr e ↦ inr (
              around_lem (new_pool ∷ take_baseline ∷ []) (close_pool ∷ []) body nothing
                (set_up nothing) (torn_down nothing)
                (record nothing { sampler = gone; monitor = gone }) refl e refl)
        ])
      ]

  -- Whatever its calls give, `Run` keeps the rules, and of what it holds itself, the pool, the client,
  -- the manager or Playwright, the run's context and the signals, it has nothing at its end: from
  -- nothing held, the calls are allowed one after the other, and lead to nothing held, with both
  -- goroutines of the telemetry never started or gone. The workers that it made have come to the
  -- pool, which is closed, unless it returns the error of a worker that could not be made; of
  -- what the workers made before that one own, nothing is said.
  pub run-IsReleased :
      let r = run fm eq_zero measured cfg workflow exporting met in
      ((after_all r.calls nothing ≡ some nothing)
        ⊎ (after_all r.calls nothing ≡ some (record nothing { sampler = gone; monitor = gone })))
      × IsHandedOver r
  run-IsReleased = (released, run-IsHandedOver fm eq_zero measured cfg workflow exporting met)
