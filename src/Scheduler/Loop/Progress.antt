-- ===== src/Scheduler/Loop/Progress.antt =====
-- The closed loop of internal/scheduler does not deadlock.
use browser_analysis.Prelude.{
  ℕ, ◌+◌, ◌≤◌, ◌<◌, ◌≡◌, refl, ap, Bool, true, false, List, [], ◌∷◌, ◌++◌, some, ◌⊎◌, inl, inr,
  arith, length, count_if, ltb, Bool-cases,
}
use browser_analysis.Prelude.Double.{Double}
use browser_analysis.Metrics.Recorder.{Recorder}
use browser_analysis.Scheduler.Loop.{
  Phase, top, no_token, holding, sending, in_worker, notified, gone, Shared, Act, stop_cancelled,
  stop_deadline, go_on, take_token, window_ended, submit, refused, picked_up, resume, finished, act,
  System, Steps, started, when,
}
use browser_analysis.Scheduler.Loop.Slots.{
  is_holder, is_in_worker, Slots, loop_in_flight, holders-tasks,
}

-- A goroutine can act, or a worker can end a task whose goroutine has left or count off a task that is done.
pub data Enabled {F : Type 0} ⦃d : Double F⦄ (w : System F) : Type 0 where
  acting :
      (a : Act) (before after : List Phase) (y y' : Phase) (s' : Shared F)
      → w.goroutines ≡ before ++ y ∷ after
      → act a y w.shared ≡ some (y', s')
      → Enabled w
  orphaned : 0 < w.shared.orphans → Enabled w
  settling : 0 < w.shared.settling → Enabled w

abbrev pub is_gone : Phase → Bool
is_gone gone = true
is_gone _ = false

abbrev is_waiting : Phase → Bool
is_waiting top = true
is_waiting no_token = true
is_waiting _ = false

phases-length :
    (gs : List Phase)
    → count_if is_gone gs + count_if is_holder gs + count_if is_waiting gs ≡ length gs
phases-length [] = omega arith
phases-length (top ∷ gs) = omega (arith, phases-length gs)
phases-length (no_token ∷ gs) = omega (arith, phases-length gs)
phases-length (holding ∷ gs) = omega (arith, phases-length gs)
phases-length (sending ∷ gs) = omega (arith, phases-length gs)
phases-length (in_worker ∷ gs) = omega (arith, phases-length gs)
phases-length (notified ∷ gs) = omega (arith, phases-length gs)
phases-length (gone ∷ gs) = omega (arith, phases-length gs)

-- An entry that passes the test, with what stands around it.
record Found (p : Phase → Bool) (gs : List Phase) : Type 0 where
  before : List Phase
  entry : Phase
  after : List Phase
  split : gs ≡ before ++ entry ∷ after
  passes : p entry ≡ true

find : (p : Phase → Bool) (gs : List Phase) → 0 < count_if p gs → Found p gs
find p [] h = absurd (omega (arith, h))
find p (g ∷ gs) h = elim (Bool-cases (p g)) [
  | inl passed ↦ record { before = []; entry = g; after = gs; split = refl; passes = passed }
  | inr other ↦
      let rest = find p gs (ground arith) in
      record {
        before = g ∷ rest.before;
        entry = rest.entry;
        after = rest.after;
        split = ap (λ xs. g ∷ xs) rest.split;
        passes = rest.passes;
      }
]

module _ {F : Type 0} ⦃d : Double F⦄ where
  -- What a goroutine waits for.
  abbrev Ready : Phase → Shared F → Type 0
  Ready no_token s = 0 < s.tokens
  Ready sending s = s.busy < s.workers
  Ready gone s = ⊥
  Ready _ s = Unit

  record CanAct (y : Phase) (s : Shared F) : Type 0 where
    next : Act
    reached : Phase
    left : Shared F
    done : act next y s ≡ some (reached, left)

  if-CanAct :
      (y : Phase) (s : Shared F) (a : Act) (b : Bool) (y' : Phase) (s' : Shared F)
      → act a y s ≡ when b (y', s')
      → b ≡ true
      → CanAct y s
  if-CanAct y s a true y' s' h e = record { next = a; reached = y'; left = s'; done = h }
  if-CanAct y s a false y' s' h e = absurd (cc)

  top-CanAct : (b c : Bool) (s : Shared F) → s.cancelled ≡ b → s.past_deadline ≡ c → CanAct top s
  unfolding act
  top-CanAct true c s h k = if-CanAct top s stop_cancelled _ _ _ refl h
  top-CanAct false true s h k = if-CanAct top s stop_deadline _ _ _ refl (ground (arith, h, k))
  top-CanAct false false s h k = if-CanAct top s go_on _ _ _ refl (ground (arith, h, k))

  holding-CanAct :
      (b c : Bool) (s : Shared F) → s.past_deadline ≡ b → s.pool_closed ≡ c → CanAct holding s
  unfolding act
  holding-CanAct true c s h k = if-CanAct holding s window_ended _ _ _ refl h
  holding-CanAct false true s h k = if-CanAct holding s refused _ _ _ refl (ground (arith, h, k))
  holding-CanAct false false s h k = if-CanAct holding s submit _ _ _ refl (ground (arith, h, k))

  Ready-CanAct : (y : Phase) (s : Shared F) → Ready y s → CanAct y s
  unfolding act
  Ready-CanAct top s h = top-CanAct s.cancelled s.past_deadline s refl refl
  Ready-CanAct no_token s h = if-CanAct no_token s take_token _ _ _ refl (ground arith)
  Ready-CanAct holding s h = holding-CanAct s.past_deadline s.pool_closed s refl refl
  Ready-CanAct sending s h = if-CanAct sending s picked_up _ _ _ refl (ground arith)
  Ready-CanAct in_worker s h = if-CanAct in_worker s (finished true (0, [])) true _ _ refl refl
  Ready-CanAct notified s h = if-CanAct notified s resume true _ _ refl refl
  Ready-CanAct gone s h = absurd h

  found-Enabled :
      (p : Phase → Bool) (w : System F)
      → 0 < count_if p w.goroutines
      → ((y : Phase) → p y ≡ true → Ready y w.shared)
      → Enabled w
  found-Enabled p w h ready =
      let f = find p w.goroutines h in
      let can = Ready-CanAct f.entry w.shared (ready f.entry f.passes) in
      acting can.next f.before f.after f.entry can.reached can.left f.split can.done

  in_worker-Ready : (y : Phase) (s : Shared F) → is_in_worker y ≡ true → Ready y s
  in_worker-Ready in_worker s e = ground arith
  in_worker-Ready _ s e = absurd (cc)

  holder-Ready : (y : Phase) (s : Shared F) → s.busy < s.workers → is_holder y ≡ true → Ready y s
  holder-Ready holding s h e = ground arith
  holder-Ready sending s h e = h
  holder-Ready in_worker s h e = ground arith
  holder-Ready notified s h e = ground arith
  holder-Ready _ s h e = absurd (cc)

  waiting-Ready : (y : Phase) (s : Shared F) → 0 < s.tokens → is_waiting y ≡ true → Ready y s
  waiting-Ready top s h e = ground arith
  waiting-Ready no_token s h e = h
  waiting-Ready _ s h e = absurd (cc)

  -- A task in `Submit`: it is picked up, or a worker ends the task that it runs.
  busy-Enabled :
      (total : ℕ) (r : Recorder F) (w : System F)
      → Slots total r w
      → w.shared.workers ≤ w.shared.busy
      → 0 < w.shared.workers
      → Enabled w
  busy-Enabled total r w i full some_workers = elim (Bool-cases (ltb 0 w.shared.orphans)) [
    | inl left ↦ orphaned (ground arith)
    | inr other ↦ elim (Bool-cases (ltb 0 w.shared.settling)) [
      | inl done ↦ settling (ground arith)
      | inr none_done ↦
          found-Enabled is_in_worker w (ground (arith, i.busy_tasks))
            (λ y e. in_worker-Ready y w.shared e)
    ]
  ]

  -- With no token out, a goroutine goes on, or all have left and an orphan, if there is one, ends.
  quiet-Enabled :
      (total : ℕ) (r : Recorder F) (w : System F)
      → Slots total r w
      → 0 < total
      → count_if is_holder w.goroutines ≡ 0
      → Enabled w ⊎ ((count_if is_gone w.goroutines ≡ length w.goroutines) × (w.shared.pending ≡ 0))
  quiet-Enabled total r w i k none_out =
      elim (Bool-cases (ltb 0 (count_if is_waiting w.goroutines))) [
        | inl waiting ↦ inl (
            found-Enabled is_waiting w (ground arith)
              (λ y e. waiting-Ready y w.shared (omega (arith, i.tokens_out)) e))
        | inr all_gone ↦ elim (Bool-cases (ltb 0 w.shared.orphans)) [
          | inl left ↦ inl (orphaned (ground arith))
          | inr other ↦ elim (Bool-cases (ltb 0 w.shared.settling)) [
            | inl done ↦ inl (settling (ground arith))
            | inr none_done ↦ inr (
              ground (arith, phases-length w.goroutines),
              ground (arith, i, holders-tasks w.goroutines),
            )
          ]
        ]
      ]

  -- A closed loop on a pool with workers never hangs: at any time either every goroutine has left and
  -- no task is in flight, so that `Drain` returns, or a goroutine or a worker can take a step.
  pub loop_progress :
      (n workers : ℕ) (closed : Bool) (r : Recorder F) (w : System F)
      → 1 ≤ workers
      → Steps (started n workers closed r) w
      → Enabled w ⊎ ((count_if is_gone w.goroutines ≡ length w.goroutines) × (w.shared.pending ≡ 0))
  loop_progress n workers closed r w h steps =
      let i = (loop_in_flight n workers closed r w h steps).0 in
      elim (Bool-cases (ltb 0 (count_if is_holder w.goroutines))) [
        | inl out ↦ elim (Bool-cases (ltb w.shared.busy w.shared.workers)) [
          | inl spare ↦ inl (
              found-Enabled is_holder w (ground arith)
                (λ y e. holder-Ready y w.shared (ground arith) e))
          | inr full ↦ inl (busy-Enabled workers r w i (ground arith) (omega (arith, i.pool_size)))
        ]
        | inr quiet ↦ quiet-Enabled workers r w i h (ground arith)
      ]
