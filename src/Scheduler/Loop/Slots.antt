-- ===== src/Scheduler/Loop/Slots.antt =====
-- The tokens of `runFixed` in internal/scheduler/driver.go and the tasks of the pool, counted.
use browser_analysis.Prelude.{
  ℕ, zero, suc, ◌+◌, ◌-◌, ◌≤◌, ◌<◌, ◌≡◌, refl, sym, ◌∙◌, Bool, true, false, List, [], ◌∷◌, ◌++◌,
  some, arith, count_if, count_if-append, replicate,
}
use browser_analysis.Prelude.Double.{Double}
use browser_analysis.Metrics.Recorder.{
  Recorder, task_created, task_queued, task_active, task_complete, task_failed, task_cancelled,
  record_task_rss_delta,
}
use browser_analysis.Scheduler.Loop.{
  Phase, top, no_token, holding, sending, in_worker, notified, gone, Shared, Act, stop_cancelled,
  stop_deadline, go_on, take_token, give_up, window_ended, submit, refused, picked_up, resume,
  abandon, finished, act, end_task, settle, enqueue, start_task, System, Step, acts, orphan_ends,
  settles, deadline_passes, cancels, Steps, stay, after_step, token_count, started,
}

abbrev pub is_holder : Phase → Bool
is_holder top = false
is_holder no_token = false
is_holder gone = false
is_holder _ = true

abbrev pub is_sending : Phase → Bool
is_sending sending = true
is_sending _ = false

abbrev pub is_in_worker : Phase → Bool
is_in_worker in_worker = true
is_in_worker _ = false

-- The tasks in flight and the tasks counted, as one action changes them.
record Balanced {F : Type 0} (y : Phase) (s : Shared F) (y' : Phase) (s' : Shared F) : Type 0 where
  tokens_moved : s'.tokens + count_if is_holder (y' ∷ []) ≡ s.tokens + count_if is_holder (y ∷ [])
  busy_moved :
      s'.busy + s.orphans + s.settling + count_if is_in_worker (y ∷ [])
      ≡ s.busy + s'.orphans + s'.settling + count_if is_in_worker (y' ∷ [])
  pending_moved :
      s'.pending + s.busy + count_if is_sending (y ∷ [])
      ≡ s.pending + s'.busy + count_if is_sending (y' ∷ [])
  created_moved :
      s'.rec.tasks_created + s.rec.tasks_complete + s.rec.tasks_failed + s.pending + s'.settling
      ≡ s.rec.tasks_created + s'.rec.tasks_complete + s'.rec.tasks_failed + s'.pending + s.settling
  workers_kept : s'.workers ≡ s.workers
  cancelled_kept : s'.cancelled ≡ s.cancelled
  orphans_kept : s.cancelled ≡ false → s'.orphans ≡ s.orphans
  room : s.busy ≤ s.workers → s'.busy ≤ s.workers

module _ {F : Type 0} ⦃d : Double F⦄ where
  act-Balanced :
      (a : Act) (y y' : Phase) (s s' : Shared F)
      → act a y s ≡ some (y', s')
      → count_if is_in_worker (y ∷ []) ≤ s.busy
      → s.busy ≤ s.pending
      → Balanced y s y' s'
  unfolding act end_task enqueue start_task task_created task_queued task_active task_complete
      task_failed task_cancelled record_task_rss_delta
  act-Balanced stop_cancelled top y' s s' h k l = ground arith
  act-Balanced stop_deadline top y' s s' h k l = ground arith
  act-Balanced go_on top y' s s' h k l = ground arith
  act-Balanced take_token no_token y' s s' h k l = ground arith
  act-Balanced give_up no_token y' s s' h k l = ground arith
  act-Balanced window_ended holding y' s s' h k l = ground arith
  act-Balanced submit holding y' s s' h k l = ground arith
  act-Balanced refused holding y' s s' h k l = ground arith
  act-Balanced picked_up sending y' s s' h k l = ground arith
  act-Balanced (finished true delta) in_worker y' s s' h k l = ground arith
  act-Balanced (finished false delta) in_worker y' s s' h k l = ground arith
  act-Balanced resume notified y' s s' h k l = ground arith
  act-Balanced abandon in_worker y' s s' h k l = ground arith
  act-Balanced abandon notified y' s s' h k l = ground arith
  act-Balanced _ _ y' s s' h k l = absurd (cc)

-- Every token is in the channel or with one goroutine, every pending task is in `Submit` or in a
-- worker, which runs it or has closed its `t.Done()`, there is room for those in workers, and the recorder counts the tasks.
pub record Slots {F : Type 0} (total : ℕ) (r : Recorder F) (w : System F) : Type 0 where
  pub tokens_out : w.shared.tokens + count_if is_holder w.goroutines ≡ total
  pub busy_tasks :
      w.shared.busy ≡ w.shared.orphans + w.shared.settling + count_if is_in_worker w.goroutines
  pub in_flight : w.shared.pending ≡ w.shared.busy + count_if is_sending w.goroutines
  pub pool_size : w.shared.workers ≡ total
  pub room : w.shared.busy ≤ w.shared.workers
  pub no_orphans : w.shared.cancelled ≡ false → w.shared.orphans ≡ 0
  pub tasks_counted :
      w.shared.rec.tasks_created + r.tasks_complete + r.tasks_failed + w.shared.settling
      ≡ r.tasks_created + w.shared.rec.tasks_complete + w.shared.rec.tasks_failed + w.shared.pending

count_if-split :
    (p : Phase → Bool) (before after : List Phase) (y : Phase)
    → count_if p (before ++ y ∷ after) ≡ count_if p before + count_if p after + count_if p (y ∷ [])
count_if-split p before after y = ground (arith, count_if-append p before (y ∷ after))

count_if-top : (p : Phase → Bool) (n : ℕ) → p top ≡ false → count_if p (replicate n top) ≡ 0
count_if-top p zero h = refl
count_if-top p (suc n) h = ground (arith, count_if-top p n h)

pub holders-tasks :
    (gs : List Phase) → count_if is_sending gs + count_if is_in_worker gs ≤ count_if is_holder gs
holders-tasks [] = omega arith
holders-tasks (top ∷ gs) = omega (arith, holders-tasks gs)
holders-tasks (no_token ∷ gs) = omega (arith, holders-tasks gs)
holders-tasks (holding ∷ gs) = omega (arith, holders-tasks gs)
holders-tasks (sending ∷ gs) = omega (arith, holders-tasks gs)
holders-tasks (in_worker ∷ gs) = omega (arith, holders-tasks gs)
holders-tasks (notified ∷ gs) = omega (arith, holders-tasks gs)
holders-tasks (gone ∷ gs) = omega (arith, holders-tasks gs)

module _ {F : Type 0} ⦃d : Double F⦄ where
  orphan-Slots :
      (total : ℕ) (r : Recorder F) (good : Bool) (delta : ℕ × List ℕ) (gs : List Phase)
      (s : Shared F)
      → 0 < s.orphans
      → Slots total r record { shared = s; goroutines = gs }
      → Slots total r record {
        shared = record (end_task good delta s) { orphans = s.orphans - 1 };
        goroutines = gs;
      }
  unfolding end_task task_complete task_failed record_task_rss_delta
  orphan-Slots total r good delta gs s h i = record {
    tokens_out = i.tokens_out;
    busy_tasks = omega (arith, i.busy_tasks);
    in_flight = omega (arith, i.in_flight, i.busy_tasks);
    pool_size = i.pool_size;
    room = omega (arith, i.room);
    no_orphans = λ e. omega (arith, i.no_orphans e);
    tasks_counted = ground (arith, i.tasks_counted, i.in_flight, i.busy_tasks);
  }

  settle-Slots :
      (total : ℕ) (r : Recorder F) (gs : List Phase) (s : Shared F)
      → 0 < s.settling
      → Slots total r record { shared = s; goroutines = gs }
      → Slots total r record { shared = settle s; goroutines = gs }
  unfolding settle
  settle-Slots total r gs s h i = record {
    tokens_out = i.tokens_out;
    busy_tasks = omega (arith, i.busy_tasks);
    in_flight = omega (arith, i.in_flight, i.busy_tasks);
    pool_size = i.pool_size;
    room = omega (arith, i.room);
    no_orphans = i.no_orphans;
    tasks_counted = omega (arith, i.tasks_counted, i.in_flight, i.busy_tasks);
  }

  step-Slots :
      (total : ℕ) (r : Recorder F) (v w : System F) → Step v w → Slots total r v → Slots total r w
  step-Slots total r v w (acts a before after y y' s s' h) i =
      let holders = count_if-split is_holder before after in
      let sent = count_if-split is_sending before after in
      let running = count_if-split is_in_worker before after in
      let moved =
        act-Balanced a y y' s s' h (omega (arith, running y, i.busy_tasks))
          (omega (arith, i.in_flight)) in
      record {
        tokens_out = omega (arith, holders y, holders y', moved, i);
        busy_tasks = omega (arith, running y, running y', moved, i);
        in_flight = omega (arith, sent y, sent y', moved, i);
        pool_size = moved.workers_kept ∙ i.pool_size;
        room = omega (arith, moved.room i.room, moved.workers_kept);
        no_orphans = λ e.
            let calm = sym moved.cancelled_kept ∙ e in moved.orphans_kept calm ∙ i.no_orphans calm;
        tasks_counted = omega (arith, moved, i);
      }
  step-Slots total r v w (orphan_ends good delta gs s h) i =
      orphan-Slots total r good delta gs s h i
  step-Slots total r v w (settles gs s h) i = settle-Slots total r gs s h i
  step-Slots total r v w (deadline_passes gs s) i = record {
    tokens_out = i.tokens_out;
    busy_tasks = i.busy_tasks;
    in_flight = i.in_flight;
    pool_size = i.pool_size;
    room = i.room;
    no_orphans = i.no_orphans;
    tasks_counted = i.tasks_counted;
  }
  step-Slots total r v w (cancels gs s) i = record {
    tokens_out = i.tokens_out;
    busy_tasks = i.busy_tasks;
    in_flight = i.in_flight;
    pool_size = i.pool_size;
    room = i.room;
    no_orphans = λ e. absurd (cc);
    tasks_counted = i.tasks_counted;
  }

  Steps-Slots :
      (total : ℕ) (r : Recorder F) (v w : System F) → Steps v w → Slots total r v → Slots total r w
  Steps-Slots total r v w (stay u) i = i
  Steps-Slots total r v w (after_step a b c first rest) i =
      Steps-Slots total r b c rest (step-Slots total r a b first i)

  started-Slots :
      (n workers : ℕ) (closed : Bool) (r : Recorder F)
      → 1 ≤ workers
      → Slots workers r (started n workers closed r)
  unfolding started token_count
  started-Slots n workers closed r h = record {
    tokens_out = ground (arith, count_if-top is_holder n refl);
    busy_tasks = omega (arith, count_if-top is_in_worker n refl);
    in_flight = omega (arith, count_if-top is_sending n refl);
    pool_size = refl;
    room = omega arith;
    no_orphans = λ e. refl;
    tasks_counted = omega arith;
  }

  -- The closed loop on a pool with workers, after any number of steps of its goroutines and workers,
  -- whenever the deadline passes and the run is cancelled: each token is in the channel or with one
  -- goroutine; each task created is complete, failed, or pending in `Submit` or in a worker that has
  -- not closed its `t.Done()`; no more workers are busy than there are. Until the run is cancelled no
  -- more tasks are in `Submit` or run than there are workers, whatever the number of
  -- goroutines; the tasks pending are these and at most one more for each worker, which has closed
  -- the task's `t.Done()` but not yet counted it off; and for a task in `Submit` there is a worker
  -- that is free or has only to count off its last task.
  pub loop_in_flight :
      (n workers : ℕ) (closed : Bool) (r : Recorder F) (w : System F)
      → 1 ≤ workers
      → Steps (started n workers closed r) w
      → Slots workers r w
        × (w.shared.cancelled ≡ false
            → (count_if is_sending w.goroutines + count_if is_in_worker w.goroutines ≤ workers)
              × (w.shared.pending ≤ workers + w.shared.settling)
              × (w.shared.settling ≤ workers)
              × (0 < count_if is_sending w.goroutines
                  → w.shared.busy < workers + w.shared.settling))
  loop_in_flight n workers closed r w h steps =
      let i = Steps-Slots workers r _ w steps (started-Slots n workers closed r h) in
      let tasks = holders-tasks w.goroutines in
      (
        i,
        λ calm. (
          omega (arith, i, tasks),
          omega (arith, i, i.no_orphans calm, tasks),
          omega (arith, i),
          λ some_sent. omega (arith, i, i.no_orphans calm, tasks),
        ),
      )
