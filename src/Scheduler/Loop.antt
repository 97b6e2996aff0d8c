-- ===== src/Scheduler/Loop.antt =====
-- `runFixed` of internal/scheduler/driver.go over `Submit` and `workerLoop` of internal/scheduler/pool.go:
-- the goroutines of the closed loop, the tokens and the workers, one atomic action at a time. The
-- workers are interchangeable, so a task in a worker is the state of the goroutine that waits for
-- it, or, if that has left, one of the orphans. A `select` may take any branch that is ready.
pub mod Slots
pub mod Progress
use browser_analysis.Prelude.{
  ℕ, suc, ◌+◌, ◌-◌, ◌<◌, ◌≡◌, Bool, true, false, not, ◌&&◌, ◌||◌, List, [], ◌∷◌, ◌++◌, Option, none,
  some, arith, length, count_if, replicate, if◌then◌else◌, ltb, leb,
}
use browser_analysis.Prelude.Double.{Double}
use browser_analysis.Metrics.Recorder.{
  Recorder, task_created, task_queued, task_active, task_complete, task_failed, task_cancelled,
  record_task_rss_delta,
}

-- Where a goroutine of `runFixed` is.
pub data Phase : Type 0 where
  top : Phase  -- at the head of the loop
  no_token : Phase  -- in the select on `tokens`
  holding : Phase  -- with a token, before the second test of the deadline
  sending : Phase  -- in `Submit`, at `p.jobs <- t`
  in_worker : Phase  -- in the select on `t.Done()`, a worker runs the task
  notified : Phase  -- in the same select, `t.Done()` is closed
  gone : Phase

pub record Shared (F : Type 0) : Type 0 where
  pub tokens : ℕ
  pub workers : ℕ
  pub busy : ℕ
  pub orphans : ℕ
  pub settling : ℕ  -- workers that have closed `t.Done()` and have yet to call `p.pending.Done()`
  pub pending : ℕ
  pub past_deadline : Bool
  pub cancelled : Bool  -- ctx.Done() is closed
  pub pool_closed : Bool
  pub rec : Recorder F

-- What a goroutine does next; of a task, how the worker's `Run` ends and the memory before and during it.
pub data Act : Type 0 where
  stop_cancelled stop_deadline go_on : Act
  take_token give_up : Act
  window_ended submit refused : Act
  picked_up resume abandon : Act
  finished : Bool → ℕ × List ℕ → Act

-- A condition on a transition.
abbrev pub when {ℓ} : {A : Type ℓ} → Bool → A → Option A
when b a = if b then some a else none

-- What the sampling beside a task makes of the memory before it and at the ticks of its timer.
unfoldable pub peak_rss : ℕ → List ℕ → ℕ
peak_rss peak [] = peak
peak_rss peak (r ∷ rs) = peak_rss (if ltb peak r then r else peak) rs

unfoldable pub rss_delta : ℕ → List ℕ → ℕ
rss_delta before ticks =
    let peak = peak_rss before ticks in if ltb before peak then peak - before else 0

module _ {F : Type 0} ⦃d : Double F⦄ where
  -- The end of `workerLoop` for a task, up to `markFinished`.
  unfoldable pub end_task : Bool → ℕ × List ℕ → Shared F → Shared F
  unfolding peak_rss rss_delta
  end_task good (before, ticks) s =
      let r = record_task_rss_delta (rss_delta before ticks) s.rec in
      record s { settling = suc s.settling; rec = if good then task_complete r else task_failed r }

  -- `p.pending.Done()`, and back to `range p.jobs`.
  unfoldable pub settle : Shared F → Shared F
  settle s = record s { busy = s.busy - 1; settling = s.settling - 1; pending = s.pending - 1 }

  -- `Submit` up to its send on the channel, and the head of `workerLoop`.
  unfoldable pub enqueue : Shared F → Shared F
  enqueue s = record s { pending = suc s.pending; rec = task_queued (task_created s.rec) }

  unfoldable pub start_task : Shared F → Shared F
  start_task s = record s { busy = suc s.busy; rec = task_active s.rec }

  -- A goroutine that puts its token back.
  abbrev pub put_token : Shared F → Shared F
  put_token s = record s { tokens = suc s.tokens }

  abbrev pub count_cancelled : Shared F → Shared F
  count_cancelled s = record s { rec = task_cancelled s.rec }

  unfoldable pub act : Act → Phase → Shared F → Option (Phase × Shared F)
  unfolding end_task enqueue start_task
  act stop_cancelled top s = when s.cancelled (gone, count_cancelled s)
  act stop_deadline top s = when (not s.cancelled && s.past_deadline) (gone, s)
  act go_on top s = when (not s.cancelled && not s.past_deadline) (no_token, s)
  act take_token no_token s = when (ltb 0 s.tokens) (holding, record s { tokens = s.tokens - 1 })
  act give_up no_token s = when s.cancelled (gone, count_cancelled s)
  act window_ended holding s = when s.past_deadline (gone, put_token s)
  act submit holding s = when (not s.past_deadline && not s.pool_closed) (sending, enqueue s)
  act refused holding s = when (not s.past_deadline && s.pool_closed) (gone, put_token s)
  act picked_up sending s = when (ltb s.busy s.workers) (in_worker, start_task s)
  act (finished good delta) in_worker s = some (notified, end_task good delta s)
  act resume notified s = some (top, put_token s)
  act abandon in_worker s =
      when s.cancelled (gone, put_token (count_cancelled (record s { orphans = suc s.orphans })))
  act abandon notified s = when s.cancelled (gone, put_token (count_cancelled s))
  act _ _ s = none

pub record System (F : Type 0) : Type 0 where
  pub shared : Shared F
  pub goroutines : List Phase

-- One action of a goroutine, of a worker with an orphan or at the end of a task, of the clock or of whoever cancels the run.
pub data Step {F : Type 0} ⦃d : Double F⦄ : System F → System F → Type 0 where
  acts :
      (a : Act) (before after : List Phase) (y y' : Phase) (s s' : Shared F)
      → act a y s ≡ some (y', s')
      → Step
          (record { shared = s; goroutines = before ++ y ∷ after })
          (record { shared = s'; goroutines = before ++ y' ∷ after })
  orphan_ends :
      (good : Bool) (delta : ℕ × List ℕ) (gs : List Phase) (s : Shared F)
      → 0 < s.orphans
      → Step
          (record { shared = s; goroutines = gs })
          (record {
            shared = record (end_task good delta s) { orphans = s.orphans - 1 };
            goroutines = gs;
          })
  settles :
      (gs : List Phase) (s : Shared F)
      → 0 < s.settling
      → Step
          (record { shared = s; goroutines = gs })
          (record { shared = settle s; goroutines = gs })
  deadline_passes :
      (gs : List Phase) (s : Shared F)
      → Step
          (record { shared = s; goroutines = gs })
          (record { shared = record s { past_deadline = true }; goroutines = gs })
  cancels :
      (gs : List Phase) (s : Shared F)
      → Step
          (record { shared = s; goroutines = gs })
          (record { shared = record s { cancelled = true }; goroutines = gs })

pub data Steps {F : Type 0} ⦃d : Double F⦄ : System F → System F → Type 0 where
  stay : (w : System F) → Steps w w
  after_step : (u v w : System F) → Step u v → Steps v w → Steps u w

-- `runFixed` after it has filled the channel of tokens: `n` tasks, on a pool of some workers, or of
-- none yet, when the number of tasks stands in for that of the workers.
unfoldable pub token_count : ℕ → ℕ → ℕ
token_count n workers = if ltb workers 1 then n else workers

unfoldable pub started : {F : Type 0} → ℕ → ℕ → Bool → Recorder F → System F
unfolding token_count
started n workers closed rec = record {
  shared = record {
    tokens = token_count n workers;
    workers = workers;
    busy = 0;
    orphans = 0;
    settling = 0;
    pending = 0;
    past_deadline = false;
    cancelled = false;
    pool_closed = closed;
    rec = rec;
  };
  goroutines = replicate n top;
}
