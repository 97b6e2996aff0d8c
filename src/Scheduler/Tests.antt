-- ===== src/Scheduler/Tests.antt =====
-- Experiments on a bench that keeps its calls.
use browser_analysis.Prelude.{
  ℕ, ◌+◌, ◌*◌, ◌≤◌, ◌<◌, ◌≡◌, refl, false, List, [], ◌∷◌, none, ◌⊎◌, arith, length,
}
use browser_analysis.Prelude.{count_if}
use browser_analysis.Prelude.Double.{nat_double}
use browser_analysis.Metrics.Recorder.{new_recorder, task_created, task_queued, task_active}
use browser_analysis.Scheduler.Loop.{
  Shared, Phase, top, no_token, holding, sending, in_worker, go_on, take_token, submit, picked_up,
  act, System, acts, Steps, stay, after_step, started,
}
use browser_analysis.Scheduler.Loop.Slots.{is_sending, is_in_worker, Slots, loop_in_flight}
use browser_analysis.Scheduler.Loop.Progress.{Enabled, is_gone, loop_progress}
use browser_analysis.Scheduler.Driver.{
  ramp, RunConfig, second, all_levels, ramp_levels, levels_to, hold_of, run_levels, Bench, run,
  run_mode,
}
use browser_analysis.Scheduler.Driver.Schedule.{windows, all_runs, timed, run-timed}

-- What the driver did, the latest first; the clock counts the calls.
abbrev bench : Bench (List (ℕ × ℕ)) ℕ
bench = record {
  closed_loop = λ n dur w. (n, dur) ∷ w;
  context_err = λ w. none;
  reset = λ w. (0, 0) ∷ w;
  set_elapsed = λ t w. (0, t) ∷ w;
  clock = λ w. length w;
}

abbrev config : RunConfig
config = record {
  mode = ramp;
  concurrency = 30;
  workflow = record { name = []; steps = [] };
  warmup = 2 * second;
  measurement = 8 * second;
  cooldown = 0;
}

ramped :
    (run bench config []).1
    ≡ (0, 4)
      ∷ (25, 2 * second)
      ∷ (10, 2 * second)
      ∷ (5, 2 * second)
      ∷ (1, 2 * second)
      ∷ (0, 0)
      ∷ (25, 2 * second)
      ∷ (10, 2 * second)
      ∷ (5, 2 * second)
      ∷ (1, 2 * second)
      ∷ []
unfolding run run_mode run_levels ramp_levels levels_to all_levels hold_of
ramped = refl

run-timed_example : run bench config [] ≡ (
  none,
  timed bench
      (windows ramp config config.measurement)
      (bench.reset (all_runs bench (windows ramp config config.warmup) [])),
)
run-timed_example = run-timed bench config [] refl (omega arith) (λ v. refl)

-- Two tasks on one worker: the first goroutine takes the token and submits its task.
abbrev s0 : Shared ℕ
unfolding started
s0 = (started 2 1 false new_recorder).shared

abbrev s1 : Shared ℕ
s1 = record s0 { tokens = 0 }

abbrev s2 : Shared ℕ
s2 = record s1 { pending = 1; rec = task_queued (task_created s1.rec) }

abbrev s3 : Shared ℕ
s3 = record s2 { busy = 1; rec = task_active s2.rec }

abbrev at : Shared ℕ → Phase → System ℕ
at s y = record { shared = s; goroutines = y ∷ top ∷ [] }

in_a_worker : Steps (started 2 1 false new_recorder) (at s3 in_worker)
unfolding started act
in_a_worker = after_step _ (at s0 no_token) _ (acts go_on [] (top ∷ []) top no_token s0 s0 refl) (
    after_step _ (at s1 holding) _ (acts take_token [] (top ∷ []) no_token holding s0 s1 refl) (
      after_step _ (at s2 sending) _ (acts submit [] (top ∷ []) holding sending s1 s2 refl) (
        after_step _ (at s3 in_worker) _ (acts picked_up [] (top ∷ []) sending in_worker s2 s3 refl)
          (stay _))))

loop_in_flight_example :
    Slots 1 new_recorder (at s3 in_worker)
    × ((at s3 in_worker).shared.cancelled ≡ false
        → (count_if is_sending (at s3 in_worker).goroutines
              + count_if is_in_worker (at s3 in_worker).goroutines
            ≤ 1)
          × ((at s3 in_worker).shared.pending ≤ 1 + (at s3 in_worker).shared.settling)
          × ((at s3 in_worker).shared.settling ≤ 1)
          × (0 < count_if is_sending (at s3 in_worker).goroutines
              → (at s3 in_worker).shared.busy < 1 + (at s3 in_worker).shared.settling))
loop_in_flight_example =
    loop_in_flight 2 1 false new_recorder (at s3 in_worker) (omega arith) in_a_worker

loop_progress_example :
    Enabled (at s3 in_worker)
    ⊎ ((count_if is_gone (at s3 in_worker).goroutines ≡ 2) × ((at s3 in_worker).shared.pending ≡ 0))
loop_progress_example =
    loop_progress 2 1 false new_recorder (at s3 in_worker) (omega arith) in_a_worker
