-- ===== src/Scheduler/Driver.antt =====
-- internal/scheduler/driver.go: an experiment as a sequence of runs at fixed concurrency. Counts and
-- durations, in nanoseconds, are not negative: a validated configuration has no others. The closed
-- loop itself runs concurrently and stands in Loop; here it is a function of the world.
pub mod Schedule
use browser_analysis.Prelude.{
  ℕ, suc, ◌-◌, ◌/◌, ◌≡◌, Bool, true, false, List, [], ◌∷◌, Option, none, some, arith, length,
  if◌then◌else◌, ltb, ◌==◌,
}
use browser_analysis.Prelude.Text.{Text}
use browser_analysis.Workflow.{Workflow}

pub data Mode : Type 0 where
  fixed ramp stepped steady spike : Mode
  unknown : Text → Mode

pub record RunConfig : Type 0 where
  pub mode : Mode
  pub concurrency : ℕ
  pub workflow : Workflow
  pub warmup : ℕ
  pub measurement : ℕ
  pub cooldown : ℕ

pub data DriverError {ℓ} (E : Type ℓ) : Type ℓ where
  low_concurrency : ℕ → DriverError E
  unknown_mode : Text → DriverError E
  context_error : E → DriverError E

abbrev pub second : ℕ
second = 1_000_000_000

unfoldable pub all_levels : List ℕ
all_levels = 1 ∷ 5 ∷ 10 ∷ 25 ∷ 50 ∷ 100 ∷ 250 ∷ 500 ∷ 750 ∷ 1000 ∷ []

-- The loop of `rampLevels`, which stops at the first level above `max`.
unfoldable pub levels_to : ℕ → List ℕ → List ℕ
levels_to max [] = []
levels_to max (lvl ∷ rest) =
    let later = levels_to max rest in if ltb max lvl then [] else lvl ∷ later

abbrev pub or_one : List ℕ → List ℕ
or_one [] = 1 ∷ []
or_one (l ∷ ls) = l ∷ ls

unfoldable pub ramp_levels : ℕ → List ℕ
ramp_levels max = or_one (levels_to max all_levels)

-- The time for each level, in `runRamp` and in `runStep`.
unfoldable pub hold_of : ℕ → List ℕ → ℕ
hold_of window levels =
    let share = window / length levels in if ltb share second then second else share

-- What the driver calls: the closed loop of `runFixed` with so many tasks for so long, `ctx.Err()`, the
-- recorder's `Reset` and `SetMeasurementElapsed`, and the clock.
pub record Bench (W E : Type 0) : Type 0 where
  pub closed_loop : ℕ → ℕ → W → W
  pub context_err : W → Option E
  pub reset : W → W
  pub set_elapsed : ℕ → W → W
  pub clock : W → ℕ

module _ {W E : Type 0} (b : Bench W E) where
  unfoldable pub run_fixed : ℕ → ℕ → W → Option (DriverError E) × W
  run_fixed n duration w =
      if ltb n 1 then (some (low_concurrency n), w) else (none, b.closed_loop n duration w)

  -- The loop of `runRamp` and `runStep`. The rest of the levels waits for the outcome of the first.
  unfoldable pub run_levels : List ℕ → ℕ → W → Option (DriverError E) × W
  run_levels [] hold w = (none, w)
  run_levels (lvl ∷ rest) hold w =
      let (failed, w') = run_fixed lvl hold w in
      elim failed [
        | some e ↦ (some e, w')
        | none ↦ elim (b.context_err w') [
          | some e ↦ (some (context_error e), w')
          | none ↦ run_levels rest hold w'
        ]
      ]

  unfoldable pub run_ramp : RunConfig → W → Option (DriverError E) × W
  run_ramp cfg w =
      let levels = ramp_levels cfg.concurrency in
      run_levels levels (hold_of cfg.measurement levels) w

  -- The same code a second time.
  unfoldable pub run_step : RunConfig → W → Option (DriverError E) × W
  run_step cfg w =
      let levels = ramp_levels cfg.concurrency in
      run_levels levels (hold_of cfg.measurement levels) w

  unfoldable pub run_spike : RunConfig → W → Option (DriverError E) × W
  run_spike cfg w = run_fixed cfg.concurrency cfg.measurement w

  -- The measurement of `runWithWarmup`.
  unfoldable pub measure :
      RunConfig → (ℕ → W → Option (DriverError E) × W) → W → Option (DriverError E) × W
  measure cfg run w =
      let (failed, w') = run cfg.measurement w in
      (failed, b.set_elapsed (b.clock w' - b.clock w) w')

  unfoldable pub run_with_warmup :
      RunConfig → (ℕ → W → Option (DriverError E) × W) → W → Option (DriverError E) × W
  unfolding measure
  run_with_warmup cfg run w =
      if ltb 0 cfg.warmup
      then (let (failed, w') = run cfg.warmup w in
          elim failed [
            | some e ↦ (some e, w')
            | none ↦ elim (b.context_err w') [
              | some e ↦ (some (context_error e), w')
              | none ↦ measure cfg run (b.reset w')
            ]
          ])
      else measure cfg run w

  -- `Run`, past the choice of the mode.
  unfoldable pub run_mode : Mode → RunConfig → W → Option (DriverError E) × W
  unfolding run_with_warmup run_fixed run_ramp run_step run_spike
  run_mode fixed cfg w = run_with_warmup cfg (run_fixed cfg.concurrency) w
  run_mode steady cfg w = run_with_warmup cfg (run_fixed cfg.concurrency) w
  run_mode ramp cfg w = run_with_warmup cfg (λ dur. run_ramp cfg) w
  run_mode stepped cfg w = run_with_warmup cfg (λ dur. run_step cfg) w
  run_mode spike cfg w = run_with_warmup cfg (λ dur. run_spike cfg) w
  run_mode (unknown name) cfg w = (some (unknown_mode name), w)

  unfoldable pub run : RunConfig → W → Option (DriverError E) × W
  run cfg w = run_mode cfg.mode cfg w
