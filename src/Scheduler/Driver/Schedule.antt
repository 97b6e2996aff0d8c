-- ===== src/Scheduler/Driver/Schedule.antt =====
-- What the modes of internal/scheduler/driver.go make of a configuration.
use browser_analysis.Prelude.{
  ℕ, suc, ◌*◌, ◌-◌, ◌/◌, ◌≤◌, ◌<◌, ◌≡◌, refl, ◌∙◌, Bool, true, false, List, [], ◌∷◌, Option, none,
  arith, length, All, if◌then◌else◌, ltb, leb, map,
}
use browser_analysis.Scheduler.Driver.{
  Mode, fixed, ramp, stepped, steady, spike, unknown, RunConfig, DriverError, second, all_levels,
  levels_to, or_one, ramp_levels, hold_of, Bench, run_fixed, run_levels, run_ramp, run_step,
  run_spike, measure, run_with_warmup, run_mode, run,
}

-- The entries that pass a test.
abbrev pub keep : (ℕ → Bool) → List ℕ → List ℕ
keep p [] = []
keep p (x ∷ xs) = let rest = keep p xs in if p x then x ∷ rest else rest

-- Each entry is below all the later ones.
abbrev pub Ascending : List ℕ → Type 0
Ascending [] = Unit
Ascending (x ∷ xs) = All (λ y. x < y) xs × Ascending xs

keep_none :
    (max x : ℕ) (xs : List ℕ) → max < x → All (λ y. x < y) xs → keep (λ l. leb l max) xs ≡ []
keep_none max x [] h hs = refl
keep_none max x (y ∷ ys) h (hy, hs) = ground (arith, keep_none max x ys h hs)

levels_to-keep :
    (max : ℕ) (xs : List ℕ) → Ascending xs → levels_to max xs ≡ keep (λ l. leb l max) xs
unfolding levels_to
levels_to-keep max [] h = refl
levels_to-keep max (x ∷ xs) (hx, hs) = grind (arith, keep_none max x xs, levels_to-keep max xs hs)

all_levels-Ascending : Ascending all_levels
unfolding all_levels
all_levels-Ascending = ground arith

or_one-levels_to :
    (max x : ℕ) (xs : List ℕ) → x ≤ max → or_one (levels_to max (x ∷ xs)) ≡ levels_to max (x ∷ xs)
unfolding levels_to
or_one-levels_to max x xs h = ground arith

first_level : (max : ℕ) → 1 ≤ max → or_one (levels_to max all_levels) ≡ levels_to max all_levels
unfolding all_levels
first_level max h = or_one-levels_to max 1 _ h

-- The levels up to a maximum that is at least 1 are the standard ones that do not exceed it.
pub ramp_levels-keep : (max : ℕ) → 1 ≤ max → ramp_levels max ≡ keep (λ l. leb l max) all_levels
unfolding ramp_levels
ramp_levels-keep max h = first_level max h ∙ levels_to-keep max all_levels all_levels-Ascending

share_bounds :
    (window n : ℕ) → 0 < n → (n * (window / n) ≤ window) × (window < n * suc (window / n))
share_bounds window n h = grind arith

product_le : (n a b : ℕ) → a ≤ b → n * a ≤ n * b
product_le n a b h = grind arith

share_long : (window n a : ℕ) → 0 < n → n * a ≤ window → a ≤ window / n
share_long window n a h k = grind arith

second-hold_of : (window : ℕ) (levels : List ℕ) → second ≤ hold_of window levels
unfolding hold_of
second-hold_of window levels = ground arith

hold_of_share :
    (window : ℕ) (levels : List ℕ)
    → second ≤ window / length levels
    → hold_of window levels ≡ window / length levels
unfolding hold_of
hold_of_share window levels h = ground arith

-- Each level is held for a second at least. If the window has a second for each level, the levels
-- together stay within the window and leave less than a nanosecond for each level over; if not, they
-- exceed it.
pub hold_of_bounds :
    (window : ℕ) (levels : List ℕ)
    → 0 < length levels
    → let hold = hold_of window levels in
      (second ≤ hold)
      × (length levels * second ≤ window
          → (length levels * hold ≤ window) × (window < length levels * suc hold))
      × (window < length levels * second → window < length levels * hold)
hold_of_bounds window levels h = (
  second-hold_of window levels,
  λ fits.
      rw (hold_of_share window levels (share_long window (length levels) second h fits))
        (share_bounds window (length levels) h),
  λ short. omega (
    arith,
    product_le (length levels) second (hold_of window levels) (second-hold_of window levels),
  ),
)

-- The runs at fixed concurrency that a mode consists of: how many tasks, for how long.
abbrev pub windows : Mode → RunConfig → ℕ → List (ℕ × ℕ)
windows fixed cfg dur = (cfg.concurrency, dur) ∷ []
windows steady cfg dur = (cfg.concurrency, dur) ∷ []
windows spike cfg dur = (cfg.concurrency, cfg.measurement) ∷ []
windows (unknown name) cfg dur = []
windows _ cfg dur =
    let levels = ramp_levels cfg.concurrency in
    map (λ n. (n, hold_of cfg.measurement levels)) levels

abbrev pub is_known : Mode → Bool
is_known (unknown name) = false
is_known _ = true

levels_to_positive :
    (max : ℕ) (xs : List ℕ) → All (λ l. 1 ≤ l) xs → All (λ l. 1 ≤ l) (levels_to max xs)
unfolding levels_to
levels_to_positive max [] h = h
levels_to_positive max (x ∷ xs) h = grind (arith, levels_to_positive max xs)

or_one_positive : (xs : List ℕ) → All (λ l. 1 ≤ l) xs → All (λ l. 1 ≤ l) (or_one xs)
or_one_positive [] h = ground arith
or_one_positive (x ∷ xs) h = h

all_levels_positive : All (λ l. 1 ≤ l) all_levels
unfolding all_levels
all_levels_positive = ground arith

ramp_levels_positive : (max : ℕ) → All (λ l. 1 ≤ l) (ramp_levels max)
unfolding ramp_levels
ramp_levels_positive max =
    or_one_positive (levels_to max all_levels)
      (levels_to_positive max all_levels all_levels_positive)

abbrev pub ignores_window : Mode → Bool
ignores_window ramp = true
ignores_window stepped = true
ignores_window spike = true
ignores_window _ = false

module _ {W E : Type 0} (b : Bench W E) where
  -- These runs, one after the other.
  abbrev pub all_runs : List (ℕ × ℕ) → W → W
  all_runs [] w = w
  all_runs ((n, dur) ∷ rest) w = all_runs rest (b.closed_loop n dur w)

  -- These runs, and then their duration put on record.
  abbrev pub timed : List (ℕ × ℕ) → W → W
  timed ws w = let w' = all_runs ws w in b.set_elapsed (b.clock w' - b.clock w) w'

  run_levels-all_runs :
      (hold : ℕ) (ls : List ℕ) (w : W)
      → ((v : W) → b.context_err v ≡ none)
      → All (λ l. 1 ≤ l) ls
      → run_levels b ls hold w ≡ (none, all_runs (map (λ n. (n, hold)) ls) w)
  unfolding run_levels run_fixed
  run_levels-all_runs hold [] w calm h = refl
  run_levels-all_runs hold (l ∷ ls) w calm (hl, h) = ground (
    arith,
    calm (b.closed_loop l hold w),
    run_levels-all_runs hold ls (b.closed_loop l hold w) calm h,
  )

  run_fixed-all_runs :
      (n dur : ℕ) (w : W) → 1 ≤ n → run_fixed b n dur w ≡ (none, all_runs ((n, dur) ∷ []) w)
  unfolding run_fixed
  run_fixed-all_runs n dur w h = ground arith

  run_with_warmup-timed :
      (cfg : RunConfig) (ws : ℕ → List (ℕ × ℕ)) (go : ℕ → W → Option (DriverError E) × W) (w : W)
      → ((v : W) → b.context_err v ≡ none)
      → ((dur : ℕ) (v : W) → go dur v ≡ (none, all_runs (ws dur) v))
      → run_with_warmup b cfg go w ≡ (
        none,
        timed
            (ws cfg.measurement)
            (if ltb 0 cfg.warmup then b.reset (all_runs (ws cfg.warmup) w) else w),
      )
  unfolding run_with_warmup measure
  run_with_warmup-timed cfg ws go w calm goes =
      let warm = all_runs (ws cfg.warmup) w in
      ground (
        arith,
        goes cfg.warmup w,
        calm warm,
        goes cfg.measurement w,
        goes cfg.measurement (b.reset warm),
      )

  run_ramp-all_runs :
      (cfg : RunConfig) (w : W)
      → ((v : W) → b.context_err v ≡ none)
      → run_ramp b cfg w ≡ (none, all_runs (windows ramp cfg cfg.measurement) w)
  unfolding run_ramp
  run_ramp-all_runs cfg w calm =
      run_levels-all_runs _ _ w calm (ramp_levels_positive cfg.concurrency)

  run_step-all_runs :
      (cfg : RunConfig) (w : W)
      → ((v : W) → b.context_err v ≡ none)
      → run_step b cfg w ≡ (none, all_runs (windows stepped cfg cfg.measurement) w)
  unfolding run_step
  run_step-all_runs cfg w calm =
      run_levels-all_runs _ _ w calm (ramp_levels_positive cfg.concurrency)

  run_mode-timed :
      (m : Mode) (cfg : RunConfig) (w : W)
      → is_known m ≡ true
      → 1 ≤ cfg.concurrency
      → ((v : W) → b.context_err v ≡ none)
      → run_mode b m cfg w ≡ (
        none,
        timed
            (windows m cfg cfg.measurement)
            (if ltb 0 cfg.warmup then b.reset (all_runs (windows m cfg cfg.warmup) w) else w),
      )
  unfolding run_mode run_spike
  run_mode-timed fixed cfg w known low calm =
      run_with_warmup-timed cfg (windows fixed cfg) _ w calm
        (λ dur v. run_fixed-all_runs cfg.concurrency dur v low)
  run_mode-timed steady cfg w known low calm =
      run_with_warmup-timed cfg (windows steady cfg) _ w calm
        (λ dur v. run_fixed-all_runs cfg.concurrency dur v low)
  run_mode-timed spike cfg w known low calm =
      run_with_warmup-timed cfg (windows spike cfg) _ w calm
        (λ dur v. run_fixed-all_runs cfg.concurrency cfg.measurement v low)
  run_mode-timed ramp cfg w known low calm =
      run_with_warmup-timed cfg (windows ramp cfg) _ w calm (λ dur v. run_ramp-all_runs cfg v calm)
  run_mode-timed stepped cfg w known low calm =
      run_with_warmup-timed cfg (windows stepped cfg) _ w calm
        (λ dur v. run_step-all_runs cfg v calm)
  run_mode-timed (unknown name) cfg w known low calm = absurd (cc)

  -- An experiment that nothing cancels, of a known mode and with at least one task: the runs of the
  -- mode for the warm-up, after which the recorder is cleared, if there is a warm-up; then the runs of
  -- the mode for the measurement, whose duration alone is put on record; and no error.
  pub run-timed :
      (cfg : RunConfig) (w : W)
      → is_known cfg.mode ≡ true
      → 1 ≤ cfg.concurrency
      → ((v : W) → b.context_err v ≡ none)
      → run b cfg w ≡ (
        none,
        timed (windows cfg.mode cfg cfg.measurement) (
            if ltb 0 cfg.warmup then b.reset (all_runs (windows cfg.mode cfg cfg.warmup) w) else w),
      )
  unfolding run
  run-timed cfg w known low calm = run_mode-timed cfg.mode cfg w known low calm

  -- In the modes ramp, step and spike the length of the warm-up has no effect, errors and cancellation
  -- included, as long as there is one.
  pub run-warmup_ignored :
      (m : Mode) (cfg : RunConfig) (longer : ℕ) (w : W)
      → ignores_window m ≡ true
      → 0 < cfg.warmup
      → 0 < longer
      → run_mode b m (record cfg { warmup = longer }) w ≡ run_mode b m cfg w
  unfolding run_mode run_with_warmup measure run_ramp run_step run_spike
  run-warmup_ignored ramp cfg longer w which h k = ground arith
  run-warmup_ignored stepped cfg longer w which h k = ground arith
  run-warmup_ignored spike cfg longer w which h k = ground arith
  run-warmup_ignored _ cfg longer w which h k = absurd (cc)
