-- ===== src/Cli/Sweep/Ladder.antt =====
-- How a sweep of cmd/bench/commands.go climbs its levels.
use browser_analysis.Prelude.{
  ℕ, suc, ◌≡◌, true, false, List, [], ◌∷◌, ◌++◌, ◌⊎◌, map, ltb, if◌then◌else◌,
}
use browser_analysis.Prelude.Int.{ℤ}
use browser_analysis.Prelude.Text.{Text}
use browser_analysis.Prelude.Double.{Double}
use browser_analysis.Cli.Args.{atoi}
use browser_analysis.Cli.Sweep.{
  Measured, Row, Total, Sweeping, ◌>>=◌, pure, baseline_row, not_run_row, row_of, repeat_cell,
  exceeds, safety_loop,
}
use browser_analysis.Cli.Sweep.Baseline.{Collected, IsAverage}

module _ {F E W : Type 0} ⦃d : Double F⦄ (run : Text → ℤ → ℕ → W → (E ⊎ Measured F) × W) (reps : ℕ)
    (max_gb : F) (scenario : Text) where
  abbrev pub peak_of : ℕ → List (Measured F) → ℕ
  peak_of peak [] = peak
  peak_of peak (m ∷ ms) =
      peak_of (if ltb peak m.summary.peak_ram then m.summary.peak_ram else peak) ms

  abbrev pub rows_from : ℤ → Total F → ℕ → List (Measured F) → List (Row F)
  rows_from lvl base r [] = []
  rows_from lvl base r (m ∷ ms) = row_of scenario lvl base r m ∷ rows_from lvl base (suc r) ms

  -- The climb over levels from a world to a world, after a level with a given peak: a level is run
  -- if that peak is not above the ceiling, all its repetitions, with a row for each; otherwise it
  -- and all after it have a row that says they were not run, and the world stays.
  pub data Climbs (base : Total F) : ℕ → List Text → W → List (Row F) → W → Type 0 where
    top : {p : ℕ} {w : W} → Climbs base p [] w [] w
    held :
        {p : ℕ} {t : Text} {ts : List Text} {w : W}
        → exceeds run reps max_gb p ≡ true
        → Climbs base p (t ∷ ts) w (map (not_run_row scenario) (t ∷ ts)) w
    climbed :
        {p : ℕ} {t : Text} {ts : List Text} {w w' w'' : W} {ms : List (Measured F)}
        {rows : List (Row F)}
        → exceeds run reps max_gb p ≡ false
        → Collected run reps max_gb scenario (atoi t).0 reps 1 w ms w'
        → Climbs base (peak_of 0 ms) ts w' rows w''
        → Climbs base p (t ∷ ts) w (rows_from (atoi t).0 base 1 ms ++ rows) w''

  -- What the repetitions of a level come to.
  abbrev Repeated : ℤ → Total F → ℕ → ℕ → ℕ → W → List (Row F) × ℕ → W → Type 0
  Repeated lvl base k r peak w out w' =
      (ms : List (Measured F)) × Collected run reps max_gb scenario lvl k r w ms w'
      × (out ≡ (rows_from lvl base r ms, peak_of peak ms))

  -- What `repeat_cell` and `safety_loop` do after a first part.
  abbrev repeat_next : ℤ → Total F → ℕ → ℕ → ℕ → Measured F → Sweeping E W (List (Row F) × ℕ)
  repeat_next lvl base k r peak m = do
    rest ←
        repeat_cell run reps max_gb scenario lvl base k (suc r)
          (if ltb peak m.summary.peak_ram then m.summary.peak_ram else peak)
    pure (row_of scenario lvl base r m ∷ rest.0, rest.1)

  module _ (base : Total F) (levels : List Text) where
    abbrev loop_next : List Text → List (Row F) × ℕ → Sweeping E W (List (Row F))
    loop_next ts ran = do
      rest ← safety_loop run reps max_gb scenario base levels ran.1 ts
      pure (ran.0 ++ rest)

  -- What one scenario gives: the row of the baseline, and those of the climb, which no
  -- peak precedes.
  abbrev pub IsSwept : Text → List Text → W → List (Row F) → W → Type 0
  IsSwept first ts w rows w' =
      (base : Total F) × (w1 : W) × IsAverage run reps max_gb scenario (atoi first).0 w base w1
      × (rest : List (Row F)) × (rows ≡ baseline_row scenario (atoi first).0 base ∷ rest)
      × Climbs base 0 ts w1 rest w'
