-- ===== src/Cli/Quick.antt =====
-- cmd/bench/commands.go: `cmdRun` and `cmdQuick`, over a run of the controller that is a parameter.
pub mod Cells
use browser_analysis.Prelude.{
  ℕ, Bool, true, false, List, [], ◌∷◌, Option, none, some, ◌⊎◌, inl, inr, if◌then◌else◌,
}
use browser_analysis.Prelude.Int.{ℤ, pos, ltb_ℤ}
use browser_analysis.Prelude.Text.{Text, codes, is_empty}
use browser_analysis.Config.{Config}
use browser_analysis.Workflow.{Workflow}
use browser_analysis.Cli.Flags.{Flags, FlagError, RunOptions, run_config_from_flags}

-- The options that differ from run to run.
pub record Cell : Type 0 where
  pub config : Config
  pub workflow : Workflow
  pub mode : Text
  pub repetition : ℤ

-- `cmdRun` returns an error, nothing, or not at all, since it serves the metrics.
pub data Done {ℓ} (E S : Type ℓ) : Type ℓ where
  error : E → Done E S
  printed serving : S → Done E S

unfoldable pub quick_levels : List ℤ
quick_levels = pos 1 ∷ pos 10 ∷ pos 50 ∷ pos 100 ∷ []

unfoldable pub quick_scenarios : List Text
quick_scenarios =
    codes "http" ∷ codes "headless" ∷ codes "persistent-contexts" ∷ codes "headed" ∷ []

-- The configuration of `cmdQuick` before its loops.
unfoldable pub quick_config : Config → Config
quick_config c =
    let short = record c {
      timing = record {
        warmup_seconds = pos 1;
        measurement_seconds = pos 5;
        cooldown_seconds = pos 1;
      };
    } in
    if ltb_ℤ (pos 10) c.concurrency.browser_worker_limit
    then record short { concurrency = record c.concurrency { browser_worker_limit = pos 10 } }
    else short

abbrev pub cell_config : Config → Text → ℤ → Config
cell_config c scenario lvl = record c {
  scenario = scenario;
  concurrency = record c.concurrency { logical_tasks = lvl };
}

module _ {E S W : Type 0} (run : Cell → W → (E ⊎ S) × W) where
  -- `cmdRun` with the options that the flags gave.
  unfoldable pub cmd_run : E ⊎ RunOptions → W → Done E S × W
  cmd_run (inl e) w = (error e, w)
  cmd_run (inr o) w =
      let (got, w') =
        run
          (record {
            config = o.config;
            workflow = o.workflow;
            mode = o.mode;
            repetition = o.repetition;
          })
          w in
      elim got [
        | inl e ↦ (error e, w')
        | inr s ↦ (if is_empty o.metrics_addr then printed s else serving s, w')
      ]

  -- The inner loop of `cmdQuick`. The configuration keeps what a round sets.
  unfoldable pub run_levels : RunOptions → Text → List ℤ → Config → W → (E ⊎ Config) × W
  run_levels o scenario [] c w = (inr c, w)
  run_levels o scenario (lvl ∷ lvls) c w =
      let c' = cell_config c scenario lvl in
      let (got, w') =
        run
          (record {
            config = c';
            workflow = o.workflow;
            mode = codes "fixed";
            repetition = o.repetition;
          })
          w in
      elim got [ inl e ↦ (inl e, w') | inr s ↦ run_levels o scenario lvls c' w' ]

  -- The outer loop.
  unfoldable pub run_scenarios : RunOptions → List Text → Config → W → Option E × W
  unfolding run_levels quick_levels
  run_scenarios o [] c w = (none, w)
  run_scenarios o (s ∷ ss) c w =
      let (got, w') = run_levels o s quick_levels c w in
      elim got [ inl e ↦ (some e, w') | inr c' ↦ run_scenarios o ss c' w' ]

  unfoldable pub cmd_quick : E ⊎ RunOptions → W → Option E × W
  unfolding run_scenarios quick_scenarios quick_config
  cmd_quick (inl e) w = (some e, w)
  cmd_quick (inr o) w = run_scenarios o quick_scenarios (quick_config o.config) w
