-- ===== src/Cli/Tests.antt =====
-- Runs of the command line of cmd/bench.
use browser_analysis.Prelude.{
  ℕ, ◌+◌, ◌≡◌, refl, Bool, true, false, List, [], ◌∷◌, Option, none, some, ◌⊎◌, inl, inr, map, All,
  ◌==◌, if◌then◌else◌,
}
use browser_analysis.Prelude.Int.{ℤ, pos, negsuc, pos_part}
use browser_analysis.Prelude.Text.{Text, codes}
use browser_analysis.Prelude.Double.{nat_double}
use browser_analysis.Config.{Config, defaults, load, check_loaded, judge, validate}
use browser_analysis.Config.Valid.{defaults-IsValid}
use browser_analysis.Cli.Args.{parse_list, atoi}
use browser_analysis.Cli.Args.RoundTrip.{IsName, join_names, parse_list_names}
use browser_analysis.Cli.Flags.{Flags, RunOptions, default_flags, options_of, run_config_from_flags}
use browser_analysis.Cli.Flags.Valid.{IsRunnable, options-IsRunnable}
use browser_analysis.Cli.Quick.{Cell, cmd_quick}
use browser_analysis.Cli.Quick.Cells.{until_error, quick_cells, Runs, cmd_quick_cells}
use browser_analysis.Cli.Sweep.{Measured, Row, sweep_scenario}
use browser_analysis.Cli.Samples.{measured}
use browser_analysis.Workflow.{Workflow, get}

listed : parse_list (codes " a, ,b c,") ≡ codes "a" ∷ codes "b c" ∷ []
unfolding parse_list
listed = refl

numbers :
    map atoi (codes "12" ∷ codes "-3" ∷ codes "1x" ∷ codes "9223372036854775808" ∷ [])
    ≡ (pos 12, true) ∷ (negsuc 2, true) ∷ (pos 0, false) ∷ (pos 9223372036854775807, false) ∷ []
unfolding atoi
numbers = refl

parse_list_names_example :
    All IsName (parse_list (codes " a, ,b c,"))
    × ((names : List Text) → All IsName names → parse_list (join_names names) ≡ names)
    × (parse_list (join_names (parse_list (codes " a, ,b c,"))) ≡ parse_list (codes " a, ,b c,"))
parse_list_names_example = parse_list_names (codes " a, ,b c,")

-- A file that sets nothing.
abbrev read : Text → ℕ ⊎ Text
read path = inr []

abbrev decode_nothing : Text → Config → Config × Option ℕ
decode_nothing content c = (c, none)

abbrev flags : Flags
flags = record default_flags { concurrency = pos 7; scenario = codes "cdp" }

abbrev seven : Config
seven = record defaults {
  scenario = codes "cdp";
  concurrency = record defaults.concurrency { logical_tasks = pos 7 };
}

abbrev complex : Workflow
complex = elim (get (codes "complex")) [ none ↦ record { name = []; steps = [] } | some w ↦ w ]

options-IsRunnable_example :
    ((load read decode_nothing (codes "bench.yaml")).1 ≡ none)
    × IsRunnable flags
        (load read decode_nothing (codes "bench.yaml")).0
        (options_of flags seven complex)
options-IsRunnable_example =
    options-IsRunnable read decode_nothing flags (options_of flags seven complex) found
  where
    found : run_config_from_flags read decode_nothing flags ≡ inr (options_of flags seven complex)
    found = unfold run_config_from_flags load defaults get check_loaded judge validate in refl

-- A run that fails at the level 50.
abbrev quick_run : Cell → ℕ → (ℕ ⊎ ℕ) × ℕ
quick_run k w =
    let lvl = pos_part k.config.concurrency.logical_tasks in
    (if lvl == 50 then inl w else inr w, w + lvl)

abbrev options : RunOptions
options = options_of flags seven complex

quick_stops : cmd_quick quick_run (inr options) 0 ≡ (some 11, 61)
unfolding cmd_quick
quick_stops = refl

cmd_quick_cells_example :
    (cmd_quick quick_run (inr (options_of flags defaults complex)) 0
      ≡ until_error quick_run (quick_cells (options_of flags defaults complex)) 0)
    × All Runs (quick_cells (options_of flags defaults complex))
cmd_quick_cells_example =
    cmd_quick_cells quick_run (options_of flags defaults complex) 0 defaults-IsValid

abbrev sweep_run : Text → ℤ → ℕ → ℕ → (ℕ ⊎ Measured ℕ) × ℕ
sweep_run scenario lvl rep w = (inr (measured lvl), w + 1)

-- With a ceiling of 6 GB, the peaks of 5 GB and 10 GB let the levels 5 and 10 run, and not 25.
abbrev ladder : List Text
ladder = codes "5" ∷ codes "10" ∷ codes "25" ∷ codes "50" ∷ []

abbrev rows : List (Row ℕ)
unfolding sweep_scenario
rows = elim (sweep_scenario sweep_run 2 6 (codes "http") (codes "8") ladder 0).0 [
  | inl e ↦ []
  | inr got ↦ got
]

abbrev shape : Row ℕ → ℤ × ℕ × Bool
shape r = (r.concurrency, r.rep, r.not_run)

outcome :
    map shape rows
    ≡ (pos 8, 0, false)
      ∷ (pos 5, 1, false)
      ∷ (pos 5, 2, false)
      ∷ (pos 10, 1, false)
      ∷ (pos 10, 2, false)
      ∷ (pos 25, 0, true)
      ∷ (pos 50, 0, true)
      ∷ []
unfolding sweep_scenario
outcome = refl
