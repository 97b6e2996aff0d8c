-- ===== src/Cli/Report/Tests.antt =====
-- Groups of three runs, and of the cells of two scenarios.
use browser_analysis.Prelude.{ℕ, ◌≡◌, refl, true, ◌&&◌, List, [], ◌∷◌, count_if}
use browser_analysis.Prelude.Int.{ℤ, pos}
use browser_analysis.Prelude.Text.{Text, codes, eq_text}
use browser_analysis.Prelude.Double.{nat_double}
use browser_analysis.Prelude.Dict.{look_up, text_eq, int_eq}
use browser_analysis.Cli.Report.{or_empty, group_runs, analyze_sweep}
use browser_analysis.Cli.Report.Groups.{
  or_no_line, sums_of, runs_at, analyze_sweep_counts, group_runs_sums,
}
use browser_analysis.Cli.Runs.{RunAgg}
use browser_analysis.Cli.Samples.{run_at}
use browser_analysis.Cli.Sweep.{Row, empty_row}
use browser_analysis.Results.{no_resources}

abbrev run_of : Text → ℤ → RunAgg ℕ
run_of s c = record { id = s; summary = run_at s c; resource = no_resources }

abbrev runs : List (RunAgg ℕ)
runs =
    run_of (codes "http") (pos 5)
    ∷ run_of (codes "cdp") (pos 5)
    ∷ run_of (codes "http") (pos 5)
    ∷ []

abbrev cells : List (Row ℕ)
cells =
    empty_row (codes "http") (pos 5)
    ∷ record (empty_row (codes "http") (pos 10)) { saturated = true }
    ∷ empty_row (codes "cdp") (pos 5)
    ∷ []

lines :
    (analyze_sweep cells).1
    ≡ (codes "http", record { cells = 2; saturated = 1 })
      ∷ (codes "cdp", record { cells = 1; saturated = 0 })
      ∷ []
unfolding analyze_sweep
lines = refl

analyze_sweep_counts_example :
    or_no_line (look_up (codes "http") (analyze_sweep cells).1) ≡ record {
      cells = count_if (λ (c : Row ℕ). eq_text c.scenario (codes "http")) cells;
      saturated = count_if (λ (c : Row ℕ). c.saturated && eq_text c.scenario (codes "http")) cells;
    }
analyze_sweep_counts_example = analyze_sweep_counts (codes "http") cells

group_runs_sums_example :
    look_up (pos 5) (or_empty (look_up (codes "http") (group_runs runs)))
    ≡ sums_of (runs_at (codes "http") (pos 5) runs)
group_runs_sums_example = group_runs_sums (codes "http") (pos 5) runs
