-- ===== src/Cli/Runs/Tests.antt =====
-- Directories of cmd/bench/commands.go: two runs of one cell, of which the sweep says first that it is
-- saturated and then that it is not; a file; and a run without a summary.
use browser_analysis.Prelude.{ℕ, ◌≡◌, refl, Bool, true, false, ◌||◌, List, [], ◌∷◌, ◌++◌, inr, map}
use browser_analysis.Prelude.Int.{pos}
use browser_analysis.Prelude.Text.{Text, codes, eq_text}
use browser_analysis.Prelude.Double.{nat_double}
use browser_analysis.Cli.Runs.{
  DirEntry, Disk, listed, cell_key, RunEntry, list_entries, sweep_summaries,
}
use browser_analysis.Cli.Runs.Verdicts.{
  resources_at, scaling_at, complete, last_verdict, sweep_summaries_verdicts,
}
use browser_analysis.Cli.Samples.{run_at}
use browser_analysis.Cli.Sweep.{Row, empty_row}
use browser_analysis.Results.{no_resources}

abbrev directory : Text → DirEntry
directory name = record { name = name; is_dir = true }

abbrev entries : List DirEntry
entries =
    directory (codes "a")
    ∷ record { name = codes "notes"; is_dir = false }
    ∷ directory (codes "empty")
    ∷ directory (codes "b")
    ∷ []

abbrev disk : Disk ℕ ℕ
disk = record {
  raw = listed entries;
  read_summary = λ name. (
    record { run_id = name; summary = run_at (codes "http") (pos 50) },
    eq_text name (codes "a") || eq_text name (codes "b"),
  );
  read_resources = λ name. (no_resources, true);
}

abbrev cell : Bool → Row ℕ
cell b = record (empty_row (codes "http") (pos 50)) { saturated = b }

abbrev id_of : RunEntry ℕ → Text
id_of r = r.id

found : map id_of (list_entries disk entries) ≡ codes "a" ∷ codes "b" ∷ []
unfolding list_entries
found = refl

sweep_summaries_verdicts_example :
    (sweep_summaries disk (cell true ∷ cell false ∷ [])
      ≡ inr (
        map (resources_at disk) (complete disk entries),
        map (scaling_at disk (cell true ∷ cell false ∷ [])) (complete disk entries),
      ))
    × ((c : Row ℕ)
        → last_verdict (cell_key c) false ((cell true ∷ cell false ∷ []) ++ c ∷ []) ≡ c.saturated)
sweep_summaries_verdicts_example =
    sweep_summaries_verdicts disk entries (cell true ∷ cell false ∷ []) refl
