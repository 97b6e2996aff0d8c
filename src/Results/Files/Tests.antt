-- ===== src/Results/Files/Tests.antt =====
-- The files of a small run of internal/results, on a disk that is full at one file or at none.
use browser_analysis.Prelude.{
  ℕ, ◌≡◌, refl, Bool, true, false, [], ◌∷◌, ◌++◌, Option, none, some, inl, inr, ◌+◌, if◌then◌else◌,
}
use browser_analysis.Prelude.Int.{pos, negsuc}
use browser_analysis.Prelude.Text.{Text, codes}
use browser_analysis.Prelude.Double.{nat_double}
use browser_analysis.Config.{defaults}
use browser_analysis.Metrics.Recorder.{Recorder, new_recorder, snapshot}
use browser_analysis.Results.{browser_rows, browser_rows_from, cell, worker_count_for}
use browser_analysis.Results.Files.{
  hybrid_metrics, Call, create, plain, Printer, new_run_id, hybrid_rows, hybrid_rows_from, rows_for,
  metadata_of, run_calls, checked_csv, counters_csv, write_run_calls, write_run,
}

abbrev printer : Printer ℕ
printer = record {
  itoa = λ z. elim z [ pos n ↦ (48 + n) ∷ [] | negsuc n ↦ codes "-" ];
  format_float = λ k n. (48 + n) ∷ [];
}

abbrev recorder : Recorder ℕ
recorder = record new_recorder { http_step_latencies = 3 ∷ 4 ∷ []; task_rss_deltas = 5 ∷ [] }

-- The error 7 where a file of the hybrid steps is made, if the disk is full.
abbrev disk : Bool → Call ℕ → Option ℕ
disk full (create hybrid_metrics) = if full then some 7 else none
disk full c = none

abbrev stamp : Text
stamp = codes "T"

written :
    (write_run printer (disk false) 0 stamp recorder defaults (codes "w") (pos 1)).1
    ≡ inr (codes "T-http-" ++ 148 ∷ codes "-run01")
unfolding write_run run_calls write_run_calls checked_csv counters_csv new_run_id metadata_of
    defaults worker_count_for rows_for snapshot hybrid_rows hybrid_rows_from browser_rows
    browser_rows_from cell new_recorder
written = refl

full_disk :
    (write_run printer (disk true) 0 stamp recorder defaults (codes "w") (pos 1)).1 ≡ inl (plain, 7)
unfolding write_run run_calls write_run_calls checked_csv counters_csv new_run_id metadata_of
    defaults worker_count_for rows_for snapshot hybrid_rows hybrid_rows_from browser_rows
    browser_rows_from cell new_recorder
full_disk = refl
