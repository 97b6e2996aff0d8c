-- ===== src/System/Tests.antt =====
-- Runs of internal/system/collector_windows.go: the memory of a tree of three processes beside one that
-- is none of them, and two samples of the host.
use browser_analysis.Prelude.{
  ◌≤◌, ℕ, ◌+◌, ◌%◌, ◌<◌, ◌≡◌, ◌≢◌, refl, false, List, [], ◌∷◌, some, arith,
}
use browser_analysis.Prelude.Text.{codes}
use browser_analysis.Prelude.Double.{nat_double}
use browser_analysis.Prelude.Word.{u64_mod}
use browser_analysis.Process.{Entry, unknown}
use browser_analysis.Process.Ownership.{by_pid, is_owned}
use browser_analysis.System.{
  HostCollector, SystemTimes, put_process, processes, add_tree, memory_at, tree_rss, busy_of,
  remembered, cpu_of,
}
use browser_analysis.System.Tree.{Summed, rows_of, tree_rss_sum}

abbrev proc : ℕ → ℕ → ℕ → Entry ℕ
proc pid ppid rss = record {
  pid = pid;
  ppid = ppid;
  name = codes "chrome";
  cpu_percent = 0;
  rss_bytes = rss;
  thread_count = 1;
  access_denied = false;
  role = unknown;
}

abbrev rows : List (Entry ℕ)
rows = proc 4 2 50 ∷ proc 2 1 100 ∷ proc 3 2 20 ∷ proc 4 3 7 ∷ proc 5 1 900 ∷ []

tree_summed : tree_rss 2 rows 9 ≡ some 127
unfolding tree_rss add_tree processes put_process is_owned by_pid
tree_summed = refl

rows_fall : (pid : ℕ) (e : Entry ℕ) → pid ≢ 0 → by_pid rows pid ≡ some e → e.ppid < pid
unfolding by_pid
rows_fall pid e nz f = ground arith

tree_rss_sum_example :
    (n : ℕ) × Summed 2 (processes [] rows) (processes [] rows) n
    × (tree_rss 2 rows 9 ≡ some ((memory_at rows 2 + n) % u64_mod))
    × ((pid : ℕ) → rows_of pid (processes [] rows) ≤ 1)
    × ((pid : ℕ) → by_pid (processes [] rows) pid ≡ by_pid rows pid)
unfolding processes put_process by_pid
tree_rss_sum_example =
    tree_rss_sum 2 rows (λ pid. pid) 9 rows_fall
      (omega arith, (omega arith, (omega arith, (omega arith, tt)))) (omega arith)

abbrev fresh : HostCollector
fresh = record { sampled = false; last_idle = 0; last_kernel = 0; last_user = 0 }

abbrev first : SystemTimes
first = record { idle = 100; kernel = 150; user = 30 }

abbrev second : SystemTimes
second = record { idle = 160; kernel = 230; user = 50 }

share_computed : (cpu_of {F = ℕ} fresh first ≡ 0) × (cpu_of {F = ℕ} (remembered first) second ≡ 40)
unfolding cpu_of busy_of
share_computed = (refl, refl)
