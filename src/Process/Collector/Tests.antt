-- ===== src/Process/Collector/Tests.antt =====
-- Two samples of internal/process/collector_windows.go, one second apart: PID 7 has used half a second,
-- PID 8 has been taken by another process, PID 9 cannot be read.
use browser_analysis.Prelude.{ℕ, ◌≡◌, refl, List, [], ◌∷◌, Option, none, some, map, All}
use browser_analysis.Prelude.Text.{codes}
use browser_analysis.Prelude.Double.{nat_double}
use browser_analysis.Prelude.Dict.{look_up, nat_eq}
use browser_analysis.Process.{Entry}
use browser_analysis.Process.Collector.{Seen, Last, fill_times, sample_rows, sample}
use browser_analysis.Process.Collector.Shares.{InRange, IsFresh, latest, sample_shares}

abbrev row : ℕ → Option (ℕ × ℕ × ℕ) → Seen
row pid times = record {
  pid = pid;
  ppid = 1;
  name = codes "chrome.exe";
  threads = 3;
  times = times;
  working_set = some 4096;
}

abbrev before : Last
before =
    (7, record { at = 0; user = 10; kern = 20; create = 5 })
    ∷ (8, record { at = 0; user = 10; kern = 20; create = 5 })
    ∷ []

abbrev table : List Seen
table = row 7 (some (5, 1020, 3010)) ∷ row 8 (some (6, 40, 90)) ∷ row 9 none ∷ []

abbrev pid_of : Entry ℕ → ℕ
pid_of e = e.pid

sampled : map pid_of (sample_rows {F = ℕ} 8 before 1_000_000_000 table).0 ≡ 7 ∷ 8 ∷ 9 ∷ []
unfolding sample_rows
sampled = refl

sample_shares_example :
    All
      (λ (e : Entry ℕ). InRange {F = ℕ} e.cpu_percent)
      (sample {F = ℕ} 8 before 1_000_000_000 table).0.entries
    × ((pid : ℕ)
        → look_up pid (sample {F = ℕ} 8 before 1_000_000_000 table).1
          ≡ latest 1_000_000_000 pid (look_up pid before) table)
    × ((pid create kern user : ℕ)
        → IsFresh (look_up pid before) create
        → (fill_times {F = ℕ} 8 before pid 1_000_000_000 (some (create, kern, user))).0.0 ≡ 0)
sample_shares_example =
    sample_shares ℕ 8 (record { zero_zero = refl; hundred_zero = refl; hundred_hundred = refl })
      before 1_000_000_000 table
