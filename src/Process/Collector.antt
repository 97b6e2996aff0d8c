-- ===== src/Process/Collector.antt =====
-- internal/process/collector_windows.go: the process table with the CPU share of each process since the
-- sample before. What the Windows API gives for a process is an argument.
pub mod Shares
mod Tests
use browser_analysis.Prelude.{
  ℕ, ◌+◌, ◌-◌, ◌%◌, Bool, true, false, not, ◌||◌, List, [], ◌∷◌, Option, none, some, leb, ◌==◌,
  if◌then◌else◌,
}
use browser_analysis.Prelude.Text.{Text}
use browser_analysis.Prelude.Double.{Double}
use browser_analysis.Prelude.Dict.{Dict, look_up, put, nat_eq}
use browser_analysis.Prelude.Word.{u64_mod, add64}
use browser_analysis.Process.{Entry, Snapshot, unknown}

-- `cpuSample`; the creation time is one number, and `at` is in nanoseconds.
pub record CpuSample : Type 0 where
  pub at : ℕ
  pub user : ℕ
  pub kern : ℕ
  pub create : ℕ

-- A row of the snapshot, with what `getProcessTimes` and `getProcessMemoryInfo` give: `none` if the
-- process cannot be opened or read.
pub record Seen : Type 0 where
  pub pid : ℕ
  pub ppid : ℕ
  pub name : Text
  pub threads : ℕ
  pub times : Option (ℕ × ℕ × ℕ)  -- creation, kernel, user
  pub working_set : Option ℕ

-- uint64 a - b.
abbrev pub sub64 : ℕ → ℕ → ℕ
sub64 a b = (a + u64_mod - b) % u64_mod

-- `Collector`: its map `last`.
abbrev pub Last : Type 0
Last = Dict ℕ CpuSample

abbrev pub memory_of : Option ℕ → ℕ × Bool
memory_of none = (0, true)
memory_of (some n) = (n, false)

module _ {F : Type 0} ⦃d : Double F⦄ (num_cpu : ℕ) where
  -- The percent of all cores, between its two bounds.
  pub clamped : F → F
  clamped pct =
      let hundred = d.of_nat 100 in
      let zero = d.of_nat 0 in
      let high = if d.flt hundred pct then hundred else pct in
      if d.flt high zero then zero else high

  pub percent : ℕ → ℕ → F
  percent total elapsed =
      let seconds = d.fdiv (d.of_nat elapsed) (d.of_nat 1_000_000_000) in
      let tick = d.fdiv (d.of_nat 1) (d.of_nat 10_000_000) in
      d.fdiv (d.fdiv (d.fmul (d.of_nat 100) (d.fmul (d.of_nat total) tick)) seconds)
        (d.of_nat num_cpu)

  -- `fillTimes` past its system calls: the share, left at 0 at the first sight of a process and
  -- where no time has passed.
  unfoldable pub share_since : Option CpuSample → ℕ → ℕ × ℕ × ℕ → F
  unfolding clamped percent
  share_since none now (create, kern, user) = d.of_nat 0
  share_since (some prev) now (create, kern, user) =
      let total = add64 (sub64 user prev.user) (sub64 kern prev.kern) in
      if not (prev.create == create) || leb now prev.at
      then d.of_nat 0
      else clamped (percent total (now - prev.at))

  -- `fillTimes`: the share, whether access was denied, and the map after it.
  unfoldable pub fill_times : Last → ℕ → ℕ → Option (ℕ × ℕ × ℕ) → (F × Bool) × Last
  unfolding share_since put look_up
  fill_times last pid now none = ((d.of_nat 0, true), last)
  fill_times last pid now (some (create, kern, user)) = (
    (share_since (look_up pid last) now (create, kern, user), false),
    put pid (record { at = now; user = user; kern = kern; create = create }) last,
  )

  -- One round of `Sample`. Either failure denies access.
  unfoldable pub sample_row : Last → ℕ → Seen → Entry F × Last
  unfolding fill_times
  sample_row last now s =
      let ((share, denied), last') = fill_times last s.pid now s.times in
      let (memory, hidden) = memory_of s.working_set in
      (
        record {
          pid = s.pid;
          ppid = s.ppid;
          name = s.name;
          cpu_percent = share;
          rss_bytes = memory;
          thread_count = s.threads;
          access_denied = denied || hidden;
          role = unknown;
        },
        last',
      )

  unfoldable pub sample_rows : Last → ℕ → List Seen → List (Entry F) × Last
  unfolding sample_row
  sample_rows last now [] = ([], last)
  sample_rows last now (s ∷ ss) =
      let (e, last') = sample_row last now s in
      let (es, last'') = sample_rows last' now ss in (e ∷ es, last'')

  -- `Sample`, once there is a snapshot of the table.
  unfoldable pub sample : Last → ℕ → List Seen → Snapshot F × Last
  unfolding sample_rows
  sample last now seen =
      let (es, last') = sample_rows last now seen in
      (record { captured_at = now; entries = es }, last')
