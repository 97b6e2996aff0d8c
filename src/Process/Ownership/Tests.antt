-- ===== src/Process/Ownership/Tests.antt =====
-- Runs of internal/process/ownership.go on small process tables: a controller (100) that has started
-- a browser with a renderer and a GPU process, a target, a process that is none of its own, and two
-- processes that are each other's recorded parent.
use mathlib.Core.Option
use browser_analysis.Prelude.{
  ℕ, ◌<◌, ◌≡◌, refl, ◌≢◌, ◌↔◌, ◌⊎◌, inl, inr, true, false, List, [], ◌∷◌, some, map, arith, All,
}
use browser_analysis.Prelude.Text.{Text, codes}
use browser_analysis.Process.{
  Entry, Snapshot, unknown, controller, browser, renderer, utility, target,
}
use browser_analysis.Process.Ownership.{
  Ownership, by_pid, is_owned, is_chromium_name, role_from_name, owned_role, role_of, classify,
}
use browser_analysis.Process.Ownership.Walk.{Descends, is_owned-iff_Descends}
use browser_analysis.Process.Ownership.Roles.{IsRight}
use browser_analysis.Process.Ownership.Classify.{classify-IsRight}

abbrev proc : ℕ → ℕ → Text → Entry ℕ
proc pid ppid name = record {
  pid = pid;
  ppid = ppid;
  name = name;
  cpu_percent = 1;
  rss_bytes = pid;
  thread_count = 1;
  access_denied = false;
  role = unknown;
}

abbrev owner : Ownership
owner = record { controller_pid = 100; target_pid = 7 }

abbrev gpu_process : Entry ℕ
gpu_process = proc 103 101 (codes "Chrome GPU")

abbrev table : Snapshot ℕ
table = record {
  captured_at = 5;
  entries =
      proc 0 0 (codes "idle")
      ∷ proc 100 1 (codes "bench")
      ∷ proc 101 100 (codes "chrome.exe")
      ∷ proc 102 101 (codes "chrome --type=renderer")
      ∷ gpu_process
      ∷ proc 104 101 (codes "crashpad")
      ∷ proc 7 1 (codes "target")
      ∷ proc 8 1 (codes "editor")
      ∷ [];
}

classify_runs :
    Option.map
      (λ (s : Snapshot ℕ). map (λ (e : Entry ℕ). e.role) s.entries)
      (classify owner 9 table)
    ≡ some (unknown ∷ controller ∷ browser ∷ renderer ∷ renderer ∷ utility ∷ target ∷ unknown ∷ [])
unfolding classify is_chromium_name by_pid is_owned role_of owned_role role_from_name
classify_runs = refl

abbrev classified : Snapshot ℕ
classified = record table {
  entries =
      record (proc 0 0 (codes "idle")) { role = unknown }
      ∷ record (proc 100 1 (codes "bench")) { role = controller }
      ∷ record (proc 101 100 (codes "chrome.exe")) { role = browser }
      ∷ record (proc 102 101 (codes "chrome --type=renderer")) { role = renderer }
      ∷ record gpu_process { role = renderer }
      ∷ record (proc 104 101 (codes "crashpad")) { role = utility }
      ∷ record (proc 7 1 (codes "target")) { role = target }
      ∷ record (proc 8 1 (codes "editor")) { role = unknown }
      ∷ [];
}

table-classified : classify owner 9 table ≡ some classified
unfolding classify is_chromium_name by_pid is_owned role_of owned_role role_from_name
table-classified = refl

classify-IsRight_example :
    All (λ (e : Entry ℕ). IsRight owner table.entries e.pid e.role) classified.entries
classify-IsRight_example = classify-IsRight owner 9 table table-classified

is_owned-iff_Descends_example : (true ≡ true) ↔ Descends owner table.entries 103
unfolding is_owned by_pid
is_owned-iff_Descends_example = is_owned-iff_Descends owner table.entries 9 103 true refl

-- In the table each parent has a smaller PID.
table_falls : (pid : ℕ) (e : Entry ℕ) → pid ≢ 0 → by_pid table.entries pid ≡ some e → e.ppid < pid
unfolding by_pid
table_falls pid e nz f = ground arith

-- Two recorded parents that name each other.
abbrev cyclic : List (Entry ℕ)
cyclic = proc 50 51 (codes "a") ∷ proc 51 50 (codes "b") ∷ []

abbrev InCycle : ℕ → Type 0
InCycle pid = (pid ≡ 50) ⊎ (pid ≡ 51)

cyclic_closed :
    (pid : ℕ)
    → InCycle pid
    → (e : Entry ℕ) × (pid ≢ 0) × (pid ≢ 100) × (by_pid cyclic pid ≡ some e) × InCycle e.ppid
unfolding by_pid
cyclic_closed pid (inl h) =
    (proc 50 51 (codes "a"), omega arith, omega arith, ground arith, inr refl)
cyclic_closed pid (inr h) =
    (proc 51 50 (codes "b"), omega arith, omega arith, ground arith, inl refl)
