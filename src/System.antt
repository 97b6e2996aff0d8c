-- ===== src/System.antt =====
-- internal/system/collector_windows.go: the memory of a process tree, and the share of the host's CPUs.
-- What the Windows API gives is an argument. The collector for other systems gives zeros.
pub mod Tree
pub mod Busy
mod Tests
use browser_analysis.Prelude.{
  ℕ, ◌+◌, ◌-◌, ◌%◌, Bool, true, false, List, [], ◌∷◌, Option, none, some, ltb, ◌==◌, if◌then◌else◌,
}
use browser_analysis.Prelude.Double.{Double}
use browser_analysis.Prelude.Word.{u64_mod, add64}
use browser_analysis.Process.{Entry}
use browser_analysis.Process.Collector.{sub64}
use browser_analysis.Process.Ownership.{Ownership, by_pid, is_owned}

-- The walk up from a parent is the loop of `Classify`, with the root as the controller.
abbrev pub rooted_at : ℕ → Ownership
rooted_at root = record { controller_pid = root; target_pid = 0 }

module _ {F : Type 0} where
  -- The map `procs`: of two rows with one PID the later is kept.
  unfoldable pub put_process : Entry F → List (Entry F) → List (Entry F)
  put_process e [] = e ∷ []
  put_process e (p ∷ ps) =
      let rest = put_process e ps in if p.pid == e.pid then e ∷ ps else p ∷ rest

  unfoldable pub processes : List (Entry F) → List (Entry F) → List (Entry F)
  unfolding put_process
  processes ps [] = ps
  processes ps (e ∷ es) = processes (put_process e ps) es

  unfoldable pub add_tree : ℕ → List (Entry F) → ℕ → List (Entry F) → ℕ → Option ℕ
  unfolding is_owned
  add_tree root procs fuel [] total = some total
  add_tree root procs fuel (e ∷ es) total = elim (is_owned (rooted_at root) procs fuel e.ppid) [
    | none ↦ none
    | some b ↦
        add_tree root procs fuel es (elim b [ true ↦ add64 total e.rss_bytes | false ↦ total ])
  ]

  -- `procs[rootPID].rss`, of a zero value if there is no such process.
  abbrev pub memory_at : List (Entry F) → ℕ → ℕ
  memory_at procs root = elim (by_pid procs root) [ none ↦ 0 | some e ↦ e.rss_bytes ]

  -- `TreeRSS`, once there is a snapshot; `fuel` is for each walk.
  unfoldable pub tree_rss : ℕ → List (Entry F) → ℕ → Option ℕ
  unfolding add_tree processes by_pid
  tree_rss root rows fuel =
      let procs = processes [] rows in add_tree root procs fuel procs (memory_at procs root)

-- `Collector`, with whether there was a sample before.
pub record HostCollector : Type 0 where
  pub sampled : Bool
  pub last_idle : ℕ
  pub last_kernel : ℕ
  pub last_user : ℕ

-- Ticks of 100 ns.
pub record SystemTimes : Type 0 where
  pub idle : ℕ
  pub kernel : ℕ
  pub user : ℕ

pub record Memory : Type 0 where
  pub total_phys : ℕ
  pub avail_phys : ℕ
  pub total_page_file : ℕ
  pub avail_page_file : ℕ

-- `Snapshot`, less the time and the counts of processes and threads.
pub record HostSample (F : Type 0) : Type 0 where
  pub cpu_percent : F
  pub ram_used_bytes : ℕ
  pub ram_total_bytes : ℕ
  pub process_rss_bytes : ℕ
  pub swap_used_bytes : ℕ

-- Busy and total ticks since the sample before.
unfoldable pub busy_of : HostCollector → SystemTimes → ℕ × ℕ
busy_of c t =
    let idle = sub64 t.idle c.last_idle in
    let kernel = sub64 t.kernel c.last_kernel in
    let user = sub64 t.user c.last_user in (add64 (sub64 kernel idle) user, add64 kernel user)

abbrev pub remembered : SystemTimes → HostCollector
remembered t = record {
  sampled = true;
  last_idle = t.idle;
  last_kernel = t.kernel;
  last_user = t.user;
}

module _ {F : Type 0} ⦃d : Double F⦄ where
  unfoldable pub cpu_of : HostCollector → SystemTimes → F
  unfolding busy_of
  cpu_of c t =
      let (busy, total) = busy_of c t in
      let zero = d.of_nat 0 in
      if c.sampled
      then (if ltb 0 total
          then d.fdiv (d.fmul (d.of_nat 100) (d.of_nat busy)) (d.of_nat total)
          else zero)
      else zero

  -- `Sample`: an error of the times leaves the collector as it is, one of the memory does not.
  unfoldable pub sample_host :
      HostCollector → Option SystemTimes → Option Memory → ℕ → Option (HostSample F) × HostCollector
  unfolding cpu_of
  sample_host c none mem rss = (none, c)
  sample_host c (some t) none rss = (none, remembered t)
  sample_host c (some t) (some m) rss = (
    some (record {
      cpu_percent = cpu_of c t;
      ram_used_bytes = sub64 m.total_phys m.avail_phys;
      ram_total_bytes = m.total_phys;
      process_rss_bytes = rss;
      swap_used_bytes = sub64 m.total_page_file m.avail_page_file;
    }),
    remembered t,
  )
