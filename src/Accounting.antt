-- ===== src/Accounting.antt =====
-- internal/accounting/accounting.go: `Sample` and `Aggregate`, which reduce a process snapshot to
-- sums by role. Sums of uint64 wrap around; the counters are bounded by the number of processes.
pub mod Aggregate
pub mod Stats
pub mod Aggregator
mod Tests
use browser_analysis.Prelude.{ℕ, suc, ◌+◌, List, [], ◌∷◌, length}
use browser_analysis.Prelude.Word.{add64}
use browser_analysis.Prelude.Double.{Double}
use browser_analysis.Process.{
  Role, Entry, Snapshot, unknown, controller, browser, renderer, utility, gpu, target, aux,
}

-- `F` is float64. `timestamp_unix` is the capture time in seconds.
pub record Sample (F : Type 0) : Type 0 where
  pub timestamp_unix : ℕ
  pub controller_rss : ℕ
  pub browser_rss : ℕ
  pub target_rss : ℕ
  pub aux_rss : ℕ
  pub benchmark_rss : ℕ
  pub controller_cpu : F
  pub browser_cpu : F
  pub target_cpu : F
  pub benchmark_cpu : F
  pub total_processes : ℕ
  pub browser_processes : ℕ
  pub renderer_processes : ℕ
  pub utility_processes : ℕ
  pub gpu_processes : ℕ
  pub controller_processes : ℕ
  pub target_processes : ℕ

module _ {F : Type 0} ⦃d : Double F⦄ where
  pub zero_sample : ℕ → Sample F
  zero_sample t = record {
    timestamp_unix = t;
    controller_rss = 0;
    browser_rss = 0;
    target_rss = 0;
    aux_rss = 0;
    benchmark_rss = 0;
    controller_cpu = d.of_nat 0;
    browser_cpu = d.of_nat 0;
    target_cpu = d.of_nat 0;
    benchmark_cpu = d.of_nat 0;
    total_processes = 0;
    browser_processes = 0;
    renderer_processes = 0;
    utility_processes = 0;
    gpu_processes = 0;
    controller_processes = 0;
    target_processes = 0;
  }

  -- `s.BrowserRSS += …; s.BrowserCPU += …; s.BrowserProcesses++`, which four cases share.
  add_browser : Sample F → Entry F → Sample F
  add_browser s e = record s {
    browser_rss = add64 s.browser_rss e.rss_bytes;
    browser_cpu = d.fadd s.browser_cpu e.cpu_percent;
    browser_processes = suc s.browser_processes;
  }

  -- The `switch` on the role.
  add_as : Role → Sample F → Entry F → Sample F
  unfolding add_browser
  add_as controller s e = record s {
    controller_rss = add64 s.controller_rss e.rss_bytes;
    controller_cpu = d.fadd s.controller_cpu e.cpu_percent;
    controller_processes = suc s.controller_processes;
  }
  add_as browser s e = add_browser s e
  add_as renderer s e = record (add_browser s e) { renderer_processes = suc s.renderer_processes }
  add_as utility s e = record (add_browser s e) { utility_processes = suc s.utility_processes }
  add_as gpu s e = record (add_browser s e) { gpu_processes = suc s.gpu_processes }
  add_as target s e = record s {
    target_rss = add64 s.target_rss e.rss_bytes;
    target_cpu = d.fadd s.target_cpu e.cpu_percent;
    target_processes = suc s.target_processes;
  }
  add_as _ s e = record s { aux_rss = add64 s.aux_rss e.rss_bytes }

  -- The loop over the entries.
  add_entries : Sample F → List (Entry F) → Sample F
  unfolding add_as
  add_entries s [] = s
  add_entries s (e ∷ es) = add_entries (add_as e.role s e) es

  unfoldable pub aggregate : Snapshot F → Sample F
  unfolding add_entries zero_sample
  aggregate snap =
      let s = add_entries (zero_sample snap.captured_at) snap.entries in
      record s {
        benchmark_rss = add64 (add64 (add64 s.controller_rss s.browser_rss) s.target_rss) s.aux_rss;
        benchmark_cpu = d.fadd (d.fadd s.controller_cpu s.browser_cpu) s.target_cpu;
        total_processes = length snap.entries;
      }
