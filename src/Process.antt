-- ===== src/Process.antt =====
-- internal/process/process.go: the process table at one instant.
pub mod Ownership
pub mod Collector
pub mod Monitor
use browser_analysis.Prelude.{ℕ, Bool, List}
use browser_analysis.Prelude.Text.{Text}

pub data Role : Type 0 where
  unknown controller browser renderer utility gpu target aux : Role

-- One OS process. PIDs are uint32, `rss_bytes` is uint64; `F` is float64.
pub record Entry (F : Type 0) : Type 0 where
  pub pid : ℕ
  pub ppid : ℕ
  pub name : Text
  pub cpu_percent : F
  pub rss_bytes : ℕ
  pub thread_count : ℕ
  pub access_denied : Bool
  pub role : Role

pub record Snapshot (F : Type 0) : Type 0 where
  pub captured_at : ℕ
  pub entries : List (Entry F)
