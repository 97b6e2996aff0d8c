-- ===== src/Metrics/Sampler.antt =====
-- internal/metrics/sampler.go: host samples and their aggregates. The collector and the CSV writer are
-- parameters; a tick is what the collector gives, `none` for an error.
pub mod Peak
mod Tests
use browser_analysis.Prelude.{
  ℕ, ◌-◌, Bool, true, false, List, [], ◌∷◌, ◌++◌, Option, none, some, length, if◌then◌else◌, ltb,
}
use browser_analysis.Prelude.Double.{Double}

-- The fields of `system.Snapshot` that the aggregates read.
pub record HostSnapshot (F : Type 0) : Type 0 where
  pub cpu_percent : F
  pub ram_used_bytes : ℕ

pub record Aggregates (F : Type 0) : Type 0 where
  pub peak_cpu : F
  pub avg_cpu : F
  pub peak_ram : ℕ
  pub avg_ram : ℕ

pub record Sampler (F : Type 0) : Type 0 where
  pub samples : List (HostSnapshot F)
  pub current : Aggregates F
  pub summary : Aggregates F

module _ {F : Type 0} ⦃d : Double F⦄ where
  abbrev pub no_aggregates : Aggregates F
  no_aggregates = record { peak_cpu = d.of_nat 0; avg_cpu = d.of_nat 0; peak_ram = 0; avg_ram = 0 }

  unfoldable pub new_sampler : Sampler F
  new_sampler = record { samples = []; current = no_aggregates; summary = no_aggregates }

  -- `avg*(n-1)/n + x/n`.
  abbrev pub moved : F → F → F → F
  moved n avg x = d.fadd (d.fdiv (d.fmul avg (d.fsub n (d.of_nat 1))) n) (d.fdiv x n)

  -- `record`.
  unfoldable pub record_snapshot : HostSnapshot F → Sampler F → Sampler F
  record_snapshot snap s =
      let samples = s.samples ++ snap ∷ [] in
      let n = d.of_nat (length samples) in
      let a = s.current in
      record s {
        samples = samples;
        current = record {
          peak_cpu = if d.flt a.peak_cpu snap.cpu_percent then snap.cpu_percent else a.peak_cpu;
          avg_cpu = moved n a.avg_cpu snap.cpu_percent;
          peak_ram = if ltb a.peak_ram snap.ram_used_bytes then snap.ram_used_bytes else a.peak_ram;
          avg_ram = d.to_u64 (moved n (d.of_nat a.avg_ram) (d.of_nat snap.ram_used_bytes));
        };
      }

  -- The loop of `Run`, on what the collector gives at each tick.
  unfoldable pub run_ticks : List (Option (HostSnapshot F)) → Sampler F → Sampler F
  unfolding record_snapshot
  run_ticks [] s = s
  run_ticks (none ∷ ticks) s = run_ticks ticks s
  run_ticks (some snap ∷ ticks) s = run_ticks ticks (record_snapshot snap s)

  -- `WriteCSV`, on whether the file is written; and `Aggregates`.
  unfoldable pub write_csv : Bool → Sampler F → Sampler F
  write_csv true s = record s { summary = s.current }
  write_csv false s = s

  unfoldable pub aggregates : Sampler F → Aggregates F
  aggregates s = s.summary
