-- ===== src/Metrics/Sampler/Tests.antt =====
-- A run of internal/metrics/sampler.go in which the collector fails once.
use browser_analysis.Prelude.{ℕ, ◌≡◌, refl, true, false, List, [], ◌∷◌, Option, none, some}
use browser_analysis.Prelude.Double.{nat_double}
use browser_analysis.Metrics.Sampler.{
  HostSnapshot, new_sampler, record_snapshot, run_ticks, write_csv, aggregates,
}

abbrev snapshot : ℕ → ℕ → HostSnapshot ℕ
snapshot cpu ram = record { cpu_percent = cpu; ram_used_bytes = ram }

abbrev ticks : List (Option (HostSnapshot ℕ))
ticks = some (snapshot 10 500) ∷ none ∷ some (snapshot 30 900) ∷ some (snapshot 20 700) ∷ []

-- Before the CSV is written the aggregates are those of no sample.
peaks :
    ((aggregates (write_csv true (run_ticks ticks new_sampler))).peak_ram ≡ 900)
    × ((aggregates (write_csv false (run_ticks ticks new_sampler))).peak_ram ≡ 0)
unfolding aggregates write_csv run_ticks record_snapshot new_sampler
peaks = (refl, refl)
