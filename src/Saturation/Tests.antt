-- ===== src/Saturation/Tests.antt =====
-- A run whose latency has tripled.
use browser_analysis.Prelude.{◌≤◌, ℕ, ◌≡◌, refl, ◌↔◌, false, [], ◌∷◌, count_if}
use browser_analysis.Prelude.Double.{nat_double}
use browser_analysis.Saturation.{
  Summary, Thresholds, Violation, cpu, latency_p95, evaluate, failure_rate,
}
use browser_analysis.Saturation.Crossed.{same, Crossed, evaluate_iff}

abbrev base : Summary ℕ
base = record { avg_cpu = 20; p95 = 100; p99 = 200; failed = 0; total_tasks = 50 }

abbrev slow : Summary ℕ
slow = record { avg_cpu = 95; p95 = 300; p99 = 600; failed = 1; total_tasks = 50 }

abbrev limits : Thresholds ℕ
limits = record { cpu_max = 90; p95_factor = 2; p99_factor = 3; failure_rate_max = 1 }

slow_violations : (evaluate slow base limits).violations ≡ cpu ∷ latency_p95 ∷ []
unfolding evaluate failure_rate
slow_violations = refl

evaluate_iff_example :
    ((v : Violation)
      → ((count_if (same v) (evaluate slow base limits).violations ≡ 1)
          ↔ Crossed v slow base limits)
        × (count_if (same v) (evaluate slow base limits).violations ≤ 1))
    × (((evaluate slow base limits).saturated ≡ false)
        ↔ ((evaluate slow base limits).violations ≡ []))
evaluate_iff_example = evaluate_iff slow base limits
