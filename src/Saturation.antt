-- ===== src/Saturation.antt =====
-- internal/saturation/saturation.go: a run against its baseline and the thresholds. Of a run's summary
-- the record has the fields that the test reads.
pub mod Crossed
mod Tests
use browser_analysis.Prelude.{
  ℕ, Bool, true, false, ◌&&◌, List, [], ◌∷◌, ◌++◌, arith, if◌then◌else◌, ◌==◌,
}
use browser_analysis.Prelude.Double.{Double}

pub record Summary (F : Type 0) : Type 0 where
  pub avg_cpu : F
  pub p95 : F
  pub p99 : F
  pub failed : ℕ
  pub total_tasks : ℕ

pub record Thresholds (F : Type 0) : Type 0 where
  pub cpu_max : F
  pub p95_factor : F
  pub p99_factor : F
  pub failure_rate_max : F

-- The names in `Violations`.
pub data Violation : Type 0 where
  cpu latency_p95 latency_p99 failures : Violation

pub record Evaluation (F : Type 0) : Type 0 where
  pub saturated : Bool
  pub violations : List Violation
  pub baseline_p95 : F
  pub baseline_p99 : F
  pub baseline_cpu : F
  pub baseline_rate : F

-- `ev.Saturated = true` and the name appended.
abbrev violate : {F : Type 0} → Violation → Evaluation F → Evaluation F
violate v ev = record ev { saturated = true; violations = ev.violations ++ v ∷ [] }

module _ {F : Type 0} ⦃d : Double F⦄ where
  unfoldable pub default_thresholds : Thresholds F
  default_thresholds = record {
    cpu_max = d.of_nat 90;
    p95_factor = d.of_nat 2;
    p99_factor = d.of_nat 3;
    failure_rate_max = d.fdiv (d.of_nat 2) (d.of_nat 100);
  }

  unfoldable pub failure_rate : Summary F → F
  failure_rate s =
      if s.total_tasks == 0 then d.of_nat 0 else d.fdiv (d.of_nat s.failed) (d.of_nat s.total_tasks)

  -- The four tests; that of a latency is made twice, with its own factor.
  abbrev above : F → F → Bool
  above limit x = d.flt (d.of_nat 0) limit && d.flt limit x

  abbrev above_baseline : F → F → F → Bool
  above_baseline factor base x =
      d.flt (d.of_nat 0) factor && (d.flt (d.of_nat 0) base && d.flt (d.fmul factor base) x)

  unfoldable pub evaluate : Summary F → Summary F → Thresholds F → Evaluation F
  unfolding failure_rate
  evaluate ran baseline t =
      let start : Evaluation F = record {
        saturated = false;
        violations = [];
        baseline_p95 = baseline.p95;
        baseline_p99 = baseline.p99;
        baseline_cpu = baseline.avg_cpu;
        baseline_rate = failure_rate baseline;
      } in
      let after_cpu = if above t.cpu_max ran.avg_cpu then violate cpu start else start in
      let after_p95 =
        if above_baseline t.p95_factor baseline.p95 ran.p95
        then violate latency_p95 after_cpu
        else after_cpu in
      let after_p99 =
        if above_baseline t.p99_factor baseline.p99 ran.p99
        then violate latency_p99 after_p95
        else after_p95 in
      if above t.failure_rate_max (failure_rate ran) then violate failures after_p99 else after_p99
