-- ===== src/Saturation/Crossed.antt =====
-- What an evaluation of internal/saturation/saturation.go says.
use browser_analysis.Prelude.{
  ◌≤◌, ==_iff, ◌≢◌, ◌⊎◌, ◌≡◌, ◌↔◌, Bool, true, false, [], arith, count_if,
}
use browser_analysis.Prelude.Double.{Double}
use browser_analysis.Saturation.{
  Summary, Thresholds, Violation, cpu, latency_p95, latency_p99, failures, failure_rate, evaluate,
}

abbrev pub same : Violation → Violation → Bool
same cpu cpu = true
same latency_p95 latency_p95 = true
same latency_p99 latency_p99 = true
same failures failures = true
same _ _ = false

module _ {F : Type 0} ⦃d : Double F⦄ where
  -- Whether a run is over a threshold: the threshold is set, for a latency the baseline has one, and the
  -- value is greater.
  abbrev pub Crossed : Violation → Summary F → Summary F → Thresholds F → Type 0
  Crossed cpu ran base t =
      (d.flt (d.of_nat 0) t.cpu_max ≡ true) × (d.flt t.cpu_max ran.avg_cpu ≡ true)
  Crossed latency_p95 ran base t =
      (d.flt (d.of_nat 0) t.p95_factor ≡ true)
      × (d.flt (d.of_nat 0) base.p95 ≡ true)
      × (d.flt (d.fmul t.p95_factor base.p95) ran.p95 ≡ true)
  Crossed latency_p99 ran base t =
      (d.flt (d.of_nat 0) t.p99_factor ≡ true)
      × (d.flt (d.of_nat 0) base.p99 ≡ true)
      × (d.flt (d.fmul t.p99_factor base.p99) ran.p99 ≡ true)
  Crossed failures ran base t =
      (d.flt (d.of_nat 0) t.failure_rate_max ≡ true)
      × (((ran.total_tasks ≡ 0) × (d.flt t.failure_rate_max (d.of_nat 0) ≡ true))
          ⊎ ((ran.total_tasks ≢ 0)
              × (d.flt t.failure_rate_max (d.fdiv (d.of_nat ran.failed) (d.of_nat ran.total_tasks))
                  ≡ true)))

  listed :
      (v : Violation) (ran base : Summary F) (t : Thresholds F)
      → ((count_if (same v) (evaluate ran base t).violations ≡ 1) ↔ Crossed v ran base t)
        × (count_if (same v) (evaluate ran base t).violations ≤ 1)
  unfolding evaluate failure_rate
  listed cpu ran base t = ground arith
  listed latency_p95 ran base t = ground arith
  listed latency_p99 ran base t = ground arith
  listed failures ran base t = ground (arith, ==_iff ran.total_tasks 0)

  unsaturated :
      (ran base : Summary F) (t : Thresholds F)
      → ((evaluate ran base t).saturated ≡ false) ↔ ((evaluate ran base t).violations ≡ [])
  unfolding evaluate
  unsaturated ran base t = ground arith

  -- `Evaluate` lists a violation, once, exactly if its threshold is crossed, and otherwise not at all;
  -- the run is saturated exactly if something is listed. The failure rate of a run without tasks
  -- is 0.
  pub evaluate_iff :
      (ran base : Summary F) (t : Thresholds F)
      → ((v : Violation)
          → ((count_if (same v) (evaluate ran base t).violations ≡ 1) ↔ Crossed v ran base t)
            × (count_if (same v) (evaluate ran base t).violations ≤ 1))
        × (((evaluate ran base t).saturated ≡ false) ↔ ((evaluate ran base t).violations ≡ []))
  evaluate_iff ran base t = (λ v. listed v ran base t, unsaturated ran base t)
