-- ===== src/Results/Resources.antt =====
-- The derived figures of internal/results/resource_builder.go.
use native.Mathlib.Nat.{div-mul-le_self}
use browser_analysis.Prelude.{ℕ, ◌*◌, ◌≤◌, ◌≡◌, refl, true, false, arith, Bool, if◌then◌else◌}
use browser_analysis.Prelude.Double.{Double}
use browser_analysis.Accounting.Aggregator.{Aggregator, series}
use browser_analysis.Metrics.Recorder.{Recorder}
use browser_analysis.Results.{ResourceSummary, share, sum_resources, build_resource_summary}

share-le : (total n : ℕ) → share total n * n ≤ total
share-le total n = ground (arith, div-mul-le_self total n)

module _ {F : Type 0} ⦃d : Double F⦄ where
  abbrev AddsUp : ℕ → ResourceSummary F → Type 0
  AddsUp concurrency r =
      (r.memory_per_logical_task * concurrency ≤ r.architecture_rss_delta)
      × (r.browser_memory_per_context * r.contexts ≤ r.browser_rss.mean)
      × (r.memory_per_active_worker ≡ r.memory_per_logical_task)

  if-AddsUp :
      (n : ℕ) (b : Bool) (x y : ResourceSummary F)
      → AddsUp n x
      → AddsUp n y
      → AddsUp n (if b then x else y)
  if-AddsUp n true x y hx hy = hx
  if-AddsUp n false x y hx hy = hy

  -- The shares of a run add up to no more than what is shared, whatever the counts, 0 included: the
  -- tasks' to the growth of memory, the contexts' to the browser's mean. But the share of an active
  -- worker is always that of a logical task.
  pub shares_add_up :
      (agg : Aggregator F) (rec : Recorder F) (concurrency : ℕ) (throughput : F)
      → AddsUp concurrency (build_resource_summary agg rec concurrency throughput)
  unfolding build_resource_summary sum_resources
  shares_add_up agg rec concurrency throughput =
      if-AddsUp concurrency (series agg).2 _ _ (share-le _ concurrency, share-le _ _, refl)
        (omega arith, omega arith, refl)
