-- ===== src/Accounting/Tests.antt =====
-- Runs of internal/accounting on small snapshots; a float is a whole number here.
use browser_analysis.Prelude.{
  ℕ, ◌*◌, ◌-◌, ◌%◌, ◌≤◌, ◌<◌, ◌≡◌, refl, true, false, List, [], ◌∷◌, map, some, arith, count_if,
  ltb, leb,
}
use browser_analysis.Prelude.Text.{codes}
use browser_analysis.Prelude.Word.{sum, u64_mod}
use browser_analysis.Prelude.Double.{nat_double}
use browser_analysis.Prelude.Sort.{sort_by}
use browser_analysis.Process.{
  Role, Entry, Snapshot, unknown, controller, browser, renderer, gpu, target,
}
use browser_analysis.Process.Ownership
use browser_analysis.Accounting.{aggregate}
use browser_analysis.Accounting.Aggregate.{
  rss_if, is_controller, in_browser, is_target, is_rest, aggregate_by_role,
}
use browser_analysis.Accounting.Stats.{percentile, stats}
use browser_analysis.Accounting.Stats.Rank.{percentile_nearest_rank}
use browser_analysis.Accounting.Aggregator.{Aggregator, new_aggregator, set_baseline, series, delta}
use browser_analysis.Accounting.Aggregator.Runs.{record_all, used_sizes, mean, baseline_run}

abbrev proc : ℕ → Role → ℕ → Entry ℕ
proc pid role rss = record {
  pid = pid;
  ppid = 1;
  name = codes "bench";
  cpu_percent = 2;
  rss_bytes = rss;
  thread_count = 1;
  access_denied = false;
  role = role;
}

abbrev snap : Snapshot ℕ
snap = record {
  captured_at = 9;
  entries =
      proc 1 controller 10
      ∷ proc 2 browser 20
      ∷ proc 3 renderer 30
      ∷ proc 4 gpu 5
      ∷ proc 5 target 7
      ∷ proc 6 unknown 1000
      ∷ [];
}

-- The process of role `unknown` makes up most of the total.
snap_total : (aggregate snap).benchmark_rss ≡ 1072
unfolding aggregate
snap_total = refl

aggregate_by_role_example :
    ((aggregate snap).controller_rss ≡ rss_if is_controller snap.entries % u64_mod)
    × ((aggregate snap).browser_rss ≡ rss_if in_browser snap.entries % u64_mod)
    × ((aggregate snap).target_rss ≡ rss_if is_target snap.entries % u64_mod)
    × ((aggregate snap).aux_rss ≡ rss_if is_rest snap.entries % u64_mod)
aggregate_by_role_example = aggregate_by_role snap

abbrev sizes : List ℕ
sizes = 30 ∷ 10 ∷ 20 ∷ 50 ∷ 40 ∷ []

sizes-stats : stats sizes ≡ record { mean = 30; p50 = 30; p95 = 50; peak = 50 }
unfolding stats
sizes-stats = refl

percentile_nearest_rank_example :
    (95 * 5 ≤ 100 * count_if (λ v. leb v (percentile (sort_by ltb sizes) 95)) sizes)
    × (100 * count_if (λ v. ltb v (percentile (sort_by ltb sizes) 95)) sizes < 95 * 5)
percentile_nearest_rank_example =
    percentile_nearest_rank sizes 95 (omega arith) (omega arith) (omega arith)

abbrev quiet : Snapshot ℕ
quiet = record { captured_at = 1; entries = proc 1 unknown 100 ∷ [] }

abbrev quiet_labelled : Snapshot ℕ
quiet_labelled = record { captured_at = 1; entries = proc 1 controller 100 ∷ [] }

baseline_run_example :
    (a : Aggregator ℕ) × (set_baseline (new_aggregator 1 0) 2 quiet ≡ some a)
    × (series (record_all a (quiet ∷ snap ∷ snap ∷ []))
        ≡ (map aggregate (quiet ∷ snap ∷ snap ∷ []), aggregate quiet_labelled, true))
    × (delta (record_all a (quiet ∷ snap ∷ snap ∷ []))
        ≡ mean (used_sizes (map aggregate (snap ∷ snap ∷ [])))
          - (aggregate quiet_labelled).benchmark_rss)
unfolding Ownership.classify Ownership.role_of aggregate sum
baseline_run_example =
    baseline_run 1 0 2 quiet quiet_labelled quiet (snap ∷ snap ∷ []) refl (omega arith)
