-- ===== src/Accounting/Aggregator.antt =====
-- internal/accounting/aggregator.go: the resource series of one run. Each method holds the mutex
-- while it touches the state, so a run is a sequence of whole calls. `fuel` is that of `Classify`.
pub mod Runs
use browser_analysis.Prelude.{
  ℕ, suc, ◌-◌, ◌/◌, Bool, true, false, List, [], ◌∷◌, ◌++◌, Option, none, some, ltb, ◌==◌,
  if◌then◌else◌,
}
use browser_analysis.Prelude.Word.{add64}
use browser_analysis.Prelude.Double.{Double}
use browser_analysis.Process.{Snapshot}
use browser_analysis.Process.Ownership.{Ownership}
use browser_analysis.Process.Ownership
use browser_analysis.Accounting.{Sample, zero_sample, aggregate}

pub record Aggregator (F : Type 0) : Type 0 where
  pub ownership : Ownership
  pub baseline : Sample F
  pub have_base : Bool
  pub samples : List (Sample F)

-- `Delta` past its loop.
excess : ℕ × ℕ → ℕ → ℕ
excess (total, n) base =
    if n == 0 then 0 else let mean = total / n in if ltb base mean then mean - base else 0

module _ {F : Type 0} ⦃d : Double F⦄ where
  pub new_aggregator : ℕ → ℕ → Aggregator F
  new_aggregator controller_pid target_pid = record {
    ownership = record { controller_pid = controller_pid; target_pid = target_pid };
    baseline = zero_sample 0;
    have_base = false;
    samples = [];
  }

  -- The snapshot's entries are relabelled in place; the aggregator does not change.
  pub classify : Aggregator F → ℕ → Snapshot F → Option (Snapshot F)
  classify a fuel snap = Ownership.classify a.ownership fuel snap

  pub set_baseline : Aggregator F → ℕ → Snapshot F → Option (Aggregator F)
  set_baseline a fuel snap = elim (Ownership.classify a.ownership fuel snap) [
    | none ↦ none
    | some labelled ↦ some (record a { baseline = aggregate labelled; have_base = true })
  ]

  -- `Record`.
  pub record_sample : Aggregator F → Snapshot F → Aggregator F
  record_sample a snap =
      let s = aggregate snap in
      let b = if a.have_base then a else record a { baseline = s; have_base = true } in
      record b { samples = b.samples ++ s ∷ [] }

  pub series : Aggregator F → List (Sample F) × Sample F × Bool
  series a = (a.samples, a.baseline, a.have_base)

  -- The loop of `Delta`: the samples without memory are left out.
  delta_loop : ℕ → ℕ → List (Sample F) → ℕ × ℕ
  delta_loop total n [] = (total, n)
  delta_loop total n (s ∷ ss) =
      let used = ltb 0 s.benchmark_rss in
      delta_loop (if used then add64 total s.benchmark_rss else total) (if used then suc n else n)
        ss

  pub delta : Aggregator F → ℕ
  unfolding delta_loop excess
  delta a = elim a.samples [
    | [] ↦ 0
    | s ∷ rest ↦ if a.have_base then excess (delta_loop 0 0 rest) a.baseline.benchmark_rss else 0
  ]
