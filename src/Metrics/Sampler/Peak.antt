-- ===== src/Metrics/Sampler/Peak.antt =====
-- The peaks of internal/metrics/sampler.go.
use browser_analysis.Prelude.{append_nil, append_assoc}
use browser_analysis.Prelude.{
  ℕ, ◌≡◌, refl, ap, sym, ◌∙◌, Bool, true, false, List, [], ◌∷◌, ◌++◌, Option, none, some, arith,
  if◌then◌else◌, ltb,
}
use browser_analysis.Prelude.Double.{Double}
use browser_analysis.Metrics.Sampler.{
  HostSnapshot, Aggregates, Sampler, new_sampler, record_snapshot, run_ticks, write_csv, aggregates,
}

-- The snapshots that the collector gave.
abbrev pub taken : {F : Type 0} → List (Option (HostSnapshot F)) → List (HostSnapshot F)
taken [] = []
taken (none ∷ ticks) = taken ticks
taken (some snap ∷ ticks) = snap ∷ taken ticks

-- The largest memory in use, 0 for no snapshots.
abbrev pub largest : {F : Type 0} → List (HostSnapshot F) → ℕ
largest [] = 0
largest (s ∷ rest) = let m = largest rest in if ltb m s.ram_used_bytes then s.ram_used_bytes else m

abbrev max_of : ℕ → ℕ → ℕ
max_of m n = if ltb m n then n else m

max_of_assoc : (a b c : ℕ) → max_of (max_of a b) c ≡ max_of a (max_of c b)
max_of_assoc a b c = ground arith

module _ {F : Type 0} ⦃d : Double F⦄ where
  peak-run_ticks :
      (ticks : List (Option (HostSnapshot F))) (s : Sampler F)
      → (run_ticks ticks s).current.peak_ram ≡ max_of s.current.peak_ram (largest (taken ticks))
  unfolding run_ticks record_snapshot
  peak-run_ticks [] s = ground arith
  peak-run_ticks (none ∷ ticks) s = peak-run_ticks ticks s
  peak-run_ticks (some snap ∷ ticks) s =
      peak-run_ticks ticks (record_snapshot snap s)
      ∙ max_of_assoc s.current.peak_ram snap.ram_used_bytes (largest (taken ticks))

  samples-run_ticks :
      (ticks : List (Option (HostSnapshot F))) (s : Sampler F)
      → (run_ticks ticks s).samples ≡ s.samples ++ taken ticks
  unfolding run_ticks record_snapshot
  samples-run_ticks [] s = sym (append_nil s.samples)
  samples-run_ticks (none ∷ ticks) s = samples-run_ticks ticks s
  samples-run_ticks (some snap ∷ ticks) s =
      samples-run_ticks ticks (record_snapshot snap s)
      ∙ append_assoc s.samples (snap ∷ []) (taken ticks)

  summary-run_ticks :
      (ticks : List (Option (HostSnapshot F))) (s : Sampler F)
      → (run_ticks ticks s).summary ≡ s.summary
  unfolding run_ticks record_snapshot
  summary-run_ticks [] s = refl
  summary-run_ticks (none ∷ ticks) s = summary-run_ticks ticks s
  summary-run_ticks (some snap ∷ ticks) s = summary-run_ticks ticks (record_snapshot snap s)

  -- A sampler keeps exactly the snapshots that the collector gave, in order, and the peak of the memory
  -- that `Aggregates` then gives is the largest of them if the CSV file was written; if it could not be
  -- written the peak is 0.
  pub aggregates_peak :
      (ticks : List (Option (HostSnapshot F))) (written : Bool)
      → let s = run_ticks ticks new_sampler in
        (s.samples ≡ taken ticks)
        × ((aggregates (write_csv written s)).peak_ram
            ≡ (if written then largest (taken ticks) else 0))
  unfolding aggregates write_csv new_sampler
  aggregates_peak ticks true =
      (samples-run_ticks ticks new_sampler, peak-run_ticks ticks new_sampler ∙ ground arith)
  aggregates_peak ticks false = (
    samples-run_ticks ticks new_sampler,
    ap (λ (a : Aggregates F). a.peak_ram) (summary-run_ticks ticks new_sampler),
  )
