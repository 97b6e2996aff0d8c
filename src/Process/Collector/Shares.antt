-- ===== src/Process/Collector/Shares.antt =====
-- The CPU shares of internal/process/collector_windows.go.
use browser_analysis.Prelude.{
  ℕ, ◌≡◌, refl, ap, ◌∙◌, ◌≢◌, inl, inr, Bool, false, not, ◌||◌, List, [], ◌∷◌, Option, none, some,
  arith, leb, ◌==◌, ==_iff, if◌then◌else◌, Bool-cases, All,
}
use browser_analysis.Prelude.Double.{Double}
use browser_analysis.Prelude.Dict.{look_up, look_up-put, nat_eq}
use browser_analysis.Process.{Entry}
use browser_analysis.Process.Collector.{
  CpuSample, Seen, Last, clamped, share_since, fill_times, sample_row, sample_rows, sample,
}

-- A row's counters, if they could be read and the PID is the one asked for, and else what there was.
abbrev pub seen_as : ℕ → Option CpuSample → Option (ℕ × ℕ × ℕ) → Bool → Option CpuSample
seen_as now o none here = o
seen_as now o (some (create, kern, user)) here =
    if here then some (record { at = now; user = user; kern = kern; create = create }) else o

-- What the map holds for a PID after the rows.
abbrev pub latest : ℕ → ℕ → Option CpuSample → List Seen → Option CpuSample
latest now pid o [] = o
latest now pid o (s ∷ ss) = latest now pid (seen_as now o s.times (s.pid == pid)) ss

-- What is asked of the comparison of floats: it compares 0 and 100 as it should.
pub record Compares (F : Type 0) ⦃d : Double F⦄ : Type 0 where
  pub zero_zero : d.flt (d.of_nat 0) (d.of_nat 0) ≡ false
  pub hundred_zero : d.flt (d.of_nat 100) (d.of_nat 0) ≡ false
  pub hundred_hundred : d.flt (d.of_nat 100) (d.of_nat 100) ≡ false

abbrev pub InRange : {F : Type 0} ⦃d : Double F⦄ → F → Type 0
InRange ⦃d⦄ x = (d.flt (d.of_nat 100) x ≡ false) × (d.flt x (d.of_nat 0) ≡ false)

-- A process that was not seen before, or whose PID another had then, has no share yet.
abbrev pub IsFresh : Option CpuSample → ℕ → Type 0
IsFresh none create = Unit
IsFresh (some prev) create = prev.create ≢ create

module _ (F : Type 0) ⦃d : Double F⦄ (num_cpu : ℕ) where
  clamped-InRange : Compares F → (x : F) → InRange {F = F} (clamped num_cpu x)
  unfolding clamped
  clamped-InRange c x = elim (Bool-cases (d.flt (d.of_nat 100) x)) [
    | inl above ↦ rw above (rw c.hundred_zero (c.hundred_hundred, c.hundred_zero))
    | inr fine ↦ rw fine (elim (Bool-cases (d.flt x (d.of_nat 0))) [
      | inl below ↦ rw below (c.hundred_zero, c.zero_zero)
      | inr good ↦ rw good (fine, good)
    ])
  ]

  share-InRange :
      Compares F
      → (o : Option CpuSample) (now : ℕ) (t : ℕ × ℕ × ℕ)
      → InRange {F = F} (share_since {F = F} num_cpu o now t)
  unfolding share_since
  share-InRange c none now (create, kern, user) = (c.hundred_zero, c.zero_zero)
  share-InRange c (some prev) now (create, kern, user) =
      elim (Bool-cases (not (prev.create == create) || leb now prev.at)) [
        | inl fresh ↦ rw fresh (c.hundred_zero, c.zero_zero)
        | inr old ↦ rw old (clamped-InRange c _)
      ]

  fill_times-InRange :
      Compares F
      → (last : Last) (pid now : ℕ) (t : Option (ℕ × ℕ × ℕ))
      → InRange {F = F} (fill_times {F = F} num_cpu last pid now t).0.0
  unfolding fill_times
  fill_times-InRange c last pid now none = (c.hundred_zero, c.zero_zero)
  fill_times-InRange c last pid now (some (create, kern, user)) =
      share-InRange c (look_up pid last) now (create, kern, user)

  rows-InRange :
      Compares F
      → (last : Last) (now : ℕ) (ss : List Seen)
      → All
          (λ (e : Entry F). InRange {F = F} e.cpu_percent)
          (sample_rows {F = F} num_cpu last now ss).0
  unfolding sample_rows sample_row
  rows-InRange c last now [] = tt
  rows-InRange c last now (s ∷ ss) = (
    fill_times-InRange c last s.pid now s.times,
    rows-InRange c (fill_times {F = F} num_cpu last s.pid now s.times).1 now ss,
  )

  fill_times-seen_as :
      (last : Last) (pid p now : ℕ) (t : Option (ℕ × ℕ × ℕ))
      → look_up pid (fill_times {F = F} num_cpu last p now t).1
        ≡ seen_as now (look_up pid last) t (p == pid)
  unfolding fill_times
  fill_times-seen_as last pid p now none = refl
  fill_times-seen_as last pid p now (some (create, kern, user)) =
      look_up-put p pid (record { at = now; user = user; kern = kern; create = create }) last

  rows-latest :
      (pid : ℕ) (last : Last) (now : ℕ) (ss : List Seen)
      → look_up pid (sample_rows {F = F} num_cpu last now ss).1
        ≡ latest now pid (look_up pid last) ss
  unfolding sample_rows sample_row
  rows-latest pid last now [] = refl
  rows-latest pid last now (s ∷ ss) =
      rows-latest pid (fill_times {F = F} num_cpu last s.pid now s.times).1 now ss
      ∙ ap (λ o. latest now pid o ss) (fill_times-seen_as last pid s.pid now s.times)

  fresh_share :
      (o : Option CpuSample) (now create kern user : ℕ)
      → IsFresh o create
      → share_since {F = F} num_cpu o now (create, kern, user) ≡ d.of_nat 0
  unfolding share_since
  fresh_share none now create kern user h = refl
  fresh_share (some prev) now create kern user h = ground (arith, ==_iff prev.create create)

  -- If floats compare 0 and 100 as they should: whatever the counters say, also when they run
  -- backwards, no share of a snapshot is above 100 or below 0. The map holds, for each PID, the
  -- counters of the last row of the snapshot that could be read for it, or the old ones if there is
  -- none. And the share of a PID is 0 where the map does not hold the same process, by its time of
  -- creation, so that no share is taken between two processes that have had one PID.
  pub sample_shares :
      Compares F
      → (last : Last) (now : ℕ) (ss : List Seen)
      → All
          (λ (e : Entry F). InRange {F = F} e.cpu_percent)
          (sample {F = F} num_cpu last now ss).0.entries
        × ((pid : ℕ)
            → look_up pid (sample {F = F} num_cpu last now ss).1
              ≡ latest now pid (look_up pid last) ss)
        × ((pid create kern user : ℕ)
            → IsFresh (look_up pid last) create
            → (fill_times {F = F} num_cpu last pid now (some (create, kern, user))).0.0
              ≡ d.of_nat 0)
  unfolding sample fill_times
  sample_shares c last now ss = (
    rows-InRange c last now ss,
    (λ pid. rows-latest pid last now ss),
    (λ pid create kern user h. fresh_share (look_up pid last) now create kern user h),
  )
