-- ===== src/Accounting/Aggregate.antt =====
-- What the sums of `Aggregate` in internal/accounting/accounting.go add up to.
use browser_analysis.Prelude.{
  ℕ, ◌+◌, ◌%◌, ◌<◌, ◌≡◌, Bool, true, false, List, [], ◌∷◌, map, arith, length, count_if,
  if◌then◌else◌,
}
use browser_analysis.Prelude.Word.{u64_mod, sum}
use browser_analysis.Prelude.Double.{Double}
use browser_analysis.Process.{
  Role, Entry, Snapshot, unknown, controller, browser, renderer, utility, gpu, target, aux,
}
use browser_analysis.Accounting.{Sample, zero_sample, add_as, add_entries, aggregate}

-- The entries that one total adds up.
abbrev pub is_controller : Role → Bool
is_controller controller = true
is_controller _ = false

abbrev pub is_target : Role → Bool
is_target target = true
is_target _ = false

abbrev pub in_browser : Role → Bool
in_browser browser = true
in_browser renderer = true
in_browser utility = true
in_browser gpu = true
in_browser _ = false

abbrev pub is_rest : Role → Bool
is_rest unknown = true
is_rest aux = true
is_rest _ = false

-- The bytes of the entries whose role passes the test.
abbrev pub rss_if : {F : Type 0} → (Role → Bool) → List (Entry F) → ℕ
rss_if p [] = 0
rss_if p (e ∷ es) = let rest = rss_if p es in if p e.role then e.rss_bytes + rest else rest

abbrev pub count_role : {F : Type 0} → (Role → Bool) → List (Entry F) → ℕ
count_role p es = count_if (λ e. p e.role) es

-- The sums of a sample have not wrapped.
record Fits {F : Type 0} (s : Sample F) : Type 0 where
  controller_fits : s.controller_rss < u64_mod
  browser_fits : s.browser_rss < u64_mod
  target_fits : s.target_rss < u64_mod
  aux_fits : s.aux_rss < u64_mod

-- `t` is `s` with the entries added, each to the sums of its own role.
record Adds {F : Type 0} (s : Sample F) (es : List (Entry F)) (t : Sample F) : Type 0 where
  controller_adds : t.controller_rss ≡ (s.controller_rss + rss_if is_controller es) % u64_mod
  browser_adds : t.browser_rss ≡ (s.browser_rss + rss_if in_browser es) % u64_mod
  target_adds : t.target_rss ≡ (s.target_rss + rss_if is_target es) % u64_mod
  aux_adds : t.aux_rss ≡ (s.aux_rss + rss_if is_rest es) % u64_mod

module _ {F : Type 0} ⦃d : Double F⦄ where
  add_as-Fits : (r : Role) (s : Sample F) (e : Entry F) → Fits s → Fits (add_as r s e)
  unfolding add_as
  add_as-Fits r s e f = ground arith

  add_as-Adds : (s : Sample F) (e : Entry F) → Fits s → Adds s (e ∷ []) (add_as e.role s e)
  unfolding add_as
  add_as-Adds s e f = ground arith

  add_entries-Adds : (s : Sample F) (es : List (Entry F)) → Fits s → Adds s es (add_entries s es)
  unfolding add_entries
  add_entries-Adds s [] f = ground arith
  add_entries-Adds s (e ∷ es) f =
      ground (
        arith,
        add_as-Adds s e f,
        add_entries-Adds (add_as e.role s e) es (add_as-Fits e.role s e f),
      )

  zero_sample-Fits : (t : ℕ) → Fits {F = F} (zero_sample t)
  unfolding zero_sample
  zero_sample-Fits t = omega arith

  loop : Snapshot F → Sample F
  loop snap = add_entries (zero_sample snap.captured_at) snap.entries

  loop-Adds : (snap : Snapshot F) → Adds (zero_sample snap.captured_at) snap.entries (loop snap)
  unfolding loop
  loop-Adds snap = add_entries-Adds _ snap.entries (zero_sample-Fits snap.captured_at)

-- Every byte is counted once: an entry passes exactly one of the four tests.
rss_if-total :
    {F : Type 0} (es : List (Entry F))
    → rss_if is_controller es + rss_if in_browser es + rss_if is_target es + rss_if is_rest es
      ≡ sum (map (λ e. e.rss_bytes) es)
unfolding sum
rss_if-total [] = omega arith
rss_if-total (e ∷ es) = ground (arith, rss_if-total es)

module _ {F : Type 0} ⦃d : Double F⦄ (snap : Snapshot F) where
  -- The four role totals of `Aggregate` are the sums of the bytes of the processes of that role,
  -- modulo 2^64; `AuxRSS` takes those of role `aux` and of role `unknown`, which stand outside the
  -- controller's tree.
  pub aggregate_by_role :
      ((aggregate snap).controller_rss ≡ rss_if is_controller snap.entries % u64_mod)
      × ((aggregate snap).browser_rss ≡ rss_if in_browser snap.entries % u64_mod)
      × ((aggregate snap).target_rss ≡ rss_if is_target snap.entries % u64_mod)
      × ((aggregate snap).aux_rss ≡ rss_if is_rest snap.entries % u64_mod)
  unfolding aggregate loop zero_sample
  aggregate_by_role = omega (arith, loop-Adds snap)

  -- `BenchmarkRSS` is the sum of the bytes of all entries of the snapshot, modulo 2^64: each process
  -- is counted once, and none is left out, whether or not it belongs to the benchmark.
  pub benchmark_rss-sum :
      (aggregate snap).benchmark_rss ≡ sum (map (λ e. e.rss_bytes) snap.entries) % u64_mod
  unfolding aggregate loop zero_sample
  benchmark_rss-sum = omega (arith, loop-Adds snap, rss_if-total snap.entries)

abbrev pub is_plain_browser : Role → Bool
is_plain_browser browser = true
is_plain_browser _ = false

-- The same for the counters.
record Counts {F : Type 0} (s : Sample F) (es : List (Entry F)) (t : Sample F) : Type 0 where
  browsers_count : t.browser_processes ≡ s.browser_processes + count_role in_browser es
  controllers_count : t.controller_processes ≡ s.controller_processes + count_role is_controller es
  targets_count : t.target_processes ≡ s.target_processes + count_role is_target es
  parts_count :
      t.browser_processes + s.renderer_processes + s.utility_processes + s.gpu_processes
      ≡ s.browser_processes
        + t.renderer_processes
        + t.utility_processes
        + t.gpu_processes
        + count_role is_plain_browser es

module _ {F : Type 0} ⦃d : Double F⦄ where
  add_as-Counts : (s : Sample F) (e : Entry F) → Counts s (e ∷ []) (add_as e.role s e)
  unfolding add_as
  add_as-Counts s e = ground arith

  add_entries-Counts : (s : Sample F) (es : List (Entry F)) → Counts s es (add_entries s es)
  unfolding add_entries
  add_entries-Counts s [] = omega arith
  add_entries-Counts s (e ∷ es) =
      ground (arith, add_as-Counts s e, add_entries-Counts (add_as e.role s e) es)

count_role-total :
    {F : Type 0} (es : List (Entry F))
    → count_role is_controller es
        + count_role in_browser es
        + count_role is_target es
        + count_role is_rest es
      ≡ length es
count_role-total [] = omega arith
count_role-total (e ∷ es) = ground (arith, count_role-total es)

module _ {F : Type 0} ⦃d : Double F⦄ (snap : Snapshot F) where
  -- `TotalProcesses` splits into the controller, browser and target counts and the processes of
  -- role `aux` or `unknown`; the browser count splits into renderers, utility and GPU processes and
  -- those of role `browser`.
  pub process_counts_split :
      let s = aggregate snap in
      (s.total_processes
        ≡ s.controller_processes
          + s.browser_processes
          + s.target_processes
          + count_role is_rest snap.entries)
      × (s.browser_processes
          ≡ s.renderer_processes
            + s.utility_processes
            + s.gpu_processes
            + count_role is_plain_browser snap.entries)
  unfolding aggregate zero_sample
  process_counts_split = omega (
    arith,
    add_entries-Counts (zero_sample snap.captured_at) snap.entries,
    count_role-total snap.entries,
  )
