-- ===== src/Cli/Runs/Verdicts.antt =====
-- The saturation verdicts in the summaries of a sweep of cmd/bench/commands.go.
use browser_analysis.Prelude.{
  arith, ℕ, zero, suc, ◌==◌, ◌≡◌, refl, ap, ◌∙◌, Bool, true, false, ◌&&◌, List, [], ◌∷◌, ◌++◌,
  Option, none, some, inl, inr, map, if◌then◌else◌, Bool-cases,
}
use browser_analysis.Prelude.Double.{Double}
use browser_analysis.Saturation.{failure_rate}
use browser_analysis.Prelude.Dict.{look_up, fold_key, look_up-tally}
use browser_analysis.Cli.Sweep.{Row}
use browser_analysis.Cli.Runs.{
  DirEntry, listed, Disk, ResourceRow, ScalingRow, CellKey, eq_key, eq_key_iff, key_eq, cell_key,
  sat_map, or_false, resource_row, scaling_row, run_key, summary_rows, sweep_summaries,
}

-- The verdict of the last of the cells with a key, or false.
abbrev pub last_verdict : {F : Type 0} → CellKey → Bool → List (Row F) → Bool
last_verdict k b [] = b
last_verdict k b (c ∷ cs) = last_verdict k (if eq_key (cell_key c) k then c.saturated else b) cs

fold_key-last_verdict :
    {F : Type 0} (k : CellKey) (o : Option Bool) (cells : List (Row F))
    → or_false (fold_key cell_key (λ o c. c.saturated) k o cells)
      ≡ last_verdict k (or_false o) cells
unfolding fold_key
fold_key-last_verdict k o [] = refl
fold_key-last_verdict k o (c ∷ cs) = elim (Bool-cases (eq_key (cell_key c) k)) [
  | inl hit ↦ rw hit (fold_key-last_verdict k (some c.saturated) cs)
  | inr miss ↦ rw miss (fold_key-last_verdict k o cs)
]

sat_map_lem :
    {F : Type 0} (k : CellKey) (cells : List (Row F))
    → or_false (look_up k (sat_map cells)) ≡ last_verdict k false cells
unfolding sat_map
sat_map_lem k cells =
    ap or_false (look_up-tally cell_key (λ o c. c.saturated) k cells [])
    ∙ unfold look_up in fold_key-last_verdict k none cells

last_verdict-append :
    {F : Type 0} (k : CellKey) (b : Bool) (cells : List (Row F)) (c : Row F)
    → eq_key (cell_key c) k ≡ true
    → last_verdict k b (cells ++ c ∷ []) ≡ c.saturated
last_verdict-append k b [] c h = rw h refl
last_verdict-append k b (x ∷ xs) c h =
    last_verdict-append k (if eq_key (cell_key x) k then x.saturated else b) xs c h

module _ {F E : Type 0} ⦃d : Double F⦄ (disk : Disk F E) where
  -- The directories with both files.
  abbrev pub complete : List DirEntry → List DirEntry
  complete [] = []
  complete (e ∷ es) =
      let rest = complete es in
      if e.is_dir && ((disk.read_resources e.name).1 && (disk.read_summary e.name).1)
      then e ∷ rest
      else rest

  -- Bytes as megabytes, and a share that is 0 of nothing.
  abbrev mb : ℕ → F
  mb n = d.fdiv (d.of_nat n) (d.of_nat 1_048_576)

  abbrev share_of : ℕ → ℕ → F
  share_of part zero = d.of_nat 0
  share_of part (suc n) = d.fdiv (d.of_nat part) (d.of_nat (suc n))

  share_of_lem :
      (part n : ℕ)
      → (if n == 0 then d.of_nat 0 else d.fdiv (d.of_nat part) (d.of_nat n)) ≡ share_of part n
  share_of_lem part zero = refl
  share_of_lem part (suc n) = ground arith

  abbrev pub resources_at : DirEntry → ResourceRow F
  resources_at e =
      let b = (disk.read_summary e.name).0.summary.built in
      let rs = (disk.read_resources e.name).0 in
      record {
        run_id = e.name;
        scenario = b.scenario;
        concurrency = b.concurrency;
        total_rss_mean_mb = mb rs.total_rss.mean;
        total_rss_p95_mb = mb rs.total_rss.p95;
        total_rss_peak_mb = mb rs.total_rss.peak;
        browser_rss_mean_mb = mb rs.browser_rss.mean;
        browser_rss_p95_mb = mb rs.browser_rss.p95;
        task_rss_mean_mb = mb rs.task_rss.mean;
        benchmark_cpu_mean = rs.benchmark_cpu.mean;
        process_mean = d.of_nat rs.total_processes.mean;
        browser_process_mean = d.of_nat rs.browser_processes.mean;
        browsers = rs.browsers;
        contexts = rs.contexts;
        pages = rs.pages;
      }

  abbrev pub scaling_at : List (Row F) → DirEntry → ScalingRow F
  scaling_at cells e =
      let s = (disk.read_summary e.name).0.summary in
      let rs = (disk.read_resources e.name).0 in
      record {
        concurrency = s.built.concurrency;
        throughput = s.built.throughput;
        p95 = s.built.latency.p95;
        p99 = s.built.latency.p99;
        cpu = s.avg_cpu;
        rss_mean_mb = mb rs.total_rss.mean;
        browser_rss_mean_mb = mb rs.browser_rss.mean;
        process_mean = d.of_nat rs.total_processes.mean;
        browser_process_mean = d.of_nat rs.browser_processes.mean;
        contexts = rs.contexts;
        failure_rate = share_of s.built.failed s.built.total_tasks;
        saturated = last_verdict (run_key s) false cells;
      }

  rows_lem :
      (cells : List (Row F)) (es : List DirEntry)
      → summary_rows disk (sat_map cells) es
        ≡ (map resources_at (complete es), map (scaling_at cells) (complete es))
  unfolding summary_rows resource_row scaling_row failure_rate
  rows_lem cells [] = refl
  rows_lem cells (e ∷ es) =
      elim (Bool-cases
        (e.is_dir && ((disk.read_resources e.name).1 && (disk.read_summary e.name).1))) [
          | inr skip ↦ rw skip (rows_lem cells es)
          | inl both ↦ rw both (
              rw
                (
                  sat_map_lem (run_key (disk.read_summary e.name).0.summary) cells,
                  share_of_lem (disk.read_summary e.name).0.summary.built.failed
                      (disk.read_summary e.name).0.summary.built.total_tasks,
                )
                (ap
                  (λ (r : List (ResourceRow F) × List (ScalingRow F)).
                    (resources_at e ∷ r.0, scaling_at cells e ∷ r.1))
                  (rows_lem cells es)))
        ]

  -- The two summaries of a sweep have a row for each run directory that holds both files, in the
  -- directory's order, and no other, with the directory's name and the values of the files, memory in
  -- megabytes. The scaling row of a run is marked as saturated by the last cell
  -- with its scenario and concurrency, whatever the cells before that say; so a level that was saturated in
  -- all repetitions but the last is written as not saturated.
  pub sweep_summaries_verdicts :
      (es : List DirEntry) (cells : List (Row F))
      → disk.raw ≡ listed es
      → (sweep_summaries disk cells
          ≡ inr (map resources_at (complete es), map (scaling_at cells) (complete es)))
        × ((c : Row F) → last_verdict (cell_key c) false (cells ++ c ∷ []) ≡ c.saturated)
  unfolding sweep_summaries
  sweep_summaries_verdicts es cells h = (
    rw h (ap inr (rows_lem cells es)),
    (λ c.
        last_verdict-append (cell_key c) false cells c
          ((eq_key_iff (cell_key c) (cell_key c)).1 refl)),
  )
