-- ===== src/Results/Files/Plan.antt =====
-- What `WriteRun` of internal/results/results.go sets out to write.
use browser_analysis.Prelude.{
  ℕ, zero, suc, ◌≡◌, refl, ap, ◌∙◌, false, List, [], ◌∷◌, ◌++◌, map, length, All, All-append,
}
use browser_analysis.Prelude.Int.{pos}
use browser_analysis.Prelude.Text.{Text, is_empty}
use browser_analysis.Metrics.Recorder.{Recorder, snapshot}
use browser_analysis.Results.{cell, larger, browser_rows}
use browser_analysis.Results.Columns.{column, column-filled, filled, larger_le, columns_read_back}
use browser_analysis.Results.Files.{
  CsvFile, task_metrics, browser_metrics, hybrid_metrics, task_rss_metrics, Call, put_row,
  make_run_dir, make_dir, marshal, write_file, create, flush, Wrap, plain, ignored, create_run_dir,
  create_dir, marshal_json, write_json, Attempt, Printer, Metadata, header_of, hybrid_rows,
  hybrid_rows_from, rows_for, counters_row, checked_csv, counters_csv, write_run_calls,
}

-- What is to become of the error of each call: that of a row of task_metrics.csv is ignored, all others
-- are returned, those around the directories and metadata.json with their context.
abbrev pub wrap_of : {Host : Type 0} → Call Host → Wrap
wrap_of make_run_dir = create_run_dir
wrap_of make_dir = create_dir
wrap_of (marshal v) = marshal_json
wrap_of (write_file v) = write_json
wrap_of (put_row task_metrics r) = ignored
wrap_of (put_row f r) = plain
wrap_of (create f) = plain
wrap_of (flush f) = plain

-- The first and the second cell of a row.
abbrev pub first : List Text → Text
first [] = []
first (c ∷ cs) = c

abbrev pub second : List Text → Text
second [] = []
second (c ∷ cs) = first cs

abbrev pub third : List Text → Text
third [] = []
third (c ∷ cs) = second cs

module _ {F : Type 0} (p : Printer F) where
  -- Rows below the header that tell what the recorder has: its counters; or columns whose cells that
  -- are not empty are the series, printed, in order.
  abbrev pub Tells : Recorder F → CsvFile → List (List Text) → Type 0
  Tells rec task_metrics rows =
      rows
      ≡ (p.itoa (pos rec.tasks_created)
          ∷ p.itoa (pos rec.tasks_queued)
          ∷ p.itoa rec.tasks_active
          ∷ p.itoa (pos rec.tasks_complete)
          ∷ p.itoa (pos rec.tasks_failed)
          ∷ p.itoa (pos rec.tasks_canceled)
          ∷ p.itoa (pos rec.retries)
          ∷ p.itoa (pos rec.requests_ok)
          ∷ p.itoa (pos rec.requests_failed)
          ∷ p.itoa (pos rec.ws_events)
          ∷ p.itoa (pos rec.workflow_failures)
          ∷ [])
        ∷ []
  Tells rec browser_metrics rows =
      (filled (map first rows) ≡ map (p.format_float 9) rec.browser_launches)
      × (filled (map second rows) ≡ map (p.format_float 9) rec.context_creations)
      × (filled (map third rows) ≡ map (p.format_float 9) rec.cdp_connects)
  Tells rec hybrid_metrics rows =
      (filled (map first rows) ≡ map (p.format_float 9) rec.http_step_latencies)
      × (filled (map second rows) ≡ map (p.format_float 9) rec.browser_step_latencies)
  Tells rec task_rss_metrics rows = map first rows ≡ map (p.format_float 0) rec.task_rss_deltas

  module _ (shown : (x : F) → is_empty (p.format_float 9 x) ≡ false) where
    hybrid_columns :
        (http browser : List F) (k i : ℕ)
        → let rows = hybrid_rows_from p http browser k i in
          (map first rows ≡ column (p.format_float 9) shown http k i)
          × (map second rows ≡ column (p.format_float 9) shown browser k i)
    unfolding hybrid_rows_from
    hybrid_columns http browser zero i = (refl, refl)
    hybrid_columns http browser (suc k) i =
        let (a, b) = hybrid_columns http browser k (suc i) in
        (
          ap (◌∷◌ (cell (p.format_float 9) http i)) a,
          ap (◌∷◌ (cell (p.format_float 9) browser i)) b,
        )

    hybrid_rows-Tells : (rec : Recorder F) → Tells rec hybrid_metrics (hybrid_rows p rec)
    unfolding hybrid_rows
    hybrid_rows-Tells rec =
        let http = rec.http_step_latencies in
        let browser = rec.browser_step_latencies in
        let k = larger (length http) (length browser) in
        let (a, b) = larger_le (p.format_float 9) shown (length http) (length browser) in
        let (x, y) = hybrid_columns http browser k 0 in
        (
          ap filled x ∙ column-filled (p.format_float 9) shown http k a,
          ap filled y ∙ column-filled (p.format_float 9) shown browser k b,
        )

    pub rows_for-Tells : (rec : Recorder F) (f : CsvFile) → Tells rec f (rows_for p rec f)
    unfolding rows_for snapshot
    rows_for-Tells rec task_metrics = refl
    rows_for-Tells rec browser_metrics =
        let rows = browser_rows (p.format_float 9) rec in
        let (x, y, z) = columns_read_back (p.format_float 9) shown rec in
        (ap filled (cells rows).0 ∙ x, ap filled (cells rows).1 ∙ y, ap filled (cells rows).2 ∙ z)
      where
        cells :
            (rows : List (Text × Text × Text))
            → let lists = map (λ (r : Text × Text × Text). r.0 ∷ r.1 ∷ r.2 ∷ []) rows in
              (map first lists ≡ map (λ r. r.0) rows)
              × (map second lists ≡ map (λ r. r.1) rows)
              × (map third lists ≡ map (λ r. r.2) rows)
        cells [] = (refl, refl, refl)
        cells (r ∷ rs) =
            let (x, y, z) = cells rs in (ap (◌∷◌ r.0) x, ap (◌∷◌ r.1) y, ap (◌∷◌ r.2) z)
    rows_for-Tells rec hybrid_metrics = hybrid_rows-Tells rec
    rows_for-Tells rec task_rss_metrics = deltas rec.task_rss_deltas
      where
        deltas :
            (xs : List F)
            → map first (map (λ x. p.format_float 0 x ∷ []) xs) ≡ map (p.format_float 0) xs
        deltas [] = refl
        deltas (x ∷ xs) = ap (◌∷◌ (p.format_float 0 x)) (deltas xs)

module _ {Host : Type 0} where
  abbrev pub Wraps : Attempt Host → Type 0
  Wraps a = a.1 ≡ wrap_of a.0

module _ (Host : Type 0) where
  rows-Wraps :
      (f : CsvFile) (rs : List (List Text))
      → wrap_of {Host = Host} (put_row f []) ≡ plain
      → All (Wraps {Host = Host}) (map (λ (r : List Text). (put_row f r, plain)) rs)
  rows-Wraps f [] h = tt
  rows-Wraps task_metrics (r ∷ rs) h = absurd (cc)
  rows-Wraps browser_metrics (r ∷ rs) h = (refl, rows-Wraps browser_metrics rs h)
  rows-Wraps hybrid_metrics (r ∷ rs) h = (refl, rows-Wraps hybrid_metrics rs h)
  rows-Wraps task_rss_metrics (r ∷ rs) h = (refl, rows-Wraps task_rss_metrics rs h)

  checked_csv-Wraps :
      (f : CsvFile) (rows : List (List Text))
      → wrap_of {Host = Host} (put_row f []) ≡ plain
      → All (Wraps {Host = Host}) (checked_csv f rows)
  unfolding checked_csv
  checked_csv-Wraps f rows h = (
    refl,
    All-append (Wraps {Host = Host})
        (map (λ (r : List Text). (put_row f r, plain)) (header_of f ∷ rows)) ((flush f, plain) ∷ [])
        (rows-Wraps f (header_of f ∷ rows) h) (refl, tt),
  )

module _ {Host : Type 0} where
  -- The plan: first the run's directory, then its metadata.json; and every error is treated as it
  -- should be.
  pub record IsPlan (v : Metadata Host) (planned : List (Attempt Host)) : Type 0 where
    pub rest : List (Attempt Host)
    pub begins :
        map (λ (a : Attempt Host). a.0) planned
        ≡ make_run_dir ∷ make_dir ∷ marshal v ∷ write_file v ∷ map (λ (a : Attempt Host). a.0) rest
    pub wraps : All Wraps planned

  pub write_run_calls-IsPlan :
      {F : Type 0} (p : Printer F) (v : Metadata Host) (rec : Recorder F)
      → IsPlan v (write_run_calls p v rec)
  unfolding write_run_calls counters_csv
  write_run_calls-IsPlan p v rec =
      let browser = checked_csv {Host = Host} browser_metrics (rows_for p rec browser_metrics) in
      let hybrid = checked_csv {Host = Host} hybrid_metrics (rows_for p rec hybrid_metrics) in
      let rss = checked_csv {Host = Host} task_rss_metrics (rows_for p rec task_rss_metrics) in
      let counters = counters_csv {Host = Host} (counters_row p (snapshot rec)) in
      record {
        rest = counters ++ browser ++ hybrid ++ rss;
        begins = refl;
        wraps = (
          refl,
          (
            refl,
            (
              refl,
              (
                refl,
                (
                  refl,
                  (
                    refl,
                    (
                      refl,
                      (
                        refl,
                        All-append Wraps (browser ++ hybrid) rss
                            (All-append Wraps browser hybrid
                              (checked_csv-Wraps Host browser_metrics
                                (rows_for p rec browser_metrics) refl)
                              (checked_csv-Wraps Host hybrid_metrics (rows_for p rec hybrid_metrics)
                                refl))
                            (checked_csv-Wraps Host task_rss_metrics
                              (rows_for p rec task_rss_metrics) refl),
                      ),
                    ),
                  ),
                ),
              ),
            ),
          ),
        );
      }
