-- ===== src/Results/Files.antt =====
-- internal/results: the files that `WriteRun` of results.go and the two functions of scaling.go write, as
-- the calls that they make of packages os, json and csv. What a call gives and how numbers are printed
-- are parameters.
pub mod Plan
pub mod Complete
mod Tests
use browser_analysis.Prelude.{
  ℕ, zero, suc, Bool, true, false, List, [], ◌∷◌, ◌++◌, Option, none, some, ◌⊎◌, inl, inr, map,
  length, ltb, if◌then◌else◌,
}
use browser_analysis.Prelude.Int.{ℤ, pos}
use browser_analysis.Prelude.Text.{Text, codes}
use browser_analysis.Config.{Config}
use browser_analysis.Metrics.Recorder.{Recorder, Counters, snapshot}
use browser_analysis.Results.{cell, larger, browser_rows, worker_count_for}

-- `Metadata`; `Host` is what the environment, the versions, the clock and the commit are.
pub record Metadata (Host : Type 0) : Type 0 where
  pub run_id : Text
  pub scenario : Text
  pub workflow : Text
  pub concurrency : ℤ
  pub duration_sec : ℤ
  pub warmup_sec : ℤ
  pub cooldown_sec : ℤ
  pub browser_mode : Text
  pub headless : Bool
  pub context_count : ℤ
  pub worker_count : ℤ
  pub host : Host

-- The CSV files of a run.
pub data CsvFile : Type 0 where
  task_metrics browser_metrics hybrid_metrics task_rss_metrics : CsvFile

pub data Call (Host : Type 0) : Type 0 where
  make_run_dir make_dir : Call Host
  marshal write_file : Metadata Host → Call Host
  create flush : CsvFile → Call Host
  put_row : CsvFile → List Text → Call Host

-- What the code makes of a call's error: it is ignored, wrapped by `fmt.Errorf`, or returned as it is.
pub data Wrap : Type 0 where
  ignored create_run_dir create_dir marshal_json write_json plain : Wrap

-- A call, and what is made of its error; an error is returned with what it was wrapped into.
abbrev pub Attempt : Type 0 → Type 0
Attempt Host = Call Host × Wrap

abbrev pub failure_of : {E : Type 0} → Wrap → Option E → Option (Wrap × E)
failure_of w none = none
failure_of ignored (some e) = none
failure_of create_run_dir (some e) = some (create_run_dir, e)
failure_of create_dir (some e) = some (create_dir, e)
failure_of marshal_json (some e) = some (marshal_json, e)
failure_of write_json (some e) = some (write_json, e)
failure_of plain (some e) = some (plain, e)

-- How numbers are printed: `strconv.Itoa` and `fmt`'s %d, and `FormatFloat` with a precision.
pub record Printer (F : Type 0) : Type 0 where
  pub itoa : ℤ → Text
  pub format_float : ℕ → F → Text

-- %02d.
abbrev pub two_digits : Text → Text
two_digits t = if ltb (length t) 2 then codes "0" ++ t else t

module _ {F : Type 0} (p : Printer F) where
  -- `NewRunID`, on the time as `stamp`.
  unfoldable pub new_run_id : Text → Text → ℤ → ℤ → Text
  new_run_id stamp scenario concurrency repetition =
      stamp
      ++ codes "-"
      ++ scenario
      ++ codes "-"
      ++ p.itoa concurrency
      ++ codes "-run"
      ++ two_digits (p.itoa repetition)

  -- The rows of `writeRSSMetricsCSV`.
  abbrev pub rss_rows : Recorder F → List (List Text)
  rss_rows rec = map (λ x. p.format_float 0 x ∷ []) rec.task_rss_deltas

  -- The loop of `writeHybridCSV`, `k` rows from row `i` on.
  unfoldable pub hybrid_rows_from : List F → List F → ℕ → ℕ → List (List Text)
  unfolding cell
  hybrid_rows_from http browser zero i = []
  hybrid_rows_from http browser (suc k) i =
      (cell (p.format_float 9) http i ∷ cell (p.format_float 9) browser i ∷ [])
      ∷ hybrid_rows_from http browser k (suc i)

  unfoldable pub hybrid_rows : Recorder F → List (List Text)
  unfolding hybrid_rows_from
  hybrid_rows rec =
      hybrid_rows_from rec.http_step_latencies rec.browser_step_latencies
        (larger (length rec.http_step_latencies) (length rec.browser_step_latencies)) 0

  -- The row of `writeCountersCSV`.
  abbrev pub counters_row : Counters → List Text
  counters_row c =
      p.itoa (pos c.created)
      ∷ p.itoa (pos c.queued)
      ∷ p.itoa c.active
      ∷ p.itoa (pos c.complete)
      ∷ p.itoa (pos c.failed)
      ∷ p.itoa (pos c.canceled)
      ∷ p.itoa (pos c.retries)
      ∷ p.itoa (pos c.requests_ok)
      ∷ p.itoa (pos c.requests_failed)
      ∷ p.itoa (pos c.ws_events)
      ∷ p.itoa (pos c.workflow_failures)
      ∷ []

  -- The rows below the header that `WriteRun` has for a file.
  unfoldable pub rows_for : Recorder F → CsvFile → List (List Text)
  unfolding hybrid_rows browser_rows snapshot
  rows_for rec task_metrics = counters_row (snapshot rec) ∷ []
  rows_for rec browser_metrics =
      map (λ (r : Text × Text × Text). r.0 ∷ r.1 ∷ r.2 ∷ []) (browser_rows (p.format_float 9) rec)
  rows_for rec hybrid_metrics = hybrid_rows rec
  rows_for rec task_rss_metrics = rss_rows rec

abbrev pub header_of : CsvFile → List Text
header_of task_metrics =
    codes "tasks_created"
    ∷ codes "tasks_queued"
    ∷ codes "tasks_active"
    ∷ codes "tasks_completed"
    ∷ codes "tasks_failed"
    ∷ codes "tasks_cancelled"
    ∷ codes "retries"
    ∷ codes "requests_ok"
    ∷ codes "requests_failed"
    ∷ codes "ws_events"
    ∷ codes "workflow_failures"
    ∷ []
header_of browser_metrics =
    codes "launch_latency_seconds"
    ∷ codes "context_creation_seconds"
    ∷ codes "cdp_connect_seconds"
    ∷ []
header_of hybrid_metrics = codes "http_step_seconds" ∷ codes "browser_step_seconds" ∷ []
header_of task_rss_metrics = codes "task_rss_delta_bytes" ∷ []

module _ {Host : Type 0} where
  unfoldable pub metadata_of : Host → Text → Config → Text → Metadata Host
  unfolding worker_count_for
  metadata_of host run_id cfg workflow = record {
    run_id = run_id;
    scenario = cfg.scenario;
    workflow = workflow;
    concurrency = cfg.concurrency.logical_tasks;
    duration_sec = cfg.timing.measurement_seconds;
    warmup_sec = cfg.timing.warmup_seconds;
    cooldown_sec = cfg.timing.cooldown_seconds;
    browser_mode = cfg.browser.engine;
    headless = cfg.browser.headless;
    context_count = cfg.contexts_count;
    worker_count = worker_count_for cfg;
    host = host;
  }

  -- One call after the other up to the first error that is returned: the calls made, and it.
  unfoldable pub run_calls :
      {E : Type 0}
      → (Call Host → Option E)
      → List (Attempt Host)
      → List (Call Host) × Option (Wrap × E)
  run_calls os [] = ([], none)
  run_calls os ((c, wrap) ∷ rest) =
      let (made, err) = run_calls os rest in
      elim (failure_of wrap (os c)) [ some e ↦ (c ∷ [], some e) | none ↦ (c ∷ made, err) ]

  -- `WriteJSON`, of the metadata.
  abbrev pub write_json_calls : Metadata Host → List (Attempt Host)
  write_json_calls v =
      (make_dir, create_dir) ∷ (marshal v, marshal_json) ∷ (write_file v, write_json) ∷ []

  -- `writeBrowserCSV`, `writeHybridCSV` and `writeRSSMetricsCSV`, on their rows.
  unfoldable pub checked_csv : CsvFile → List (List Text) → List (Attempt Host)
  checked_csv f rows =
      (create f, plain)
      ∷ (map (λ (r : List Text). (put_row f r, plain)) (header_of f ∷ rows)
          ++ (flush f, plain) ∷ [])

  -- `writeCountersCSV`, which ignores the errors of `Write`.
  unfoldable pub counters_csv : List Text → List (Attempt Host)
  counters_csv row =
      (create task_metrics, plain)
      ∷ (put_row task_metrics (header_of task_metrics), ignored)
      ∷ (put_row task_metrics row, ignored)
      ∷ (flush task_metrics, plain)
      ∷ []

  -- The calls of `WriteRun`.
  unfoldable pub write_run_calls :
      {F : Type 0} → Printer F → Metadata Host → Recorder F → List (Attempt Host)
  unfolding rows_for checked_csv counters_csv snapshot
  write_run_calls p meta rec =
      (make_run_dir, create_run_dir)
      ∷ (write_json_calls meta
          ++ counters_csv (counters_row p (snapshot rec))
          ++ checked_csv browser_metrics (rows_for p rec browser_metrics)
          ++ checked_csv hybrid_metrics (rows_for p rec hybrid_metrics)
          ++ checked_csv task_rss_metrics (rows_for p rec task_rss_metrics))

  -- `WriteRun`: the calls, and an error or the run's ID, which with the directory of the results makes
  -- its own.
  unfoldable pub write_run :
      {F E : Type 0}
      → Printer F
      → (Call Host → Option E)
      → Host
      → Text
      → Recorder F
      → Config
      → Text
      → ℤ
      → List (Call Host) × ((Wrap × E) ⊎ Text)
  unfolding write_run_calls run_calls new_run_id metadata_of
  write_run p os host stamp rec cfg workflow repetition =
      let id = new_run_id p stamp cfg.scenario cfg.concurrency.logical_tasks repetition in
      let (made, err) = run_calls os (write_run_calls p (metadata_of host id cfg workflow) rec) in
      (made, elim err [ some e ↦ inl e | none ↦ inr id ])
