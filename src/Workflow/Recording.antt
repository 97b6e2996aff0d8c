-- ===== src/Workflow/Recording.antt =====
-- What every worker of internal/httpworker, internal/browser, internal/contexts, internal/cdp and
-- internal/hybrid tells the recorder of a result.
use browser_analysis.Prelude.{Bool, true, false, ◌&&◌, Option, none, some, if◌then◌else◌, ltb}
use browser_analysis.Prelude.Double.{Double}
use browser_analysis.Metrics.Recorder.{Recorder, record_step, record_failure}
use browser_analysis.Workflow.{Result, GoError, Status, ok, error_name, classify_error}

abbrev pub is_ok : Status → Bool
is_ok ok = true
is_ok _ = false

abbrev pub has_error : Option GoError → Bool
has_error none = false
has_error (some e) = true

abbrev pub has_time : Result → Bool
has_time r = is_ok r.status && ltb 0 r.duration

module _ {F : Type 0} ⦃d : Double F⦄ where
  unfoldable pub record_timed : Result → Recorder F → Recorder F
  record_timed r rec = if has_time r then record_step r.duration rec else rec

  unfoldable pub record_failed : Option GoError → Recorder F → Recorder F
  record_failed none rec = rec
  record_failed (some e) rec = record_failure (error_name (classify_error e)) rec
