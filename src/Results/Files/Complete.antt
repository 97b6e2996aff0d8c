-- ===== src/Results/Files/Complete.antt =====
-- What is in the directory of a run, by `WriteRun` of internal/results/results.go.
use browser_analysis.Prelude.{
  ◌≡◌, Bool, true, false, List, [], ◌∷◌, ◌++◌, Option, none, some, ◌⊎◌, inr, map, All,
  if◌then◌else◌,
}
use browser_analysis.Prelude.Text.{Text}
use browser_analysis.Config.{Config}
use browser_analysis.Metrics.Recorder.{Recorder}
use browser_analysis.Results.Files.Plan.{Tells}
use browser_analysis.Results.Files.{
  CsvFile, task_metrics, browser_metrics, hybrid_metrics, task_rss_metrics, Call, put_row,
  make_run_dir, make_dir, marshal, write_file, create, flush, Wrap, Attempt, failure_of, Printer,
  header_of,
}

abbrev pub same_file : CsvFile → CsvFile → Bool
same_file task_metrics task_metrics = true
same_file browser_metrics browser_metrics = true
same_file hybrid_metrics hybrid_metrics = true
same_file task_rss_metrics task_rss_metrics = true
same_file _ _ = false

module _ {Host : Type 0} where
  abbrev pub calls_of : List (Attempt Host) → List (Call Host)
  calls_of xs = map (λ (a : Attempt Host). a.0) xs

  -- The rows put into a file by a sequence of calls.
  abbrev pub rows_in : CsvFile → List (Call Host) → List (List Text)
  rows_in f [] = []
  rows_in f (put_row g r ∷ cs) = let rest = rows_in f cs in if same_file g f then r ∷ rest else rest
  rows_in f (make_run_dir ∷ cs) = rows_in f cs
  rows_in f (make_dir ∷ cs) = rows_in f cs
  rows_in f (marshal v ∷ cs) = rows_in f cs
  rows_in f (write_file v ∷ cs) = rows_in f cs
  rows_in f (create g ∷ cs) = rows_in f cs
  rows_in f (flush g ∷ cs) = rows_in f cs

module _ {Host E : Type 0} (os : Call Host → Option E) where
  -- A call that succeeds, or whose error is ignored.
  abbrev pub Fine : Attempt Host → Type 0
  Fine a = failure_of a.1 (os a.0) ≡ none

  -- The calls made are all of those planned.
  pub record AllMade (planned : List (Attempt Host)) (made : List (Call Host))
      (err : Option (Wrap × E)) : Type 0 where
    pub fine : All Fine planned
    pub made_all : made ≡ calls_of planned
    pub no_error : err ≡ none

  -- The calls made end with the first that fails, whose error is returned.
  pub record CutShort (planned : List (Attempt Host)) (made : List (Call Host))
      (err : Option (Wrap × E)) : Type 0 where
    pub before : List (Attempt Host)
    pub failing : Attempt Host
    pub after : List (Attempt Host)
    pub error : Wrap × E
    pub split : planned ≡ before ++ failing ∷ after
    pub fine : All Fine before
    pub fails : failure_of failing.1 (os failing.0) ≡ some error
    pub made_some : made ≡ calls_of before ++ failing.0 ∷ []
    pub returned : err ≡ some error

module _ {F E Host : Type 0} (p : Printer F) (os : Call Host → Option E) (rec : Recorder F) where
  -- All the calls are made, and the run's ID is returned.
  pub record IsWritten (id : Text) (planned : List (Attempt Host)) (made : List (Call Host))
      (result : (Wrap × E) ⊎ Text) : Type 0 where
    pub fine : All (Fine os) planned
    pub made_all : made ≡ calls_of planned
    pub rows :
        (f : CsvFile)
        → (below : List (List Text)) × (rows_in f made ≡ header_of f ∷ below) × Tells p rec f below
    pub returns_id : result ≡ inr id
