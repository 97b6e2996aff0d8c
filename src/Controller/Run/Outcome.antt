-- ===== src/Controller/Run/Outcome.antt =====
-- What `Run` of internal/controller/controller.go returns, and which files it writes.
use browser_analysis.Prelude.{◌≡◌, Bool, true, false, List, [], ◌∷◌, none, some, if◌then◌else◌}
use browser_analysis.Prelude.Text.{Text}
use browser_analysis.Prelude.Int.{pos, ltb_ℤ}
use browser_analysis.Prelude.Double.{Double}
use browser_analysis.Config.{Config}
use browser_analysis.Controller.{worker_limit}
use browser_analysis.Controller.Run.{
  unknown, kind_of, Call, write_run, write_system, write_processes, write_summary, write_resources,
  publish, Met, Ran, Ended, finished, cancelled_with, failed, RunError, pool_size, no_manager,
  no_playwright, worker_failed, not_implemented, benchmark_failed, run_not_written,
  summary_not_written, summary_of, resources_of,
}
use browser_analysis.Stats.{FloatMath}

abbrev pub is_output : Call → Bool
is_output write_run = true
is_output write_system = true
is_output write_processes = true
is_output write_summary = true
is_output write_resources = true
is_output publish = true
is_output _ = false

-- The calls that put something out, in their order.
abbrev pub outputs : List Call → List Call
outputs [] = []
outputs (c ∷ cs) = let rest = outputs cs in if is_output c then c ∷ rest else rest

abbrev pub all_outputs : Bool → List Call
all_outputs exporting =
    write_run
    ∷ write_system
    ∷ write_processes
    ∷ write_summary
    ∷ write_resources
    ∷ (if exporting then publish ∷ [] else [])

module _ {F E : Type 0} ⦃d : Double F⦄ (fm : FloatMath F) (eq_zero : F → Bool) (measured : F)
    (cfg : Config) (workflow : Text) (exporting : Bool) (met : Met F E) where
  -- A failure is that of the call it names, and what was put out before it.
  abbrev pub Fails : RunError E → List Call → Type 0
  Fails (pool_size z) out = (out ≡ []) × (z ≡ worker_limit cfg) × (ltb_ℤ z (pos 1) ≡ true)
  Fails (no_manager e) out = (out ≡ []) × (met.manager_err ≡ some e)
  Fails (no_playwright e) out = (out ≡ []) × (met.playwright_err ≡ some e)
  Fails (worker_failed i e) out = (out ≡ []) × (met.worker_err i ≡ some e)
  Fails (not_implemented s) out = (out ≡ []) × (s ≡ cfg.scenario) × (kind_of s ≡ unknown)
  Fails (benchmark_failed e) out = (out ≡ []) × (met.driver_err ≡ some e) × (met.cancelled ≡ false)
  Fails (run_not_written e) out = (out ≡ write_run ∷ []) × (met.write_run_err ≡ some e)
  Fails (summary_not_written e) out =
      (out ≡ write_run ∷ write_system ∷ write_processes ∷ write_summary ∷ [])
      × (met.write_summary_err ≡ some e)

  abbrev pub Says : Ended F E → List Call → Type 0
  Says (finished s r) out =
      (met.driver_err ≡ none)
      × (met.cancelled ≡ false)
      × (met.write_run_err ≡ none)
      × (met.write_summary_err ≡ none)
      × (s ≡ summary_of fm eq_zero measured cfg workflow met)
      × (r ≡ resources_of fm eq_zero measured cfg workflow met)
      × (out ≡ all_outputs exporting)
  Says (cancelled_with s r) out =
      (met.cancelled ≡ true)
      × (met.write_run_err ≡ none)
      × (met.write_summary_err ≡ none)
      × (s ≡ summary_of fm eq_zero measured cfg workflow met)
      × (r ≡ resources_of fm eq_zero measured cfg workflow met)
      × (out ≡ all_outputs exporting)
  Says (failed e) out = Fails e out

  abbrev pub Reports : Ran F E → Type 0
  Reports r = Says r.ended (outputs r.calls)
