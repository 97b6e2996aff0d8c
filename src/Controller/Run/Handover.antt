-- ===== src/Controller/Run/Handover.antt =====
-- Whether the workers that `Run` of internal/controller/controller.go makes come to the pool, whose
-- deferred `Close` closes them.
use browser_analysis.Prelude.{
  ◌≡◌, refl, ap, ◌∙◌, Bool, true, false, List, [], ◌∷◌, ◌++◌, Option, none, some, ◌⊎◌, inl, inr,
  arith, ℕ, Bool-cases,
}
use browser_analysis.Prelude.Text.{Text}
use browser_analysis.Prelude.Int.{pos, ltb_ℤ}
use browser_analysis.Prelude.Double.{Double}
use browser_analysis.Config.{Config}
use browser_analysis.Controller.{worker_limit}
use browser_analysis.Controller.Run.{
  Kind, http, headed, contexts, cdp, hybrid, unknown, kind_of, Call, set_workers, make_http_worker,
  make_browser_worker, make_context_worker, make_cdp_worker, make_hybrid_worker, new_pool,
  close_pool, take_baseline, new_client, close_client, new_manager, close_manager, run_playwright,
  stop_playwright, Met, Ran, failed, worker_failed, no_manager, no_playwright, around, workers_of,
  around_driver, deferred, publish_all, persist, conclude, drive_run, go_on, with_workers,
  with_driver, run_kind, run,
}
use browser_analysis.Stats.{FloatMath}

-- Whether there are workers that the pool does not have, after calls from a time at which it was so or not.
abbrev pub strays : List Call → Bool → Bool
strays [] b = b
strays (set_workers ∷ cs) b = strays cs false
strays (make_http_worker i ∷ cs) b = strays cs true
strays (make_browser_worker i ∷ cs) b = strays cs true
strays (make_context_worker i n ∷ cs) b = strays cs true
strays (make_cdp_worker i n ∷ cs) b = strays cs true
strays (make_hybrid_worker p i n ∷ cs) b = strays cs true
strays (_ ∷ cs) b = strays cs b

strays-append : (xs ys : List Call) (b : Bool) → strays (xs ++ ys) b ≡ strays ys (strays xs b)
strays-append [] ys b = refl
strays-append (set_workers ∷ xs) ys b = strays-append xs ys false
strays-append (make_http_worker i ∷ xs) ys b = strays-append xs ys true
strays-append (make_browser_worker i ∷ xs) ys b = strays-append xs ys true
strays-append (make_context_worker i n ∷ xs) ys b = strays-append xs ys true
strays-append (make_cdp_worker i n ∷ xs) ys b = strays-append xs ys true
strays-append (make_hybrid_worker p i n ∷ xs) ys b = strays-append xs ys true
strays-append (_ ∷ xs) ys b = strays-append xs ys b

-- All workers made came to the pool, or one of them could not be made.
abbrev pub IsHandedOver : {F E : Type 0} → Ran F E → Type 0
IsHandedOver {E} r =
    (strays r.calls false ≡ false) ⊎ ((i : ℕ) × (e : E) × (r.ended ≡ failed (worker_failed i e)))

around-IsHandedOver :
    {F E : Type 0} (before after : List Call) (r : Ran F E)
    → ((b : Bool) → strays before b ≡ b)
    → ((b : Bool) → strays after b ≡ b)
    → IsHandedOver r
    → IsHandedOver (around before r after)
around-IsHandedOver before after r h k (inl clean) = inl (
    strays-append before (r.calls ++ after) false
    ∙ strays-append r.calls after (strays before false)
    ∙ k (strays r.calls (strays before false))
    ∙ ap (strays r.calls) (h false)
    ∙ clean)
around-IsHandedOver before after r h k (inr (i, e, stopped)) = inr (i, e, stopped)

module _ {F E : Type 0} ⦃d : Double F⦄ (fm : FloatMath F) (eq_zero : F → Bool) (measured : F)
    (cfg : Config) (workflow : Text) (exporting : Bool) (met : Met F E) where
  conclude_silent :
      (b : Bool) → strays (conclude fm eq_zero measured cfg workflow exporting met).calls b ≡ b
  unfolding conclude persist publish_all
  conclude_silent b = ground arith

  drive_run_hands :
      (b : Bool) → strays (drive_run fm eq_zero measured cfg workflow exporting met).calls b ≡ false
  unfolding drive_run
  drive_run_hands b =
      let done = conclude fm eq_zero measured cfg workflow exporting met in
      strays-append around_driver (done.calls ++ deferred) b
      ∙ strays-append done.calls deferred false
      ∙ conclude_silent false

  with_workers-IsHandedOver :
      (k : Kind) → IsHandedOver (with_workers fm eq_zero measured k cfg workflow exporting met)
  unfolding with_workers go_on
  with_workers-IsHandedOver k = by_end (workers_of k cfg met.worker_err)
    where
      by_end :
          (made : List Call × Option (ℕ × E))
          → IsHandedOver (go_on fm eq_zero measured cfg workflow exporting met made)
      by_end (made, some (i, e)) = inr (i, e, refl)
      by_end (made, none) =
          let driving = drive_run fm eq_zero measured cfg workflow exporting met in
          inl (
            strays-append made (driving.calls ++ []) false
            ∙ strays-append driving.calls [] (strays made false)
            ∙ drive_run_hands (strays made false))

  managed :
      (err : Option E) (r : Ran F E)
      → IsHandedOver r
      → IsHandedOver (with_driver fm eq_zero measured new_manager close_manager no_manager err r)
  unfolding with_driver
  managed (some e) r h = inl refl
  managed none r h =
      around-IsHandedOver (new_manager ∷ []) (close_manager ∷ []) r (λ b. refl) (λ b. refl) h

  played :
      (err : Option E) (r : Ran F E)
      → IsHandedOver r
      → IsHandedOver
          (with_driver fm eq_zero measured run_playwright stop_playwright no_playwright err r)
  unfolding with_driver
  played (some e) r h = inl refl
  played none r h =
      around-IsHandedOver (run_playwright ∷ []) (stop_playwright ∷ []) r (λ b. refl) (λ b. refl) h

  kind-IsHandedOver :
      (k : Kind) → IsHandedOver (run_kind fm eq_zero measured k cfg workflow exporting met)
  unfolding run_kind
  kind-IsHandedOver http =
      around-IsHandedOver (new_client ∷ []) (close_client ∷ [])
        (with_workers fm eq_zero measured http cfg workflow exporting met) (λ b. refl) (λ b. refl)
        (with_workers-IsHandedOver http)
  kind-IsHandedOver headed =
      managed met.manager_err (with_workers fm eq_zero measured headed cfg workflow exporting met)
        (with_workers-IsHandedOver headed)
  kind-IsHandedOver contexts =
      managed met.manager_err (with_workers fm eq_zero measured contexts cfg workflow exporting met)
        (with_workers-IsHandedOver contexts)
  kind-IsHandedOver cdp =
      played met.playwright_err (with_workers fm eq_zero measured cdp cfg workflow exporting met)
        (with_workers-IsHandedOver cdp)
  kind-IsHandedOver hybrid =
      around-IsHandedOver (new_client ∷ []) (close_client ∷ [])
        (with_driver fm eq_zero measured new_manager close_manager no_manager met.manager_err
          (with_workers fm eq_zero measured hybrid cfg workflow exporting met))
        (λ b. refl) (λ b. refl)
        (managed met.manager_err
          (with_workers fm eq_zero measured hybrid cfg workflow exporting met)
          (with_workers-IsHandedOver hybrid))
  kind-IsHandedOver unknown = inl refl

  pub run-IsHandedOver : IsHandedOver (run fm eq_zero measured cfg workflow exporting met)
  unfolding run
  run-IsHandedOver =
      let body = run_kind fm eq_zero measured (kind_of cfg.scenario) cfg workflow exporting met in
      elim (Bool-cases (ltb_ℤ (worker_limit cfg) (pos 1))) [
        | inl small ↦ rw small (inl refl)
        | inr large ↦ rw large (
            around-IsHandedOver (new_pool ∷ take_baseline ∷ []) (close_pool ∷ []) body (λ b. refl)
              (λ b. refl) (kind-IsHandedOver (kind_of cfg.scenario)))
      ]
