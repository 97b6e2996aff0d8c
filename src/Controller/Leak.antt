-- ===== src/Controller/Leak.antt =====
-- What a start of internal/controller/controller.go that fails leaves running.
use browser_analysis.Prelude.{
  ℕ, zero, suc, ◌+◌, ◌≡◌, refl, ap, Bool, true, false, ◌⊎◌, inl, inr, arith, length, count_if,
  if◌then◌else◌,
}
use browser_analysis.Prelude.Double.{Double}
use browser_analysis.Contexts.{Pool}
use browser_analysis.Metrics.Recorder.{Recorder}
use browser_analysis.Cdp.{Host}
use browser_analysis.Cdp.Worker.{Built, Meets, NewError, new_worker}
use browser_analysis.Cdp.Worker.Cleanup.{Owned, nothing, everything, after_all, new_worker-Holds}
use browser_analysis.Controller.{Start, add_worker, start_cdp}

-- The Chromium processes that the calls have left running.
abbrev pub runs : {F W : Type 0} → Built F W → Bool
runs b = (after_all b.calls nothing).process

abbrev pub running : {F W : Type 0} → Start F W → ℕ
running s = count_if runs s.built

module _ {F W : Type 0} ⦃d : Double F⦄ (h : Host W) where
  -- All calls but one that failed have left a process running.
  abbrev Left : Start F W → Type 0
  Left s = running s + (if s.failed then 1 else 0) ≡ length s.built

  add_worker-Left :
      (made : Pool F ⊎ NewError) (b : Built F W) (rest : Start F W)
      → after_all b.calls nothing ≡ elim made [ inl p ↦ everything | inr e ↦ nothing ]
      → Left rest
      → Left (add_worker h made b rest)
  unfolding add_worker
  add_worker-Left (inl p) b rest holds left =
      ground (arith, ap (λ (o : Owned). o.process) holds, left)
  add_worker-Left (inr e) b rest holds left = ground (arith, ap (λ (o : Owned). o.process) holds)

  start_cdp-Left :
      (k i : ℕ) (meets : ℕ → Meets) (rec : Recorder F) (w : W) → Left (start_cdp h k i meets rec w)
  unfolding start_cdp
  start_cdp-Left zero i meets rec w = refl
  start_cdp-Left (suc k) i meets rec w =
      let b = new_worker h (meets i) rec w in
      add_worker-Left b.pool b _ (new_worker-Holds h (meets i) rec w)
        (start_cdp-Left k (suc i) meets b.rec b.world)

  add_worker-length :
      (n : ℕ) (made : Pool F ⊎ NewError) (b : Built F W) (rest : Start F W)
      → (rest.failed ≡ false → length rest.built ≡ n)
      → (add_worker h made b rest).failed ≡ false
      → length (add_worker h made b rest).built ≡ suc n
  unfolding add_worker
  add_worker-length n (inl p) b rest full fine = ap suc (full fine)
  add_worker-length n (inr e) b rest full fine = absurd (cc)

  start_cdp-length :
      (k i : ℕ) (meets : ℕ → Meets) (rec : Recorder F) (w : W)
      → (start_cdp h k i meets rec w).failed ≡ false
      → length (start_cdp h k i meets rec w).built ≡ k
  unfolding start_cdp
  start_cdp-length zero i meets rec w fine = refl
  start_cdp-length (suc k) i meets rec w fine =
      let b = new_worker h (meets i) rec w in
      add_worker-length k b.pool b (start_cdp h k (suc i) meets b.rec b.world)
        (start_cdp-length k (suc i) meets b.rec b.world) fine

  -- The start of the cdp scenario with `k` workers: if no call of `New` fails there are `k` Chromium
  -- processes; if one fails, `Run` returns its error and every process of the calls before it is still
  -- running.
  pub start_cdp-running :
      (k : ℕ) (meets : ℕ → Meets) (rec : Recorder F) (w : W)
      → let s = start_cdp h k 0 meets rec w in
        (s.failed ≡ false → running s ≡ k) × (s.failed ≡ true → suc (running s) ≡ length s.built)
  start_cdp-running k meets rec w =
      let left = start_cdp-Left k 0 meets rec w in
      let full = start_cdp-length k 0 meets rec w in
      ((λ fine. ground (arith, left, full fine, fine)), (λ failed. ground (arith, left, failed)))
