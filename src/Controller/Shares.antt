-- ===== src/Controller/Shares.antt =====
-- How internal/controller/controller.go shares out workers and contexts.
use native.Mathlib.Nat.{div-mul-le_self, lt-div-mul-add, div-eq_of_lt, le-div_iff_mul-le}
use browser_analysis.Prelude.{ℕ, ◌+◌, ◌*◌, ◌/◌, ◌≤◌, ◌<◌, ◌≡◌, arith}
use browser_analysis.Prelude.Int.{pos}
use browser_analysis.Controller.{per_worker}

per_worker_share : (n limit : ℕ) → 1 ≤ n / limit → per_worker (pos n) limit ≡ n / limit
unfolding per_worker
per_worker_share n limit h = ground arith

per_worker_least : (n limit : ℕ) → n / limit ≡ 0 → per_worker (pos n) limit ≡ 1
unfolding per_worker
per_worker_least n limit h = ground arith

-- With a limit of at least 1, the contexts of all workers together are the requested number less its
-- remainder by the limit, if that number is at least the limit; otherwise there is one for each worker.
pub contexts_shared :
    (n limit : ℕ)
    → 1 ≤ limit
    → (limit ≤ n
        → (per_worker (pos n) limit * limit ≤ n) × (n < per_worker (pos n) limit * limit + limit))
      × (n < limit → per_worker (pos n) limit ≡ 1)
contexts_shared n limit some_worker = (
  (λ h.
      let share =
        (le-div_iff_mul-le {k = limit} {x = 1} {y = n} some_worker).1 (omega (arith, h)) in
      rw (per_worker_share n limit share)
        (div-mul-le_self n limit, lt-div-mul-add {a = n} some_worker)),
  (λ h. per_worker_least n limit (div-eq_of_lt h)),
)
