-- ===== src/Contexts.antt =====
-- internal/contexts/pool.go: the pool of isolated browser contexts. The browser is Playwright's and a
-- parameter: a context is a number, and what `browser.NewContext` gives is an argument of the call
-- that makes it, `none` for an error. Each method holds the mutex, so calls do not overlap; `Close`
-- closes the contexts after it has let the mutex go, when the pool no longer holds them.
pub mod Sets
pub mod Invariant
pub mod Closing
pub mod Launch
pub mod Worker
mod Tests
use browser_analysis.Prelude.{
  ℕ, suc, Bool, true, false, List, [], ◌∷◌, ◌++◌, Option, none, some, if◌then◌else◌,
}
use browser_analysis.Prelude.Double.{Double}
use browser_analysis.Metrics.Lifecycle.{event, context_create_started}
use browser_analysis.Metrics.Recorder.{Recorder, record_context_creation, record_lifecycle}
use Sets.{put, delete}

-- The end of the slice `available` is the head of the list. `in_use` is the key set of the map.
-- `closed_contexts` are those on which the pool or a worker has called `Close`, the latest first.
pub record Pool (F : Type 0) : Type 0 where
  pub available : List ℕ
  pub in_use : List ℕ
  pub open_contexts : ℕ
  pub closed : Bool
  pub closed_contexts : List ℕ
  pub browser_closed : Bool
  pub rec : Recorder F

pub data PoolError : Type 0 where
  pool_closed create_failed : PoolError

pub data Acquired : Type 0 where
  context : ℕ → Acquired
  refused : PoolError → Acquired

module _ {F : Type 0} ⦃d : Double F⦄ where
  -- `newContext` at time `now`: the event is recorded first, the count only on success.
  unfoldable pub new_context : ℕ → Option (ℕ × ℕ) → Pool F → Pool F × Option (ℕ × ℕ)
  new_context now made p =
      let q = record p { rec = record_lifecycle (event context_create_started now 0) p.rec } in
      elim made [
        | none ↦ (q, none)
        | some (c, took) ↦ (record q { open_contexts = suc q.open_contexts }, some (c, took))
      ]

  unfoldable pub close : Pool F → Pool F
  close p = if p.closed then p else record p {
    closed = true;
    available = [];
    in_use = [];
    closed_contexts = (p.available ++ p.in_use) ++ p.closed_contexts;
    browser_closed = true;
  }

  -- The loop of `NewPoolWithBrowser`, with what the browser gives in each round.
  unfoldable pub add_contexts : ℕ → List (Option (ℕ × ℕ)) → Pool F → Pool F × Bool
  add_contexts now [] p = (p, true)
  add_contexts now (made ∷ rest) p =
      let (q, got) = new_context now made p in
      elim got [
        | none ↦ (close q, false)
        | some (c, took) ↦
            add_contexts now rest
              (record q { rec = record_context_creation took q.rec; available = c ∷ q.available })
      ]

  unfoldable pub empty_pool : Recorder F → Pool F
  empty_pool rec = record {
    available = [];
    in_use = [];
    open_contexts = 0;
    closed = false;
    closed_contexts = [];
    browser_closed = false;
    rec = rec;
  }

  -- `NewPoolWithBrowser`: the pool, and whether it is returned without an error.
  unfoldable pub new_pool_with_browser : ℕ → List (Option (ℕ × ℕ)) → Recorder F → Pool F × Bool
  unfolding add_contexts empty_pool close
  new_pool_with_browser now made rec = add_contexts now made (empty_pool rec)

  -- `Acquire` past its first test.
  unfoldable pub take_context : ℕ → Option (ℕ × ℕ) → List ℕ → Pool F → Pool F × Acquired
  unfolding put
  take_context now made (c ∷ rest) p =
      (record p { available = rest; in_use = put c p.in_use }, context c)
  take_context now made [] p =
      let (q, got) = new_context now made p in
      elim got [
        | none ↦ (q, refused create_failed)
        | some (c, took) ↦ (
          record q { rec = record_context_creation took q.rec; in_use = put c q.in_use },
          context c,
        )
      ]

  unfoldable pub acquire : ℕ → Option (ℕ × ℕ) → Pool F → Pool F × Acquired
  unfolding take_context new_context
  acquire now made p =
      if p.closed then (p, refused pool_closed) else take_context now made p.available p

  unfoldable pub release : ℕ → Pool F → Pool F
  unfolding delete
  release c p =
      let q = record p { in_use = delete c p.in_use } in
      if q.closed
      then record q { closed_contexts = c ∷ q.closed_contexts }
      else record q { available = c ∷ q.available }
