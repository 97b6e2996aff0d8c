-- ===== src/Contexts/Closing.antt =====
-- `NewPoolWithBrowser` and `Close` of internal/contexts/pool.go: no context is lost.
use browser_analysis.Prelude.{
  ℕ, ◌+◌, ◌≤◌, ◌<◌, ◌≡◌, refl, sym, ap, ◌∙◌, Bool, true, false, not, List, [], ◌∷◌, ◌++◌, Option,
  none, some, arith, length,
}
use browser_analysis.Prelude.Double.{Double}
use browser_analysis.Metrics.Recorder.{Recorder}
use browser_analysis.Contexts.{
  Pool, Acquired, context, refused, acquire, release, close, add_contexts, new_pool_with_browser,
  take_context, new_context, pool_closed, empty_pool,
}
use browser_analysis.Contexts.Sets.{put, count, count-append, mem-count, count-delete}
use browser_analysis.Contexts.Invariant.{
  World, Move, acquires, releases, closes, Safe, step, run, hand_over, acquire_open, acquire_closed,
}

-- The contexts the browser makes in these rounds.
abbrev pub ids : List (Option (ℕ × ℕ)) → List ℕ
ids [] = []
ids (none ∷ rest) = ids rest
ids (some (c, took) ∷ rest) = c ∷ ids rest

-- Whether a round fails.
abbrev pub all_made : List (Option (ℕ × ℕ)) → Bool
all_made [] = true
all_made (none ∷ rest) = false
all_made (some made ∷ rest) = all_made rest

-- In the pool while it is open, closed afterwards.
abbrev pub Tracked : {F : Type 0} → ℕ → Pool F → Type 0
Tracked c p =
    (p.closed ≡ false → 0 < count c p.available + count c p.in_use)
    × (p.closed ≡ true → 0 < count c p.closed_contexts)

count-put : (a c : ℕ) (xs : List ℕ) → count a xs ≤ count a (put c xs)
unfolding put
count-put a c xs = ground arith

count-put_self : (c : ℕ) (xs : List ℕ) → 0 < count c (put c xs)
unfolding put
count-put_self c xs = ground (arith, mem-count c xs)

module _ {F : Type 0} ⦃d : Double F⦄ where
  -- An unused pool that is being filled.
  record Filling (p : Pool F) (coming : List ℕ) : Type 0 where
    distinct : (c : ℕ) → count c p.available + count c coming ≤ 1
    none_out : p.in_use ≡ []
    still_open : p.closed ≡ false
    all_counted : p.open_contexts ≡ length p.available

  add_contexts-Safe :
      (now : ℕ) (rounds : List (Option (ℕ × ℕ))) (p : Pool F)
      → Filling p (ids rounds)
      → let (q, done) = add_contexts now rounds p in
        (done ≡ all_made rounds) × (q.closed ≡ not done) × Safe record { pool = q; held = [] }
  unfolding add_contexts new_context close
  add_contexts-Safe now [] p h = (
    refl,
    h.still_open,
    record {
      exclusive = λ c. ground (arith, h.distinct c);
      known = λ e c. ground (arith, h.none_out);
      counted = λ e. ground (arith, h.all_counted, h.none_out);
      emptied = λ e. cc (e, h.still_open);
    },
  )
  add_contexts-Safe now (none ∷ rest) p h = (
    refl,
    ground (arith, h.still_open),
    record {
      exclusive = λ c. ground (arith, h.distinct c, h.still_open);
      known = λ e c. ground (arith, h.none_out, h.still_open);
      counted = λ e. ground (arith, h.none_out, h.still_open);
      emptied = λ e. ground (arith, h.still_open);
    },
  )
  add_contexts-Safe now (some (c, took) ∷ rest) p h = add_contexts-Safe now rest _ record {
    distinct = λ a. ground (arith, h.distinct a);
    none_out = h.none_out;
    still_open = h.still_open;
    all_counted = omega (arith, h.all_counted);
  }

  close-Tracked : (a : ℕ) (p : Pool F) → Tracked a p → Tracked a (close p)
  unfolding close
  close-Tracked a p (inside, after) = ground (
    arith,
    inside,
    after,
    count-append a (p.available ++ p.in_use) p.closed_contexts,
    count-append a p.available p.in_use,
  )

  release-Tracked : (a c : ℕ) (p : Pool F) → Tracked a p → Tracked a (release c p)
  unfolding release
  release-Tracked a c p (inside, after) = ground (arith, inside, after, count-delete a c p.in_use)

  take-Tracked :
      (a now : ℕ) (made : Option (ℕ × ℕ)) (xs : List ℕ) (p : Pool F)
      → p.available ≡ xs
      → Tracked a p
      → Tracked a (take_context now made xs p).0
  unfolding take_context new_context
  take-Tracked a now made (c ∷ rest) p e (inside, after) =
      ground (arith, inside, after, e, count-put a c p.in_use, count-put_self c p.in_use)
  take-Tracked a now none [] p e t = t
  take-Tracked a now (some (c, took)) [] p e (inside, after) =
      ground (arith, inside, after, count-put a c p.in_use)

  acquire-Tracked :
      (b : Bool) (a now : ℕ) (made : Option (ℕ × ℕ)) (p : Pool F)
      → p.closed ≡ b
      → Tracked a p
      → Tracked a (acquire now made p).0
  acquire-Tracked true a now made p h t = rw (acquire_closed now made p h) t
  acquire-Tracked false a now made p h t =
      rw (acquire_open now made p h) (take-Tracked a now made p.available p refl t)

  hand_over-pool : (held : List ℕ) (got : Pool F × Acquired) → (hand_over held got).pool ≡ got.0
  unfolding hand_over
  hand_over-pool held (q, context c) = refl
  hand_over-pool held (q, refused e) = refl

  step-Tracked : (a : ℕ) (m : Move) (w : World F) → Tracked a w.pool → Tracked a (step m w).pool
  unfolding step
  step-Tracked a (acquires now made) w t =
      rw (hand_over-pool w.held (acquire now made w.pool))
        (acquire-Tracked w.pool.closed a now made w.pool refl t)
  step-Tracked a (releases c) w t = release-Tracked a c w.pool t
  step-Tracked a closes w t = close-Tracked a w.pool t

  moves-Tracked :
      (a : ℕ) (ms : List Move) (w : World F) → Tracked a w.pool → Tracked a (run ms w).pool
  unfolding run
  moves-Tracked a [] w t = t
  moves-Tracked a (m ∷ ms) w t = moves-Tracked a ms (step m w) (step-Tracked a m w t)

  taken-Tracked :
      (c now : ℕ) (made : Option (ℕ × ℕ)) (xs : List ℕ) (p : Pool F)
      → p.available ≡ xs
      → p.closed ≡ false
      → (take_context now made xs p).1 ≡ context c
      → Tracked c (take_context now made xs p).0
  unfolding take_context new_context
  taken-Tracked c now made (x ∷ rest) p e still_open got =
      ground (arith, e, still_open, got, count-put_self c p.in_use)
  taken-Tracked c now none [] p e still_open got = absurd (cc)
  taken-Tracked c now (some (x, took)) [] p e still_open got =
      ground (arith, e, still_open, got, count-put_self c p.in_use)

  acquired-Tracked :
      (b : Bool) (c now : ℕ) (made : Option (ℕ × ℕ)) (p : Pool F)
      → p.closed ≡ b
      → (acquire now made p).1 ≡ context c
      → Tracked c (acquire now made p).0
  acquired-Tracked true c now made p h got =
      absurd (cc (got, ap (λ (r : Pool F × Acquired). r.1) (acquire_closed now made p h)))
  acquired-Tracked false c now made p h got = rw (acquire_open now made p h) (
      taken-Tracked c now made p.available p refl h
        (sym (ap (λ (r : Pool F × Acquired). r.1) (acquire_open now made p h)) ∙ got))

  -- Whatever the workers do, and whenever the pool is closed, a context that the pool has, or that
  -- `Acquire` hands out, is not lost: it stays in the pool or its map until the pool is closed, and is
  -- closed from then on. For `Acquire` this is so whatever the pool was.
  pub run-Tracked :
      (a : ℕ) (ms : List Move) (w : World F)
      → (Tracked a w.pool → Tracked a (run ms w).pool)
        × ((c now : ℕ) (made : Option (ℕ × ℕ)) (p : Pool F) (held : List ℕ)
            → (acquire now made p).1 ≡ context c
            → Tracked c (run ms (record { pool = (acquire now made p).0; held = held })).pool)
  run-Tracked a ms w = (
    moves-Tracked a ms w,
    (λ c now made p held got.
        moves-Tracked c ms (record { pool = (acquire now made p).0; held = held })
          (acquired-Tracked p.closed c now made p refl got)),
  )

  -- Of a browser that makes distinct contexts, the new pool is well formed, and it is returned, open,
  -- exactly if each of its contexts could be made; otherwise it is closed.
  pub new_pool-Safe :
      (now : ℕ) (rounds : List (Option (ℕ × ℕ))) (rec : Recorder F)
      → ((c : ℕ) → count c (ids rounds) ≤ 1)
      → let (q, done) = new_pool_with_browser now rounds rec in
        (done ≡ all_made rounds) × (q.closed ≡ not done) × Safe record { pool = q; held = [] }
  unfolding new_pool_with_browser empty_pool
  new_pool-Safe now rounds rec distinct = add_contexts-Safe now rounds (empty_pool rec) record {
    distinct = λ c. omega (arith, distinct c);
    none_out = refl;
    still_open = refl;
    all_counted = refl;
  }

  -- A closed pool: closing it again changes nothing, every `Acquire` is refused, and a context that
  -- comes back is closed and does not enter the pool.
  pub close_stays :
      (p : Pool F) (now : ℕ) (made : Option (ℕ × ℕ)) (c : ℕ)
      → let q = close p in
        let r = release c q in
        (q.closed ≡ true)
        × (close q ≡ q)
        × (acquire now made q ≡ (q, refused pool_closed))
        × (r.closed_contexts ≡ c ∷ q.closed_contexts)
        × (r.available ≡ q.available)
  unfolding close release acquire
  close_stays p now made c = ground arith
