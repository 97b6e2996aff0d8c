-- ===== src/Contexts/Invariant.antt =====
-- Workers that share the pool of internal/contexts/pool.go: what each holds, and the order of calls.
use browser_analysis.Prelude.{
  ℕ, ◌+◌, ◌≤◌, ◌<◌, ◌≡◌, refl, ◌∙◌, Bool, true, false, List, [], ◌∷◌, Option, none, some, arith,
  length,
}
use browser_analysis.Prelude.Double.{Double}
use browser_analysis.Contexts.{
  Pool, Acquired, context, refused, acquire, release, close, take_context, new_context, pool_closed,
}
use browser_analysis.Contexts.Sets.{
  delete, count, count-put_fresh, length-put_fresh, count-delete, length-delete,
}

-- The pool, and the contexts that `Acquire` gave and nobody has released yet.
pub record World (F : Type 0) : Type 0 where
  pub pool : Pool F
  pub held : List ℕ

-- A call of the pool by one of its workers.
pub data Move : Type 0 where
  acquires : ℕ → Option (ℕ × ℕ) → Move
  releases : ℕ → Move
  closes : Move

-- A context the browser makes is none of those there are; a worker releases what it holds.
abbrev pub Allowed : {F : Type 0} → Move → World F → Type 0
Allowed (acquires now none) w = Unit
Allowed (acquires now (some (c, took))) w =
    (count c w.pool.available ≡ 0) × (count c w.pool.in_use ≡ 0) × (count c w.held ≡ 0)
Allowed (releases c) w = 0 < count c w.held
Allowed closes w = Unit

-- Each context is in one place; while the pool is open it knows who is out and how many there are.
pub record Safe {F : Type 0} (w : World F) : Type 0 where
  pub exclusive : (c : ℕ) → count c w.pool.available + count c w.held ≤ 1
  pub known : w.pool.closed ≡ false → (c : ℕ) → count c w.pool.in_use ≡ count c w.held
  pub counted :
      w.pool.closed ≡ false → w.pool.open_contexts ≡ length w.pool.available + length w.pool.in_use
  pub emptied : w.pool.closed ≡ true → (length w.pool.available ≡ 0) × (length w.pool.in_use ≡ 0)

unfoldable pub hand_over : {F : Type 0} → List ℕ → Pool F × Acquired → World F
hand_over held (q, context c) = record { pool = q; held = c ∷ held }
hand_over held (q, refused e) = record { pool = q; held = held }

module _ {F : Type 0} ⦃d : Double F⦄ where
  unfoldable pub step : Move → World F → World F
  unfolding hand_over
  step (acquires now made) w = hand_over w.held (acquire now made w.pool)
  step (releases c) w = record { pool = release c w.pool; held = delete c w.held }
  step closes w = record { pool = close w.pool; held = w.held }

  unfoldable pub run : List Move → World F → World F
  run [] w = w
  run (m ∷ ms) w = run ms (step m w)

  abbrev pub Sound : List Move → World F → Type 0
  Sound [] w = Unit
  Sound (m ∷ ms) w = Allowed m w × Sound ms (step m w)

  hand_over-Safe :
      (now : ℕ) (made : Option (ℕ × ℕ)) (xs : List ℕ) (w : World F)
      → w.pool.available ≡ xs
      → w.pool.closed ≡ false
      → Allowed (acquires now made) w
      → Safe w
      → Safe (hand_over w.held (take_context now made xs w.pool))
  unfolding hand_over take_context new_context
  hand_over-Safe now made (c ∷ rest) w e closed_not ok s =
      let unheld : count c w.held ≡ 0 = ground (arith, s.exclusive c, e) in
      let unused : count c w.pool.in_use ≡ 0 = s.known closed_not c ∙ unheld in
      record {
        exclusive = λ a. ground (arith, s.exclusive a, e);
        known =
            λ h a. count-put_fresh a c w.pool.in_use unused ∙ ground (arith, s.known closed_not a);
        counted =
            λ h. ground (arith, e, s.counted closed_not, length-put_fresh c w.pool.in_use unused);
        emptied = λ h. cc;
      }
  hand_over-Safe now none [] w e closed_not ok s = record {
    exclusive = s.exclusive;
    known = s.known;
    counted = s.counted;
    emptied = s.emptied;
  }
  hand_over-Safe now (some (c, took)) [] w e closed_not (away, unused, unheld) s = record {
    exclusive = λ a. ground (arith, s.exclusive a, away, unheld);
    known = λ h a. count-put_fresh a c w.pool.in_use unused ∙ ground (arith, s.known closed_not a);
    counted = λ h. ground (arith, s.counted closed_not, length-put_fresh c w.pool.in_use unused);
    emptied = λ h. cc;
  }

  pub acquire_open :
      (now : ℕ) (made : Option (ℕ × ℕ)) (p : Pool F)
      → p.closed ≡ false
      → acquire now made p ≡ take_context now made p.available p
  unfolding acquire
  acquire_open now made p h = ground arith

  pub acquire_closed :
      (now : ℕ) (made : Option (ℕ × ℕ)) (p : Pool F)
      → p.closed ≡ true
      → acquire now made p ≡ (p, refused pool_closed)
  unfolding acquire
  acquire_closed now made p h = ground arith

  acquires-Safe :
      (b : Bool) (now : ℕ) (made : Option (ℕ × ℕ)) (w : World F)
      → w.pool.closed ≡ b
      → Allowed (acquires now made) w
      → Safe w
      → Safe (hand_over w.held (acquire now made w.pool))
  unfolding hand_over
  acquires-Safe true now made w h ok s =
      rw (acquire_closed now made w.pool h) record {
        exclusive = s.exclusive;
        known = s.known;
        counted = s.counted;
        emptied = s.emptied;
      }
  acquires-Safe false now made w h ok s =
      rw (acquire_open now made w.pool h) (hand_over-Safe now made w.pool.available w refl h ok s)

  releases-Safe :
      (c : ℕ) (w : World F)
      → 0 < count c w.held
      → Safe w
      → Safe record { pool = release c w.pool; held = delete c w.held }
  unfolding release
  releases-Safe c w holds s = record {
    exclusive = λ a. ground (arith, s.exclusive a, count-delete a c w.held);
    known = λ h a. ground (
      arith,
      s.known,
      count-delete a c w.held,
      count-delete a c w.pool.in_use,
      s.known (ground arith) a,
    );
    counted = λ h.
        ground (
          arith,
          s.counted,
          s.exclusive c,
          s.known (ground arith) c,
          length-delete c w.pool.in_use,
        );
    emptied = λ h. ground (arith, s.emptied, length-delete c w.pool.in_use);
  }

  closes-Safe : (w : World F) → Safe w → Safe record { pool = close w.pool; held = w.held }
  unfolding close
  closes-Safe w s = record {
    exclusive = λ a. ground (arith, s.exclusive a);
    known = λ h. λ c. ground (arith, s.known);
    counted = λ h. ground (arith, s.counted);
    emptied = λ h. ground (arith, s.emptied);
  }

  step-Safe : (m : Move) (w : World F) → Allowed m w → Safe w → Safe (step m w)
  unfolding step
  step-Safe (acquires now made) w ok s = acquires-Safe w.pool.closed now made w refl ok s
  step-Safe (releases c) w ok s = releases-Safe c w ok s
  step-Safe closes w ok s = closes-Safe w s

  -- Whatever the workers do, in any order, one context is never out twice, nor out and at the same
  -- time in the pool, as long as a worker releases only what it holds and the browser makes new
  -- contexts. While the pool is open its map knows who is out, and it counts every context it has.
  pub run-Safe : (ms : List Move) (w : World F) → Sound ms w → Safe w → Safe (run ms w)
  unfolding run
  run-Safe [] w ok s = s
  run-Safe (m ∷ ms) w (ok, rest) s = run-Safe ms (step m w) rest (step-Safe m w ok s)
