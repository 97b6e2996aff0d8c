-- ===== src/Contexts/Tests.antt =====
-- Runs of the context pool on concrete inputs.
use browser_analysis.Prelude.{◌≡◌, ℕ, ◌≤◌, List, [], ◌∷◌, Option, none, some, arith}
use browser_analysis.Prelude.Double.{nat_double}
use browser_analysis.Metrics.Recorder.{new_recorder}
use browser_analysis.Contexts.{
  context, Pool, acquire, release, close, new_pool_with_browser, new_context, take_context,
}
use browser_analysis.Contexts.Sets.{count}
use browser_analysis.Contexts.Invariant.{
  World, Move, acquires, releases, closes, Sound, Safe, step, run, run-Safe,
}
use browser_analysis.Contexts.Closing.{Tracked, ids, run-Tracked, new_pool-Safe}

abbrev rounds : List (Option (ℕ × ℕ))
rounds = some (1, 5) ∷ some (2, 5) ∷ []

distinct_rounds : (c : ℕ) → count c (ids rounds) ≤ 1
distinct_rounds c = ground arith

abbrev start : World ℕ
start = record { pool = (new_pool_with_browser 0 rounds new_recorder).0; held = [] }

start-Safe : Safe start
start-Safe = (new_pool-Safe 0 rounds new_recorder distinct_rounds).2

-- Two workers take the idle contexts, a third has one made, one comes back, the pool is closed.
abbrev moves : List Move
moves =
    acquires 1 none
    ∷ acquires 2 none
    ∷ acquires 3 (some (3, 7))
    ∷ releases 2
    ∷ closes
    ∷ releases 3
    ∷ []

moves-Sound : Sound moves start
unfolding step acquire release close take_context new_pool_with_browser new_recorder new_context
moves-Sound = ground arith

run-Safe_example : Safe (run moves start)
run-Safe_example = run-Safe moves start moves-Sound start-Safe

run-Tracked_example :
    (Tracked 1 start.pool → Tracked 1 (run moves start).pool)
    × ((c now : ℕ) (made : Option (ℕ × ℕ)) (p : Pool ℕ) (held : List ℕ)
        → (acquire now made p).1 ≡ context c
        → Tracked c (run moves (record { pool = (acquire now made p).0; held = held })).pool)
run-Tracked_example = run-Tracked 1 moves start
