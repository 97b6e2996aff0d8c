-- ===== src/Process/Monitor.antt =====
-- internal/process/monitor.go: snapshots of the process table during a run. What the collector gives,
-- first as a seed and then at each tick, is `none` for an error; `Classify` and `Sink` may be unset.
use browser_analysis.Prelude.{append_nil, append_assoc}
use browser_analysis.Prelude.{◌≡◌, refl, ◌∙◌, sym, List, [], ◌∷◌, ◌++◌, Option, none, some}
use browser_analysis.Process.{Snapshot}

-- `S` is the state of what the sink feeds.
pub record Monitor (F S : Type 0) : Type 0 where
  pub snapshots : List (Snapshot F)
  pub sunk : S

module _ {F S : Type 0} (classify : Option (Snapshot F → Snapshot F))
    (sink : Option (Snapshot F → S → S)) where
  abbrev pub classified : Snapshot F → Snapshot F
  classified snap = elim classify [ none ↦ snap | some f ↦ f snap ]

  abbrev pub sent : Snapshot F → S → S
  sent snap s = elim sink [ none ↦ s | some f ↦ f snap s ]

  -- What is done with a snapshot, the same for the seed and for a tick.
  unfoldable pub take_snapshot : Option (Snapshot F) → Monitor F S → Monitor F S
  take_snapshot none m = m
  take_snapshot (some snap) m = record {
    snapshots = m.snapshots ++ classified snap ∷ [];
    sunk = sent (classified snap) m.sunk;
  }

  -- `Run`, the seed being the first.
  unfoldable pub run_monitor : List (Option (Snapshot F)) → Monitor F S → Monitor F S
  unfolding take_snapshot
  run_monitor [] m = m
  run_monitor (got ∷ ticks) m = run_monitor ticks (take_snapshot got m)

  -- The snapshots that the collector gave, classified.
  abbrev pub given : List (Option (Snapshot F)) → List (Snapshot F)
  given [] = []
  given (none ∷ ticks) = given ticks
  given (some snap ∷ ticks) = classified snap ∷ given ticks

  abbrev pub send_each : List (Snapshot F) → S → S
  send_each [] s = s
  send_each (snap ∷ rest) s = send_each rest (sent snap s)

  -- A run of the monitor keeps every snapshot that the collector gave, classified and in order, and its
  -- sink has been given the same ones, each once and in the same order.
  pub run_monitor-given :
      (ticks : List (Option (Snapshot F))) (m : Monitor F S)
      → let left = run_monitor ticks m in
        (left.snapshots ≡ m.snapshots ++ given ticks) × (left.sunk ≡ send_each (given ticks) m.sunk)
  unfolding run_monitor
  run_monitor-given [] m = (sym (append_nil m.snapshots), refl)
  run_monitor-given (none ∷ ticks) m = run_monitor-given ticks m
  run_monitor-given (some snap ∷ ticks) m =
      let (kept, told) = run_monitor-given ticks (take_snapshot (some snap) m) in
      (kept ∙ append_assoc m.snapshots ((classified snap) ∷ []) (given ticks), told)
