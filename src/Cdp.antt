-- ===== src/Cdp.antt =====
-- internal/cdp/cdp.go: the launcher of a raw Chromium. The operating system and `strconv.Atoi` of the
-- trimmed line are a parameter; times are in milliseconds.
pub mod Wait
pub mod Worker
mod Tests
use browser_analysis.Prelude.{
  ℕ, zero, suc, ◌+◌, ◌-◌, Bool, true, false, List, [], ◌∷◌, Option, none, some, if◌then◌else◌, ltb,
}
use browser_analysis.Prelude.Text.{Text}
use browser_analysis.Prelude.Int.{ℤ, pos, negsuc}

-- `read_line` opens DevToolsActivePort and scans one line: `none` if either fails.
pub record Host (W : Type 0) : Type 0 where
  pub now : W → ℕ
  pub read_line : W → Option Text × W
  pub running : W → Bool
  pub sleep : ℕ → W → W
  pub atoi : Text → Option ℤ

pub data Waited : Type 0 where
  found : ℕ → Waited
  exited timed_out out_of_fuel : Waited

-- `perr == nil && port > 0`.
unfoldable pub valid_port : Option ℤ → Option ℕ
valid_port (some (pos (suc n))) = some (suc n)
valid_port _ = none

unfoldable pub port_of : {W : Type 0} → Host W → Option Text → Option ℕ
unfolding valid_port
port_of h none = none
port_of h (some line) = valid_port (h.atoi line)

-- The calls that take and give back what the launcher owns. `kill_tree` says whether it worked.
pub data Call : Type 0 where
  make_dir remove_dir start_process kill_process connect disconnect : Call
  kill_tree : Bool → Call

-- `Kill` of a launcher whose process was started.
unfoldable pub kill : Bool → List Call
kill true = kill_tree true ∷ remove_dir ∷ []
kill false = kill_tree false ∷ kill_process ∷ remove_dir ∷ []

pub data LaunchError : Type 0 where
  no_dir not_spawned : LaunchError
  no_port : Waited → LaunchError

pub data Launched : Type 0 where
  launched : ℕ → ℕ → Launched
  launch_failed : LaunchError → Launched

-- One round: before the deadline, the port in the file, else the process, else a later round.
unfoldable pub round : {W : Type 0} → Bool → Option ℕ → Bool → W → W → Waited × W → Waited × W
round false port running w w' later = (timed_out, w)
round true (some port) running w w' later = (found port, w')
round true none false w w' later = (exited, w')
round true none true w w' later = later

module _ {W : Type 0} (h : Host W) where
  -- The loop of `waitForPort`, on fuel.
  unfoldable pub poll : ℕ → ℕ → W → Waited × W
  poll zero deadline w = (out_of_fuel, w)
  poll (suc n) deadline w =
      let (line, w') = h.read_line w in
      let later = poll n deadline (h.sleep 100 w') in
      round (ltb (h.now w) deadline) (port_of h line) (h.running w') w w' later

  -- 300 sleeps of 100 ms reach the deadline of 30 s.
  unfoldable pub wait_for_port : W → Waited × W
  wait_for_port w = poll 301 (h.now w + 30_000) w

  -- The end of `Launch`.
  unfoldable pub settle : Bool → ℕ → Waited → W → Launched × List Call × W
  settle killed start (found port) w = (launched port (h.now w - start), [], w)
  settle killed start failure w = (launch_failed (no_port failure), kill killed, w)

  -- `Launch`: whether the directory is made, the process starts, and a kill of its tree works.
  unfoldable pub launch : Bool → Bool → Bool → W → Launched × List Call × W
  unfolding settle kill
  launch false started killed w = (launch_failed no_dir, [], w)
  launch true false killed w = (launch_failed not_spawned, make_dir ∷ remove_dir ∷ [], w)
  launch true true killed w =
      let (waited, w') = wait_for_port w in
      let (result, calls, w'') = settle killed (h.now w) waited w' in
      (result, make_dir ∷ start_process ∷ calls, w'')
