-- ===== src/Cdp/Tests.antt =====
-- Runs of internal/cdp on a host whose world is the clock, and where the port appears at 250 ms.
use browser_analysis.Prelude.{
  ℕ, ◌+◌, ◌≡◌, refl, ◌≢◌, true, false, [], ◌∷◌, none, some, arith, if◌then◌else◌, ltb,
}
use browser_analysis.Prelude.Int.{pos}
use browser_analysis.Prelude.Text.{codes}
use browser_analysis.Prelude.Double.{nat_double}
use browser_analysis.Metrics.Recorder.{new_recorder}
use browser_analysis.Cdp.{Host, found, out_of_fuel, poll, round, port_of, wait_for_port}
use browser_analysis.Cdp.Wait.{IsTimed, wait_for_port_returns}
use browser_analysis.Cdp.Worker.{Meets, new_worker}
use browser_analysis.Cdp.Worker.Cleanup.{Holds, new_worker-Holds}

abbrev host : Host ℕ
host = record {
  now = λ w. w;
  read_line = λ w. (if ltb 250 w then some (codes "9222") else none, w);
  running = λ w. true;
  sleep = λ t w. w + t;
  atoi = λ line. some (pos 9222);
}

host-IsTimed : IsTimed host
host-IsTimed = record { reads = λ w. omega arith; sleeps = λ t w. omega arith }

poll_test : (poll host 5 30_000 0).0 ≡ found 9222
unfolding poll round port_of
poll_test = refl

wait_for_port_returns_example :
    ((wait_for_port host 0).0 ≢ out_of_fuel) × (poll host 401 30_000 0 ≡ wait_for_port host 0)
wait_for_port_returns_example = wait_for_port_returns host host-IsTimed 0 400 (omega arith)

-- The second context cannot be made, and the process tree not be killed.
abbrev meets : Meets
meets = record {
  dir_made = true;
  started = true;
  killed = false;
  connected = some 12;
  made = some (1, 5) ∷ none ∷ [];
}

new_worker-Holds_example : Holds {F = ℕ} (new_worker host meets new_recorder 0)
new_worker-Holds_example = new_worker-Holds host meets new_recorder 0
