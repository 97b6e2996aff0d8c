-- ===== src/Controller/Tests.antt =====
-- Starts of internal/controller/controller.go: three workers, of which the third finds no process.
use browser_analysis.Prelude.{ℕ, ◌+◌, true, [], ◌∷◌, some, ltb}
use browser_analysis.Prelude.Int.{pos}
use browser_analysis.Prelude.Text.{codes}
use browser_analysis.Prelude.Double.{nat_double}
use browser_analysis.Cdp.{Host}
use browser_analysis.Cdp.Worker.{Meets}

abbrev host : Host ℕ
host = record {
  now = λ w. w;
  read_line = λ w. (some (codes "9222"), w);
  running = λ w. true;
  sleep = λ t w. w + t;
  atoi = λ line. some (pos 9222);
}

abbrev meets : ℕ → Meets
meets i = record {
  dir_made = true;
  started = ltb i 2;
  killed = true;
  connected = some 12;
  made = some (i, 5) ∷ [];
}
