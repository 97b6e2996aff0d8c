-- ===== src/Cdp/Worker/Cleanup.antt =====
-- What internal/cdp/worker.go has in its hands after `New` and after `Close`.
use browser_analysis.Prelude.{
  ℕ, if◌then◌else◌, ◌≡◌, refl, ap, ◌∙◌, Bool, true, false, List, [], ◌∷◌, ◌++◌, Option, none, some,
  arith, inl, inr,
}
use browser_analysis.Prelude.Double.{Double}
use browser_analysis.Metrics.Recorder.{Recorder, record_cdp_connect}
use browser_analysis.Contexts.{Pool, new_pool_with_browser, close, acquire, take_context, release}
use browser_analysis.Contexts.Worker.{Outcome, no_page, executed, succeeds, poisons, end_task}
use browser_analysis.Cdp.{
  Host, Waited, found, exited, timed_out, out_of_fuel, Call, make_dir, remove_dir, start_process,
  kill_process, connect, disconnect, kill_tree, kill, Launched, launched, launch_failed, launch,
  settle, wait_for_port,
}
use browser_analysis.Cdp.Worker.{
  Built, Meets, with_pool, with_connection, with_launch, new_worker, close_worker, run_task, serve,
}

-- What is owned: the directory, the process, the connection.
pub record Owned : Type 0 where
  pub dir : Bool
  pub process : Bool
  pub connection : Bool

abbrev pub nothing : Owned
nothing = record { dir = false; process = false; connection = false }

abbrev pub everything : Owned
everything = record { dir = true; process = true; connection = true }

-- A kill of the process itself is taken to work.
abbrev pub after : Call → Owned → Owned
after make_dir o = record o { dir = true }
after remove_dir o = record o { dir = false }
after start_process o = record o { process = true }
after kill_process o = record o { process = false }
after (kill_tree true) o = record o { process = false }
after (kill_tree false) o = o
after connect o = record o { connection = true }
after disconnect o = record o { connection = false }

abbrev pub after_all : List Call → Owned → Owned
after_all [] o = o
after_all (c ∷ cs) o = after_all cs (after c o)

after_all-append :
    (xs ys : List Call) (o : Owned) → after_all (xs ++ ys) o ≡ after_all ys (after_all xs o)
after_all-append [] ys o = refl
after_all-append (x ∷ xs) ys o = after_all-append xs ys (after x o)

-- All is owned if there is a worker, else nothing is.
abbrev pub Holds : {F W : Type 0} → Built F W → Type 0
Holds b = after_all b.calls nothing ≡ elim b.pool [ inl p ↦ everything | inr e ↦ nothing ]

kill-after :
    (killed connected : Bool)
    → after_all (kill killed) (record { dir = true; process = true; connection = connected })
      ≡ record { dir = false; process = false; connection = connected }
unfolding kill
kill-after true connected = refl
kill-after false connected = refl

-- The calls of `Launch` when there is a launcher, and when there is none.
abbrev Launches : Launched → List Call → Type 0
Launches (launched port took) calls =
    after_all calls nothing ≡ record { dir = true; process = true; connection = false }
Launches (launch_failed e) calls = after_all calls nothing ≡ nothing

settle-Launches :
    {W : Type 0} (h : Host W) (killed : Bool) (start : ℕ) (waited : Waited) (w : W)
    → let (result, calls, w') = settle h killed start waited w in
      Launches result (make_dir ∷ start_process ∷ calls)
unfolding settle
settle-Launches h killed start (found port) w = refl
settle-Launches h killed start exited w = kill-after killed false
settle-Launches h killed start timed_out w = kill-after killed false
settle-Launches h killed start out_of_fuel w = kill-after killed false

launch-Launches :
    {W : Type 0} (h : Host W) (dir_made started killed : Bool) (w : W)
    → let (result, calls, w') = launch h dir_made started killed w in Launches result calls
unfolding launch
launch-Launches h false started killed w = refl
launch-Launches h true false killed w = refl
launch-Launches h true true killed w =
    let (waited, w') = wait_for_port h w in settle-Launches h killed (h.now w) waited w'

module _ {F W : Type 0} ⦃d : Double F⦄ where
  pool-Holds :
      (killed : Bool) (made : Pool F × Bool) (calls : List Call) (w : W)
      → after_all calls nothing ≡ everything
      → Holds (with_pool killed made calls w)
  unfolding with_pool
  pool-Holds killed (p, true) calls w e = e
  pool-Holds killed (p, false) calls w e =
      after_all-append calls _ nothing
      ∙ ap (after_all (disconnect ∷ disconnect ∷ kill killed)) e
      ∙ kill-after killed false

  connection-Holds :
      (m : Meets) (connected : Option ℕ) (calls : List Call) (now : ℕ) (rec : Recorder F) (w : W)
      → after_all calls nothing ≡ record { dir = true; process = true; connection = false }
      → Holds (with_connection m connected calls now rec w)
  unfolding with_connection
  connection-Holds m none calls now rec w e =
      after_all-append calls _ nothing
      ∙ ap (after_all (kill m.killed)) e
      ∙ kill-after m.killed false
  connection-Holds m (some took) calls now rec w e =
      pool-Holds m.killed (new_pool_with_browser now m.made (record_cdp_connect took rec))
        (calls ++ connect ∷ []) w
        (after_all-append calls _ nothing ∙ ap (after_all (connect ∷ [])) e)

  launch-Holds :
      (m : Meets) (result : Launched) (calls : List Call) (now : ℕ) (rec : Recorder F) (w : W)
      → Launches result calls
      → Holds (with_launch m result calls now rec w)
  unfolding with_launch
  launch-Holds m (launch_failed e) calls now rec w h = h
  launch-Holds m (launched port took) calls now rec w h =
      connection-Holds m m.connected calls now _ w h

  -- `New` takes the directory, the process and the connection, and keeps all three if it gives a
  -- worker; wherever it fails, at the directory, the start, the wait for the port, the connection or
  -- the pool, it has given back what it had taken.
  pub new_worker-Holds :
      (h : Host W) (m : Meets) (rec : Recorder F) (w : W) → Holds (new_worker h m rec w)
  unfolding new_worker
  new_worker-Holds h m rec w =
      let (result, calls, w') = launch h m.dir_made m.started m.killed w in
      launch-Holds m result calls (h.now w') rec w'
        (launch-Launches h m.dir_made m.started m.killed w)

-- `Close` of a worker gives everything back, whether or not its pool was closed before and whether or
-- not the process tree can be killed.
pub close_worker_releases :
    {F : Type 0} ⦃d : Double F⦄ (killed : Bool) (p : Pool F)
    → let (q, calls) = close_worker killed p in
      (q.closed ≡ true) × (after_all calls everything ≡ nothing)
unfolding close_worker close kill
close_worker_releases true p = ground arith
close_worker_releases false p = ground arith

-- On an open pool with an idle context `c`, a task whatever its outcome puts `c` back on top of the idle
-- ones; it has closed `c` exactly if the executor failed, and `Run` returns no error exactly if there
-- was a page and the executor did not fail.
pub cdp_run_task-context :
    {F : Type 0} ⦃d : Double F⦄ (now : ℕ) (made : Option (ℕ × ℕ)) (outcome : Outcome) (p : Pool F)
    (c : ℕ) (rest : List ℕ)
    → p.closed ≡ false
    → p.available ≡ c ∷ rest
    → let (q, fine) = run_task now made outcome p in
      (fine ≡ succeeds outcome)
      × (q.available ≡ p.available)
      × (q.closed_contexts ≡ (if poisons outcome then c ∷ p.closed_contexts else p.closed_contexts))
unfolding run_task serve end_task acquire take_context release
cdp_run_task-context now made no_page p c rest h e = ground arith
cdp_run_task-context now made (executed results took true) p c rest h e = ground arith
cdp_run_task-context now made (executed results took false) p c rest h e = ground arith
