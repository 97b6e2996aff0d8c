-- ===== src/Cdp/Worker.antt =====
-- internal/cdp/worker.go: a Chromium that is spawned, reached over CDP, and kept with a context pool.
-- What Playwright gives is an argument; `calls` are those that take and give back.
pub mod Cleanup
use browser_analysis.Prelude.{
  ℕ, Bool, true, false, List, [], ◌∷◌, ◌++◌, Option, none, some, ◌⊎◌, inl, inr, if◌then◌else◌,
}
use browser_analysis.Prelude.Double.{Double}
use browser_analysis.Metrics.Recorder.{Recorder, record_browser_launch, record_cdp_connect}
use browser_analysis.Browser.Page.Reports.{record_results}
use browser_analysis.Contexts.{
  Pool, new_pool_with_browser, close, acquire, release, context, refused,
}
use browser_analysis.Contexts.Worker.{Outcome, no_page, executed, end_task}
use browser_analysis.Cdp.{
  Host, Call, connect, disconnect, kill, LaunchError, Launched, launched, launch_failed, launch,
}

pub data NewError : Type 0 where
  not_launched : LaunchError → NewError
  not_connected no_pool : NewError

-- The worker is the pool, with the launcher and the connection behind it.
pub record Built (F W : Type 0) : Type 0 where
  pub pool : Pool F ⊎ NewError
  pub rec : Recorder F
  pub calls : List Call
  pub world : W

-- What one call of `New` meets: `started` and `made` as for `launch` and the pool, `killed` whether a
-- kill of the process tree works, `connected` the time that the connection took.
pub record Meets : Type 0 where
  pub dir_made : Bool
  pub started : Bool
  pub killed : Bool
  pub connected : Option ℕ
  pub made : List (Option (ℕ × ℕ))

module _ {F W : Type 0} ⦃d : Double F⦄ where
  -- The end of `New`. A pool that fails has closed the browser itself.
  unfoldable pub with_pool : Bool → Pool F × Bool → List Call → W → Built F W
  with_pool killed (p, true) calls w = record {
    pool = inl p;
    rec = p.rec;
    calls = calls;
    world = w;
  }
  with_pool killed (p, false) calls w = record {
    pool = inr no_pool;
    rec = p.rec;
    calls = calls ++ disconnect ∷ disconnect ∷ kill killed;
    world = w;
  }

  unfoldable pub with_connection : Meets → Option ℕ → List Call → ℕ → Recorder F → W → Built F W
  unfolding new_pool_with_browser
  with_connection m none calls now rec w = record {
    pool = inr not_connected;
    rec = rec;
    calls = calls ++ kill m.killed;
    world = w;
  }
  with_connection m (some took) calls now rec w =
      with_pool m.killed (new_pool_with_browser now m.made (record_cdp_connect took rec))
        (calls ++ connect ∷ []) w

  unfoldable pub with_launch : Meets → Launched → List Call → ℕ → Recorder F → W → Built F W
  with_launch m (launch_failed e) calls now rec w = record {
    pool = inr (not_launched e);
    rec = rec;
    calls = calls;
    world = w;
  }
  with_launch m (launched port took) calls now rec w =
      with_connection m m.connected calls now (record_browser_launch took rec) w

  -- `New`.
  unfoldable pub new_worker : Host W → Meets → Recorder F → W → Built F W
  unfolding launch
  new_worker h m rec w =
      let (result, calls, w') = launch h m.dir_made m.started m.killed w in
      with_launch m result calls (h.now w') rec w'

-- `Run` past `Acquire`, and `Run`: as in internal/contexts/worker.go, with no event for the page.
unfoldable pub serve : {F : Type 0} ⦃d : Double F⦄ → Outcome → ℕ → Pool F → Pool F × Bool
unfolding release record_results end_task
serve no_page c p = (release c p, false)
serve (executed results took failed) c p =
    end_task failed took c (record p { rec = record_results results p.rec })

unfoldable pub run_task :
    {F : Type 0} ⦃d : Double F⦄ → ℕ → Option (ℕ × ℕ) → Outcome → Pool F → Pool F × Bool
unfolding acquire serve
run_task now made outcome p =
    let (q, got) = acquire now made p in
    elim got [ refused e ↦ (q, false) | context c ↦ serve outcome c q ]

-- `Close`: the pool closes the browser unless it is closed already, then the worker does.
unfoldable pub close_worker : {F : Type 0} ⦃d : Double F⦄ → Bool → Pool F → Pool F × List Call
close_worker killed p =
    let first = if p.closed then [] else disconnect ∷ [] in
    (close p, first ++ disconnect ∷ kill killed)
