-- ===== src/Target/Hub/Bounds.antt =====
-- The capacities of the channels of target/backend/ws.go, and what holds in every run of the hub.
use browser_analysis.Prelude.{
  ℕ, ◌≤◌, Bool, true, false, List, [], ◌∷◌, Option, none, some, arith, if◌then◌else◌, length,
  length-append, All, All-append,
}
use browser_analysis.Prelude.Text.{Text}
use browser_analysis.Target.Hub.{
  Event, Client, Hub, new_hub, is_client, join, remove, leave, send_all, deliver, dispatch,
  broadcast, receive,
}
use browser_analysis.Target.Hub.Channels.{
  Step, joins, leaves, receives, dispatches, broadcasts, step, run, joinings, Once, tally-run,
}

-- The channels' capacities.
pub record IsBounded (h : Hub) : Type 0 where
  pub waiting : All (λ c. length c.send ≤ 16) h.clients
  pub queued : length h.events ≤ 256

waiting-send_all :
    (payload : Text) (cs : List Client)
    → All (λ c. length c.send ≤ 16) cs
    → All (λ c. length c.send ≤ 16) (send_all payload cs).0
unfolding send_all
waiting-send_all payload [] h = tt
waiting-send_all payload (c ∷ cs) (here, rest) =
    ground (arith, waiting-send_all payload cs rest, length-append c.send (payload ∷ []))

waiting-remove :
    (i : ℕ) (cs : List Client)
    → All (λ c. length c.send ≤ 16) cs
    → All (λ c. length c.send ≤ 16) (remove i cs)
unfolding remove
waiting-remove i [] h = tt
waiting-remove i (c ∷ cs) (here, rest) = ground (arith, waiting-remove i cs rest)

waiting-receive :
    (i : ℕ) (cs : List Client)
    → All (λ c. length c.send ≤ 16) cs
    → All (λ c. length c.send ≤ 16) (receive i cs)
unfolding receive
waiting-receive i [] h = tt
waiting-receive i (c ∷ cs) (here, rest) = ground (arith, waiting-receive i cs rest)

deliver-IsBounded : (payload : Option Text) (h : Hub) → IsBounded h → IsBounded (deliver payload h)
unfolding deliver
deliver-IsBounded none h b = b
deliver-IsBounded (some payload) h b = record {
  waiting = waiting-send_all payload h.clients b.waiting;
  queued = b.queued;
}

dispatch-IsBounded :
    (marshal : Event → Option Text) (now : ℕ) (evs : List Event) (h : Hub)
    → length evs ≤ 256
    → IsBounded h
    → IsBounded (dispatch marshal now evs h)
unfolding dispatch
dispatch-IsBounded marshal now [] h few b = b
dispatch-IsBounded marshal now (ev ∷ rest) h few b =
    deliver-IsBounded (marshal (record ev { at = now })) _
      (record { waiting = b.waiting; queued = omega (arith, few) })

if-IsBounded : (b : Bool) (x y : Hub) → IsBounded x → IsBounded y → IsBounded (if b then x else y)
if-IsBounded true x y hx hy = hx
if-IsBounded false x y hx hy = hy

waiting-broadcast :
    (ev : Event) (h : Hub)
    → All (λ c. length c.send ≤ 16) h.clients
    → All (λ c. length c.send ≤ 16) (broadcast ev h).clients
unfolding broadcast
waiting-broadcast ev h b = ground (arith, b)

queued-broadcast :
    (ev : Event) (h : Hub) → length h.events ≤ 256 → length (broadcast ev h).events ≤ 256
unfolding broadcast
queued-broadcast ev h b = ground (arith, b, length-append h.events (ev ∷ []))

pub broadcast-IsBounded : (ev : Event) (h : Hub) → IsBounded h → IsBounded (broadcast ev h)
broadcast-IsBounded ev h b = record {
  waiting = waiting-broadcast ev h b.waiting;
  queued = queued-broadcast ev h b.queued;
}

step-IsBounded :
    (marshal : Event → Option Text) (s : Step) (h : Hub)
    → IsBounded h
    → IsBounded (step marshal s h)
unfolding join leave
step-IsBounded marshal (joins i) h b = if-IsBounded (is_client i h.clients) _ _ b (record {
  waiting = All-append (λ c. length c.send ≤ 16) h.clients _ b.waiting (omega arith, tt);
  queued = b.queued;
})
step-IsBounded marshal (leaves i) h b =
    if-IsBounded (is_client i h.clients) _ _
      (record { waiting = waiting-remove i h.clients b.waiting; queued = b.queued }) b
step-IsBounded marshal (receives i) h b = record {
  waiting = waiting-receive i h.clients b.waiting;
  queued = b.queued;
}
step-IsBounded marshal (dispatches now) h b = dispatch-IsBounded marshal now h.events h b.queued b
step-IsBounded marshal (broadcasts ev) h b = broadcast-IsBounded ev h b

run-IsBounded :
    (marshal : Event → Option Text) (ss : List Step) (h : Hub)
    → IsBounded h
    → IsBounded (run marshal ss h)
run-IsBounded marshal [] h b = b
run-IsBounded marshal (s ∷ ss) h b =
    run-IsBounded marshal ss (step marshal s h) (step-IsBounded marshal s h b)

-- In every run of a new hub in which no client joins twice, whatever the order of its steps and those
-- of the other goroutines: a client is in the map once with an open channel, or its channel has been
-- closed once, or neither, so that no channel is closed twice and nothing is sent on a closed one; no
-- client has more than 16 messages waiting, and no more than 256 events wait.
pub hub-IsBounded :
    (marshal : Event → Option Text) (ss : List Step)
    → ((id : ℕ) → joinings id ss ≤ 1)
    → Once (run marshal ss new_hub) × IsBounded (run marshal ss new_hub)
unfolding new_hub
hub-IsBounded marshal ss once = (
  (λ id. omega (arith, tally-run marshal id ss new_hub, once id)),
  run-IsBounded marshal ss new_hub (record { waiting = tt; queued = omega arith }),
)
