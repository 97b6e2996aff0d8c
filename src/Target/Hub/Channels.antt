-- ===== src/Target/Hub/Channels.antt =====
-- The channels of target/backend/ws.go are closed once.
use browser_analysis.Prelude.{
  ℕ, suc, ◌+◌, ◌≤◌, ◌≡◌, refl, true, List, [], ◌∷◌, ◌++◌, Option, none, some, arith, if◌then◌else◌,
  ◌==◌, count_if,
}
use browser_analysis.Prelude.Text.{Text}
use browser_analysis.Target.Hub.{
  Event, Client, Hub, is_client, join, remove, leave, send_all, deliver, dispatch, broadcast,
  receive,
}

-- A step of the hub's goroutine or of another on its channels.
pub data Step : Type 0 where
  joins leaves receives : ℕ → Step
  dispatches : ℕ → Step
  broadcasts : Event → Step

abbrev pub step : (Event → Option Text) → Step → Hub → Hub
step marshal (joins id) h = join id h
step marshal (leaves id) h = leave id h
step marshal (receives id) h = record h { clients = receive id h.clients }
step marshal (dispatches now) h = dispatch marshal now h.events h
step marshal (broadcasts ev) h = broadcast ev h

abbrev pub run : (Event → Option Text) → List Step → Hub → Hub
run marshal [] h = h
run marshal (s ∷ ss) h = run marshal ss (step marshal s h)

abbrev pub members : ℕ → List Client → ℕ
members id cs = count_if (λ c. c.id == id) cs

abbrev pub times : ℕ → List ℕ → ℕ
times id ids = count_if (λ i. i == id) ids

-- How often a client joins in a list of steps; `handleWS` makes a new one and has it join once.
abbrev pub joinings : ℕ → List Step → ℕ
joinings id [] = 0
joinings id (joins i ∷ ss) = let rest = joinings id ss in if i == id then suc rest else rest
joinings id (s ∷ ss) = joinings id ss

-- A client is in the map once and open, or its channel has been closed once, or neither.
abbrev pub Once : Hub → Type 0
Once h = (id : ℕ) → members id h.clients + times id h.closings ≤ 1

times-append : (id : ℕ) (xs ys : List ℕ) → times id (xs ++ ys) ≡ times id xs + times id ys
times-append id [] ys = omega arith
times-append id (x ∷ xs) ys = ground (arith, times-append id xs ys)

members-append :
    (id : ℕ) (xs ys : List Client) → members id (xs ++ ys) ≡ members id xs + members id ys
members-append id [] ys = omega arith
members-append id (x ∷ xs) ys = ground (arith, members-append id xs ys)

members-remove : (id i : ℕ) (cs : List Client) → members id (remove i cs) ≤ members id cs
unfolding remove
members-remove id i [] = omega arith
members-remove id i (c ∷ cs) = ground (arith, members-remove id i cs)

members-remove_self : (i : ℕ) (cs : List Client) → members i (remove i cs) ≡ 0
unfolding remove
members-remove_self i [] = refl
members-remove_self i (c ∷ cs) = ground (arith, members-remove_self i cs)

members-is_client : (i : ℕ) (cs : List Client) → is_client i cs ≡ true → 1 ≤ members i cs
members-is_client i [] h = cc
members-is_client i (c ∷ cs) h = ground (arith, members-is_client i cs)

members-send_all :
    (id : ℕ) (payload : Text) (cs : List Client)
    → let (kept, closed) = send_all payload cs in members id kept + times id closed ≡ members id cs
unfolding send_all
members-send_all id payload [] = refl
members-send_all id payload (c ∷ cs) = ground (arith, members-send_all id payload cs)

members-receive : (id i : ℕ) (cs : List Client) → members id (receive i cs) ≡ members id cs
unfolding receive
members-receive id i [] = refl
members-receive id i (c ∷ cs) = ground (arith, members-receive id i cs)

-- A client in the map, and the closings of its channel.
abbrev pub tally : ℕ → Hub → ℕ
tally id h = members id h.clients + times id h.closings

tally-leave : (id i : ℕ) (h : Hub) → tally id (leave i h) ≤ tally id h
unfolding leave
tally-leave id i h = ground (
  arith,
  members-remove id i h.clients,
  members-remove_self i h.clients,
  members-is_client i h.clients,
)

tally-deliver :
    (id : ℕ) (payload : Option Text) (h : Hub) → tally id (deliver payload h) ≡ tally id h
unfolding deliver
tally-deliver id none h = refl
tally-deliver id (some payload) h =
    let (kept, closed) = send_all payload h.clients in
    omega (arith, members-send_all id payload h.clients, times-append id closed h.closings)

tally-dispatch :
    (id : ℕ) (marshal : Event → Option Text) (now : ℕ) (evs : List Event) (h : Hub)
    → tally id (dispatch marshal now evs h) ≡ tally id h
unfolding dispatch
tally-dispatch id marshal now [] h = refl
tally-dispatch id marshal now (ev ∷ rest) h =
    tally-deliver id (marshal (record ev { at = now })) (record h { events = rest })

tally-step :
    (marshal : Event → Option Text) (id : ℕ) (s : Step) (h : Hub)
    → tally id (step marshal s h) ≤ tally id h + joinings id (s ∷ [])
unfolding join broadcast
tally-step marshal id (joins i) h =
    ground (arith, members-append id h.clients (record { id = i; send = [] } ∷ []))
tally-step marshal id (leaves i) h = omega (arith, tally-leave id i h)
tally-step marshal id (receives i) h = omega (arith, members-receive id i h.clients)
tally-step marshal id (dispatches now) h = omega (arith, tally-dispatch id marshal now h.events h)
tally-step marshal id (broadcasts ev) h = ground arith

joinings-cons :
    (id : ℕ) (s : Step) (ss : List Step)
    → joinings id (s ∷ ss) ≡ joinings id (s ∷ []) + joinings id ss
joinings-cons id (joins i) ss = ground arith
joinings-cons id (leaves i) ss = omega arith
joinings-cons id (receives i) ss = omega arith
joinings-cons id (dispatches now) ss = omega arith
joinings-cons id (broadcasts ev) ss = omega arith

pub tally-run :
    (marshal : Event → Option Text) (id : ℕ) (ss : List Step) (h : Hub)
    → tally id (run marshal ss h) ≤ tally id h + joinings id ss
tally-run marshal id [] h = omega arith
tally-run marshal id (s ∷ ss) h = omega (
  arith,
  tally-step marshal id s h,
  joinings-cons id s ss,
  tally-run marshal id ss (step marshal s h),
)
