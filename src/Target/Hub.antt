-- ===== src/Target/Hub.antt =====
-- target/backend/ws.go: the hub that passes events on to the clients of the web socket. A client is a
-- number, which stands for its pointer; the encoder is a parameter. A channel is the list of what it
-- holds. The goroutine of `run` does one step after the other, and the other goroutines act between.
pub mod Channels
pub mod Bounds
use browser_analysis.Prelude.{
  ℕ, Bool, true, false, ◌||◌, List, [], ◌∷◌, ◌++◌, Option, none, some, if◌then◌else◌, ◌==◌, ltb,
  length,
}
use browser_analysis.Prelude.Text.{Text}

pub record Event : Type 0 where
  pub event_type : Text
  pub session_id : Text
  pub order_id : Text
  pub at : ℕ

pub record Client : Type 0 where
  pub id : ℕ
  pub send : List Text

-- `clients` is the map; `closings` are the calls of `close` on a client's channel, the latest first.
pub record Hub : Type 0 where
  pub clients : List Client
  pub events : List Event
  pub closings : List ℕ

unfoldable pub new_hub : Hub
new_hub = record { clients = []; events = []; closings = [] }

abbrev pub is_client : ℕ → List Client → Bool
is_client id [] = false
is_client id (c ∷ rest) = c.id == id || is_client id rest

-- `h.clients[c] = true`.
unfoldable pub join : ℕ → Hub → Hub
join id h =
    if is_client id h.clients
    then h
    else record h { clients = h.clients ++ record { id = id; send = [] } ∷ [] }

unfoldable pub remove : ℕ → List Client → List Client
remove id [] = []
remove id (c ∷ rest) = let later = remove id rest in if c.id == id then later else c ∷ later

unfoldable pub leave : ℕ → Hub → Hub
unfolding remove
leave id h =
    if is_client id h.clients
    then record h { clients = remove id h.clients; closings = id ∷ h.closings }
    else h

-- The inner loop of `run`: a client with less than 16 messages waiting gets the payload, and any other
-- is dropped.
unfoldable pub send_all : Text → List Client → List Client × List ℕ
send_all payload [] = ([], [])
send_all payload (c ∷ rest) =
    let (kept, closed) = send_all payload rest in
    if ltb (length c.send) 16
    then (record c { send = c.send ++ payload ∷ [] } ∷ kept, closed)
    else (kept, c.id ∷ closed)

unfoldable pub deliver : Option Text → Hub → Hub
unfolding send_all
deliver none h = h
deliver (some payload) h =
    let (kept, closed) = send_all payload h.clients in
    record h { clients = kept; closings = closed ++ h.closings }

-- The case of `run` for an event, at time `now`; with no event the case does not come about.
unfoldable pub dispatch : (Event → Option Text) → ℕ → List Event → Hub → Hub
unfolding deliver
dispatch marshal now [] h = h
dispatch marshal now (ev ∷ rest) h =
    deliver (marshal (record ev { at = now })) (record h { events = rest })

-- `broadcast` on a channel of 256 events.
unfoldable pub broadcast : Event → Hub → Hub
broadcast ev h = if ltb (length h.events) 256 then record h { events = h.events ++ ev ∷ [] } else h

-- The receive of `handleWS`.
unfoldable pub receive : ℕ → List Client → List Client
receive id [] = []
receive id (c ∷ rest) =
    let later = receive id rest in
    if c.id == id
    then record c { send = elim c.send [ [] ↦ [] | m ∷ ms ↦ ms ] } ∷ rest
    else c ∷ later
