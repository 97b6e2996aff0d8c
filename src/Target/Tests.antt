-- ===== src/Target/Tests.antt =====
-- Runs of target/backend on tables in memory that never fail, with prices in whole units and the clock
-- standing still.
use browser_analysis.Prelude.{
  ◌<◌, Bool, count_if, ℕ, ◌+◌, ◌/◌, ◌*◌, ◌≤◌, ◌≡◌, refl, ◌⊎◌, inl, inr, List, [], ◌∷◌, ◌++◌, Option,
  none, some, arith,
}
use browser_analysis.Prelude.Text.{codes}
use browser_analysis.Prelude.Double.{nat_double}
use browser_analysis.Workflow.{GoError, plain_error}
use browser_analysis.Target.Tables.{Tables, Product, CartRow, select_cart, find_order, select_items}
use browser_analysis.Target.Store.{
  add_to_cart, overflows, Sql, Store, CartItem, Order, get_cart, create_order, priced, commit_order,
  fill_items, insert_items,
}
use browser_analysis.Target.Store.Carts.{Added, add_to_cart-Added}
use browser_analysis.Target.Store.Laws.{IsSqlite}
use browser_analysis.Target.Store.Orders.{Placed, create_order-Placed}
use browser_analysis.Target.Store.RoundTrip.{IsConsistent, IsAnswering, ReadsBack}
use browser_analysis.Target.Hub.{Event, new_hub}
use browser_analysis.Target.Hub.Channels.{
  Step, joins, leaves, receives, dispatches, broadcasts, run, joinings, Once,
}
use browser_analysis.Target.Hub.Bounds.{IsBounded, hub-IsBounded}
use browser_analysis.Target.Handlers.{
  error_body, TargetConfig, App, session_post, cart_post, checkout_post, handle_checkout,
  handle_order, order_body, respond, checksum,
}
use browser_analysis.Target.Handlers.Sound.{IsSettled, serve_all, serve_all-IsSettled}
use browser_analysis.Target.Handlers.Checkout.{
  CheckedOut, in_cart, handle_checkout-CheckedOut, checkout_then_order,
}

-- The tables, and those at the start of an open transaction.
abbrev Memory : Type 0
Memory = Tables ℕ × Option (Tables ℕ)

abbrev apply : Option (Tables ℕ) → Memory → Option GoError × Memory
apply none w = (some (plain_error (codes "constraint failed")), w)
apply (some t) (old, saved) = (none, (t, saved))

abbrev undo : Memory → Memory
undo (t, none) = (t, none)
undo (t, some old) = (old, none)

-- An identifier is its prefix and the two numbers; a time is one code, to the second.
abbrev memory : Sql ℕ Memory
memory = record {
  query = λ q w. inr (q w.0);
  exec = λ s w. apply (s w.0) w;
  begin = λ w. (none, (w.0, some w.0));
  commit = λ w. (none, (w.0, none));
  rollback = undo;
  arrange = λ w xs. xs;
  clock = λ w. 5_000_000_007;
  id_text = λ prefix t n. prefix ++ t ∷ n ∷ [];
  format = λ t. t / 1_000_000_000 ∷ [];
  parse = λ text. elim text [ [] ↦ 0 | t ∷ rest ↦ t * 1_000_000_000 ];
}

apply_ok :
    (s : Option (Tables ℕ)) (w : Memory)
    → (apply s w).0 ≡ none
    → (s ≡ some (apply s w).1.0) × ((apply s w).1.1 ≡ w.1)
apply_ok none w h = cc
apply_ok (some t) w h = (refl, refl)

apply_bad :
    (s : Option (Tables ℕ)) (w : Memory) (e : GoError)
    → (apply s w).0 ≡ some e
    → ((apply s w).1.0 ≡ w.0) × ((apply s w).1.1 ≡ w.1)
apply_bad none w e h = (refl, refl)
apply_bad (some t) w e h = absurd (cc)

undo_open : (w : Memory) (t : Tables ℕ) → w.1 ≡ some t → ((undo w).0 ≡ t) × ((undo w).1 ≡ none)
undo_open (u, none) t h = absurd (cc)
undo_open (u, some old) t h = (cc, refl)

undo_done : (w : Memory) → w.1 ≡ none → ((undo w).0 ≡ w.0) × ((undo w).1 ≡ none)
undo_done (u, none) h = (refl, refl)
undo_done (u, some old) h = absurd (cc)

answer_is : {A : Type 0} (x y : A) → ◌≡◌ {A = GoError ⊎ A} (inr x) (inr y) → y ≡ x
answer_is x y h = cc

no_error : (e : GoError) (P : Type 0) → ◌≡◌ {A = Option GoError} none (some e) → P
no_error e P h = absurd (cc)

abbrev memory-IsSqlite : IsSqlite memory
memory-IsSqlite = record {
  view = λ w. w.0;
  saved = λ w. w.1;
  queried = λ q w x h. answer_is _ _ h;
  exec_ok = λ s w h. apply_ok (s w.0) w h;
  exec_bad = λ s w e h. apply_bad (s w.0) w e h;
  begin_ok = λ w h. (refl, refl);
  begin_bad = λ w e h. no_error e _ h;
  commit_ok = λ w h. (refl, refl);
  commit_bad = λ w e t h k. no_error e _ h;
  rollback_open = λ w t h. undo_open w t h;
  rollback_done = λ w h. undo_done w h;
  arranged = λ p w xs. refl;
  to_second = λ t. refl;
}

memory-IsAnswering : IsAnswering memory
memory-IsAnswering A q w = (q w.0, refl)

abbrev widget : Product ℕ
widget = record {
  id = codes "p1";
  name = codes "Synthetic Widget";
  description = codes "A deterministic widget for benchmarks";
  price = 20;
  stock = 1000;
}

abbrev fresh : Tables ℕ
fresh = record {
  sessions = [];
  products = widget ∷ [];
  cart_items = record { session_id = codes "s"; product_id = codes "p1"; qty = 2 } ∷ [];
  orders = [];
  order_items = [];
}

abbrev shop : Store Memory
shop = record { db = (fresh, none); id_counter = 3 }

fresh-IsConsistent : IsConsistent fresh
unfolding find_order select_items
fresh-IsConsistent id h = refl

abbrev two_widgets : CartItem ℕ
two_widgets = record {
  product_id = codes "p1";
  name = codes "Synthetic Widget";
  qty = 2;
  price = 20;
  line_total = 40;
}

cart_test : get_cart memory (codes "s") shop ≡ (two_widgets ∷ [], 40)
unfolding get_cart priced
cart_test = refl

add_to_cart-Added_example :
    let (made, s) = add_to_cart memory (codes "s") (codes "p1") 3 shop in
    Added memory memory-IsSqlite (codes "s") (codes "p1") 3 fresh made s.db
add_to_cart-Added_example = add_to_cart-Added memory memory-IsSqlite (codes "s") (codes "p1") 3 shop

create_order-Placed_example :
    let (made, s) = create_order memory (codes "s") (two_widgets ∷ []) shop in
    Placed memory memory-IsSqlite (codes "s") (two_widgets ∷ []) fresh made s.db
create_order-Placed_example =
    create_order-Placed memory memory-IsSqlite (codes "s") (two_widgets ∷ []) shop refl

abbrev order : Order ℕ
order = record {
  id = codes "ord" ++ 5_000_000_007 ∷ 4 ∷ [];
  session_id = codes "s";
  status = codes "confirmed";
  total = 40;
  items = two_widgets ∷ [];
  created_at = 5_000_000_007;
}

abbrev sold : Store Memory
sold = (create_order memory (codes "s") (two_widgets ∷ []) shop).1

abbrev settings : TargetConfig
settings = record { payload_kb = 0; js_workload_units = 0; session_ttl_seconds = 3600 }

abbrev roll : ℕ → ℕ → ℕ × ℕ
roll n r = (r, r + 1)

abbrev app : App Memory ℕ
app = record { store = shop; hub = record { clients = []; events = []; closings = [] }; rng = 0 }

app-IsSettled : IsSettled memory memory-IsSqlite roll settings app
app-IsSettled = ((refl, fresh-IsConsistent), record { waiting = tt; queued = omega arith })

serve_all-IsSettled_example : IsSettled memory memory-IsSqlite roll settings (
    serve_all memory memory-IsSqlite roll settings
      (session_post
        ∷ cart_post (inl (plain_error (codes "EOF")))
        ∷ checkout_post (inr (codes "s"))
        ∷ [])
      app)
serve_all-IsSettled_example =
    serve_all-IsSettled memory memory-IsSqlite roll settings
      (session_post
        ∷ cart_post (inl (plain_error (codes "EOF")))
        ∷ checkout_post (inr (codes "s"))
        ∷ [])
      app app-IsSettled

handle_checkout-CheckedOut_example :
    let (answer, b) = handle_checkout memory roll settings (inr (codes "s")) app in
    CheckedOut memory memory-IsSqlite roll settings
      (codes "s")
      (get_cart memory (codes "s") shop).0
      app
      answer
      b
    × ((rows : List (CartRow × Product ℕ))
        → memory.query (select_cart (codes "s")) shop.db ≡ inr rows
        → count_if (overflows memory) rows ≡ 0
        → (p : CartItem ℕ → Bool)
        → count_if p (get_cart memory (codes "s") shop).0
          ≡ in_cart p
              (codes "s")
              (memory-IsSqlite.view shop.db).products
              (memory-IsSqlite.view shop.db).cart_items)
    × ((e : GoError)
        → memory.query (select_cart (codes "s")) shop.db ≡ inl e
        → (answer ≡ respond 400 (error_body (codes "cart is empty"))) × (b ≡ app))
    × ((rows : List (CartRow × Product ℕ))
        → memory.query (select_cart (codes "s")) shop.db ≡ inr rows
        → 0 < count_if (overflows memory) rows
        → (answer ≡ respond 400 (error_body (codes "cart is empty"))) × (b ≡ app))
handle_checkout-CheckedOut_example =
    handle_checkout-CheckedOut memory memory-IsSqlite roll settings (codes "s") app refl

abbrev served : App Memory ℕ
served = (handle_checkout memory roll settings (inr (codes "s")) app).1

checkout_then_order_example :
    (read : Order ℕ) × (handle_order memory roll settings order.id served
      ≡ respond 200 (order_body read))
    × ReadsBack order read
unfolding handle_checkout get_cart create_order commit_order fill_items insert_items priced checksum
checkout_then_order_example =
    checkout_then_order memory memory-IsSqlite roll settings memory-IsAnswering (codes "s") app
      served order 1469598103934665603 refl fresh-IsConsistent refl

abbrev note : Event
note = record { event_type = codes "session"; session_id = codes "s"; order_id = []; at = 0 }

abbrev trace : List Step
trace = joins 1 ∷ joins 2 ∷ broadcasts note ∷ dispatches 9 ∷ receives 1 ∷ leaves 2 ∷ leaves 2 ∷ []

trace-joins : (id : ℕ) → joinings id trace ≤ 1
trace-joins id = ground arith

hub-IsBounded_example :
    Once (run (λ ev. some ev.event_type) trace new_hub)
    × IsBounded (run (λ ev. some ev.event_type) trace new_hub)
hub-IsBounded_example = hub-IsBounded (λ ev. some ev.event_type) trace trace-joins
