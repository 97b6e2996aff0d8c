-- ===== src/Target/Handlers.antt =====
-- target/backend/main.go: the handlers. What a request's decoder gives is in the request; the delay
-- before each answer, the headers and the encoder are left aside, and so is a negative setting.
pub mod Checkout
pub mod Sound
use browser_analysis.Prelude.{
  ℕ, zero, suc, ◌+◌, ◌*◌, ◌%◌, ◌^◌, ◌⊎◌, inl, inr, Bool, true, false, ◌||◌, List, [], ◌∷◌,
  if◌then◌else◌, ltb, get_or,
}
use browser_analysis.Prelude.Int.{ℤ, pos, negsuc}
use browser_analysis.Prelude.Text.{Text, codes, is_empty}
use browser_analysis.Prelude.Word.{xor_bits, u64_mod}
use browser_analysis.Prelude.Double.{Double}
use browser_analysis.Workflow.{GoError}
use browser_analysis.Target.Tables.{Product}
use browser_analysis.Target.Store.{
  Sql, Store, Session, CartItem, Order, create_session, get_session, products, get_product,
  add_to_cart, get_cart, create_order, get_order,
}
use browser_analysis.Target.Hub.{Hub, Event, broadcast}
use browser_analysis.Prelude.{none, some, Option}

-- The settings that the handlers use.
pub record TargetConfig : Type 0 where
  pub payload_kb : ℕ
  pub js_workload_units : ℕ
  pub session_ttl_seconds : ℕ

-- `intn` is `rng.Intn`.
pub record App (W R : Type 0) : Type 0 where
  pub store : Store W
  pub hub : Hub
  pub rng : R

pub record CartRequest : Type 0 where
  pub session_id : Text
  pub product_id : Text
  pub qty : ℤ

pub data Request : Type 0 where
  session_post products_get index : Request
  session_get product_get cart_get order_get : Text → Request
  cart_post : GoError ⊎ CartRequest → Request
  checkout_post : GoError ⊎ Text → Request

pub data Body (F : Type 0) : Type 0 where
  page : Body F
  error_body : Text → Body F
  session_body : Session → Body F
  products_body : List (Product F) → Text → Body F
  product_body : Product F → Text → Body F
  item_body : CartItem F → Body F
  cart_body : List (CartItem F) → F → Body F
  order_made : Order F → ℕ → Body F
  order_body : Order F → Body F

pub record Response (F : Type 0) : Type 0 where
  pub status : ℕ
  pub body : Body F

abbrev pub respond : {F : Type 0} → ℕ → Body F → Response F
respond status body = record { status = status; body = body }

-- `int(qty)` past the test `qty <= 0`.
unfoldable pub at_least_one : ℤ → ℕ
at_least_one (pos (suc n)) = suc n
at_least_one _ = 1

-- The loop of `checksum`, `n` rounds before its end.
hash_rounds : ℕ → ℕ → ℕ → ℕ
hash_rounds zero i h = h
hash_rounds (suc n) i h = hash_rounds n (suc i) (xor_bits 64 h i * 1099511628211 % u64_mod)

unfoldable pub checksum : ℕ → ℕ
unfolding hash_rounds
checksum units = hash_rounds units 0 1469598103934665603

abbrev pub alphabet : Text
alphabet = codes "abcdefghijklmnopqrstuvwxyzABCDEFGHIJKLMNOPQRSTUVWXYZ0123456789"

module _ {F W R : Type 0} ⦃d : Double F⦄ (sql : Sql F W) (intn : ℕ → R → ℕ × R)
    (cfg : TargetConfig) where
  unfoldable pub letters : ℕ → R → Text × R
  letters zero r = ([], r)
  letters (suc n) r =
      let (i, r') = intn 62 r in let (rest, r'') = letters n r' in (get_or alphabet i 0 ∷ rest, r'')

  unfoldable pub payload : ℕ → R → Text × R
  unfolding letters
  payload zero r = (codes "{}", r)
  payload (suc n) r = letters (suc n) r

  -- `handleSession` past `CreateSession`; the answer has its own time of expiry.
  unfoldable pub session_made :
      ℕ → Session × Option GoError × Store W → App W R → Response F × App W R
  session_made expires (made, some e, s) a =
      (respond 500 (error_body e.message), record a { store = s })
  session_made expires (made, none, s) a =
      let ev : Event = record {
        event_type = codes "session";
        session_id = made.id;
        order_id = [];
        at = 0;
      } in
      (
        respond 200 (session_body (record made { expires_at = expires })),
        record a { store = s; hub = broadcast ev a.hub },
      )

  unfoldable pub handle_session : App W R → Response F × App W R
  unfolding session_made
  handle_session a =
      let ttl = cfg.session_ttl_seconds * 1_000_000_000 in
      session_made (sql.clock a.store.db + ttl) (create_session sql ttl a.store) a

  unfoldable pub find_live : ℕ → GoError ⊎ Session → Response F
  find_live now (inl e) = respond 404 (error_body (codes "session not found"))
  find_live now (inr s) =
      if ltb s.expires_at now
      then respond 404 (error_body (codes "session not found"))
      else respond 200 (session_body s)

  unfoldable pub handle_session_get : Text → App W R → Response F
  unfolding find_live
  handle_session_get id a =
      if is_empty id
      then respond 400 (error_body (codes "missing session id"))
      else find_live (sql.clock a.store.db) (get_session sql id a.store)

  unfoldable pub handle_products : App W R → Response F × App W R
  unfolding payload
  handle_products a =
      let (text, r) = payload (cfg.payload_kb * 1024) a.rng in
      (respond 200 (products_body (products sql a.store) text), record a { rng = r })

  unfoldable pub show_product : GoError ⊎ Product F → App W R → Response F × App W R
  unfolding payload
  show_product (inl e) a = (respond 404 (error_body (codes "product not found")), a)
  show_product (inr p) a =
      let (text, r) = payload (cfg.payload_kb * 1024) a.rng in
      (respond 200 (product_body p text), record a { rng = r })

  unfoldable pub handle_product : Text → App W R → Response F × App W R
  unfolding show_product
  handle_product id a = show_product (get_product sql id a.store) a

  -- `handleCartAdd` past `AddToCart`, past `GetProduct`, and past the decoder.
  unfoldable pub item_added :
      Text → (GoError ⊎ CartItem F) × Store W → App W R → Response F × App W R
  item_added session (inl e, s) a = (respond 500 (error_body e.message), record a { store = s })
  item_added session (inr it, s) a =
      let ev : Event = record {
        event_type = codes "cart";
        session_id = session;
        order_id = [];
        at = 0;
      } in
      (respond 200 (item_body it), record a { store = s; hub = broadcast ev a.hub })

  unfoldable pub add_known : CartRequest → GoError ⊎ Product F → App W R → Response F × App W R
  unfolding item_added
  add_known req (inl e) a = (respond 404 (error_body (codes "product not found")), a)
  add_known req (inr p) a =
      item_added req.session_id
        (add_to_cart sql req.session_id req.product_id (at_least_one req.qty) a.store) a

  unfoldable pub handle_cart_add : GoError ⊎ CartRequest → App W R → Response F × App W R
  unfolding add_known
  handle_cart_add (inl e) a = (respond 400 (error_body (codes "bad request")), a)
  handle_cart_add (inr req) a = add_known req (get_product sql req.product_id a.store) a

  unfoldable pub handle_cart_get : Text → App W R → Response F
  handle_cart_get session a =
      let (items, total) = get_cart sql session a.store in respond 200 (cart_body items total)

  -- `handleCheckout` past `CreateOrder`, past `GetCart`, and past the decoder.
  unfoldable pub order_created :
      Text → (GoError ⊎ Order F) × Store W → App W R → Response F × App W R
  order_created session (inl e, s) a = (respond 500 (error_body e.message), record a { store = s })
  order_created session (inr o, s) a =
      let ev : Event = record {
        event_type = codes "order";
        session_id = session;
        order_id = o.id;
        at = 0;
      } in
      (
        respond 200 (order_made o (checksum cfg.js_workload_units)),
        record a { store = s; hub = broadcast ev a.hub },
      )

  unfoldable pub check_out : Text → List (CartItem F) → App W R → Response F × App W R
  unfolding order_created
  check_out session [] a = (respond 400 (error_body (codes "cart is empty")), a)
  check_out session (it ∷ items) a =
      order_created session (create_order sql session (it ∷ items) a.store) a

  unfoldable pub handle_checkout : GoError ⊎ Text → App W R → Response F × App W R
  unfolding check_out
  handle_checkout (inl e) a = (respond 400 (error_body (codes "bad request")), a)
  handle_checkout (inr session) a = check_out session (get_cart sql session a.store).0 a

  unfoldable pub show_order : GoError ⊎ Order F → Response F
  show_order (inl e) = respond 404 (error_body (codes "order not found"))
  show_order (inr o) = respond 200 (order_body o)

  unfoldable pub handle_order : Text → App W R → Response F
  unfolding show_order
  handle_order id a = show_order (get_order sql id a.store)

  -- The routes; `handleWS` is the hub's.
  unfoldable pub serve : Request → App W R → Response F × App W R
  serve session_post a = handle_session a
  serve (session_get id) a = (handle_session_get id a, a)
  serve products_get a = handle_products a
  serve (product_get id) a = handle_product id a
  serve (cart_post req) a = handle_cart_add req a
  serve (cart_get session) a = (handle_cart_get session a, a)
  serve (checkout_post req) a = handle_checkout req a
  serve (order_get id) a = (handle_order id a, a)
  serve index a = (respond 200 page, a)
