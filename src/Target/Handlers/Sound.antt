-- ===== src/Target/Handlers/Sound.antt =====
-- What every request to target/backend/main.go keeps.
use browser_analysis.Prelude.{
  ℕ, ◌+◌, ◌*◌, ◌≡◌, refl, sym, subst, ◌∙◌, ◌⊎◌, inl, inr, List, [], ◌∷◌, Option, none, some, arith,
  Option-cases,
}
use browser_analysis.Prelude.Text.{Text}
use browser_analysis.Prelude.Double.{Double}
use browser_analysis.Workflow.{GoError}
use browser_analysis.Target.Tables.{
  Tables, Product, SessionRow, insert_session, upsert_cart, find_order, select_items,
}
use browser_analysis.Target.Store.{
  Sql, Store, Session, CartItem, Order, create_session, unique_id, add_to_cart, put_in_cart,
  get_product, say_added, create_order,
}
use browser_analysis.Target.Store.Laws.{IsSqlite}
use browser_analysis.Target.Store.Orders.{create_order-Placed, Placed}
use browser_analysis.Target.Store.RoundTrip.{IsConsistent, create_order-IsConsistent}
use browser_analysis.Target.Hub.Bounds.{IsBounded, broadcast-IsBounded}
use browser_analysis.Target.Handlers.{
  TargetConfig, App, Request, session_post, products_get, index, session_get, product_get, cart_get,
  order_get, cart_post, checkout_post, CartRequest, at_least_one, session_made, handle_session,
  handle_products, show_product, handle_product, item_added, add_known, handle_cart_add,
  order_created, check_out, handle_checkout, serve,
}

-- A statement that leaves orders alone.
abbrev SparesOrders : {F : Type 0} → (Tables F → Option (Tables F)) → Type 0
SparesOrders {F} s =
    (t u : Tables F) → s t ≡ some u → (u.orders ≡ t.orders) × (u.order_items ≡ t.order_items)

insert_session-SparesOrders :
    {F : Type 0} (row : SessionRow) → SparesOrders {F = F} (insert_session row)
unfolding insert_session
insert_session-SparesOrders row t u h = ground arith

upsert_cart-SparesOrders :
    {F : Type 0} (s p : Text) (n : ℕ) → SparesOrders {F = F} (upsert_cart s p n)
unfolding upsert_cart
upsert_cart-SparesOrders s p n t u h = ground arith

IsConsistent-same_rows :
    {F : Type 0} (t u : Tables F)
    → (u.orders ≡ t.orders) × (u.order_items ≡ t.order_items)
    → IsConsistent t
    → IsConsistent u
unfolding find_order select_items
IsConsistent-same_rows t u (os, is) ok id h = rw is (ok id (rw (sym os) h))

module _ {F W : Type 0} ⦃d : Double F⦄ (sql : Sql F W) (laws : IsSqlite sql) where
  -- No transaction is open, and item rows stand only with their order.
  abbrev pub IsSound : W → Type 0
  IsSound w = (laws.saved w ≡ none) × IsConsistent (laws.view w)

  exec-IsSound :
      (s : Tables F → Option (Tables F)) (w : W)
      → SparesOrders s
      → IsSound w
      → IsSound (sql.exec s w).1
  exec-IsSound s w spares (closed, ok) = elim (Option-cases (sql.exec s w).0) [
    | inl done ↦
        let (does, keeps) = laws.exec_ok s w done in
        (keeps ∙ closed, IsConsistent-same_rows _ _ (spares _ _ does) ok)
    | inr (e, failed) ↦
        let (same, keeps) = laws.exec_bad s w e failed in
        (keeps ∙ closed, subst IsConsistent (sym same) ok)
  ]

  say_added-db :
      (p : Product F) (n : ℕ) (s : Store W) (r : Option GoError × W)
      → (say_added sql p n s r).1.db ≡ r.1
  unfolding say_added
  say_added-db p n s (some e, w) = refl
  say_added-db p n s (none, w) = refl

  put_in_cart-IsSound :
      (session id : Text) (n : ℕ) (found : GoError ⊎ Product F) (s : Store W)
      → IsSound s.db
      → IsSound (put_in_cart sql session id n found s).1.db
  unfolding put_in_cart
  put_in_cart-IsSound session id n (inl e) s h = h
  put_in_cart-IsSound session id n (inr p) s h =
      subst IsSound (sym (say_added-db p n s (sql.exec (upsert_cart session id n) s.db)))
        (exec-IsSound (upsert_cart session id n) s.db (upsert_cart-SparesOrders session id n) h)

  create_session-IsSound :
      (ttl : ℕ) (s : Store W) → IsSound s.db → IsSound (create_session sql ttl s).2.db
  unfolding create_session unique_id
  create_session-IsSound ttl s h = exec-IsSound _ s.db (insert_session-SparesOrders _) h

  Placed-closed :
      (session : Text) (items : List (CartItem F)) (t : Tables F) (made : GoError ⊎ Order F) (w : W)
      → Placed sql laws session items t made w
      → laws.saved w ≡ none
  Placed-closed session items t (inl e) w (done, view) = done
  Placed-closed session items t (inr o) w h = h.0

  create_order-IsSound :
      (session : Text) (items : List (CartItem F)) (s : Store W)
      → IsSound s.db
      → IsSound (create_order sql session items s).1.db
  create_order-IsSound session items s (closed, ok) = (
    Placed-closed session items (laws.view s.db) (create_order sql session items s).0
        (create_order sql session items s).1.db
        (create_order-Placed sql laws session items s closed),
    create_order-IsConsistent sql laws session items s closed ok,
  )

  module _ {R : Type 0} (intn : ℕ → R → ℕ × R) (cfg : TargetConfig) where
    -- The store is sound and the hub's channels are within their bounds.
    abbrev pub IsSettled : App W R → Type 0
    IsSettled a = IsSound a.store.db × IsBounded a.hub

    session_made-IsSettled :
        (expires : ℕ) (made : Session × Option GoError × Store W) (a : App W R)
        → IsSound made.2.db
        → IsBounded a.hub
        → IsSettled (session_made sql intn cfg expires made a).1
    unfolding session_made
    session_made-IsSettled expires (made, some e, s) a sound bounded = (sound, bounded)
    session_made-IsSettled expires (made, none, s) a sound bounded =
        (sound, broadcast-IsBounded _ a.hub bounded)

    item_added-IsSettled :
        (session : Text) (made : (GoError ⊎ CartItem F) × Store W) (a : App W R)
        → IsSound made.1.db
        → IsBounded a.hub
        → IsSettled (item_added sql intn cfg session made a).1
    unfolding item_added
    item_added-IsSettled session (inl e, s) a sound bounded = (sound, bounded)
    item_added-IsSettled session (inr it, s) a sound bounded =
        (sound, broadcast-IsBounded _ a.hub bounded)

    add_known-IsSettled :
        (req : CartRequest) (found : GoError ⊎ Product F) (a : App W R)
        → IsSettled a
        → IsSettled (add_known sql intn cfg req found a).1
    unfolding add_known add_to_cart
    add_known-IsSettled req (inl e) a h = h
    add_known-IsSettled req (inr p) a (sound, bounded) =
        item_added-IsSettled req.session_id _ a
          (put_in_cart-IsSound req.session_id req.product_id (at_least_one req.qty)
            (get_product sql req.product_id a.store) a.store sound)
          bounded

    order_created-IsSettled :
        (session : Text) (made : (GoError ⊎ Order F) × Store W) (a : App W R)
        → IsSound made.1.db
        → IsBounded a.hub
        → IsSettled (order_created sql intn cfg session made a).1
    unfolding order_created
    order_created-IsSettled session (inl e, s) a sound bounded = (sound, bounded)
    order_created-IsSettled session (inr o, s) a sound bounded =
        (sound, broadcast-IsBounded _ a.hub bounded)

    check_out-IsSettled :
        (session : Text) (items : List (CartItem F)) (a : App W R)
        → IsSettled a
        → IsSettled (check_out sql intn cfg session items a).1
    unfolding check_out
    check_out-IsSettled session [] a h = h
    check_out-IsSettled session (it ∷ items) a (sound, bounded) =
        order_created-IsSettled session _ a
          (create_order-IsSound session (it ∷ items) a.store sound) bounded

    show_product-IsSettled :
        (found : GoError ⊎ Product F) (a : App W R)
        → IsSettled a
        → IsSettled (show_product sql intn cfg found a).1
    unfolding show_product
    show_product-IsSettled (inl e) a h = h
    show_product-IsSettled (inr p) a h = h

    serve-IsSettled :
        (q : Request) (a : App W R) → IsSettled a → IsSettled (serve sql intn cfg q a).1
    unfolding serve handle_session handle_products handle_product handle_cart_add handle_checkout
    serve-IsSettled session_post a (sound, bounded) =
        let ttl = cfg.session_ttl_seconds * 1_000_000_000 in
        session_made-IsSettled (sql.clock a.store.db + ttl) (create_session sql ttl a.store) a
          (create_session-IsSound ttl a.store sound) bounded
    serve-IsSettled (cart_post (inl e)) a h = h
    serve-IsSettled (cart_post (inr req)) a h = add_known-IsSettled req _ a h
    serve-IsSettled (checkout_post (inl e)) a h = h
    serve-IsSettled (checkout_post (inr session)) a h = check_out-IsSettled session _ a h
    serve-IsSettled products_get a h = h
    serve-IsSettled (product_get id) a h = show_product-IsSettled _ a h
    serve-IsSettled index a h = h
    serve-IsSettled (session_get id) a h = h
    serve-IsSettled (cart_get session) a h = h
    serve-IsSettled (order_get id) a h = h

    -- A list of requests, one after the other.
    abbrev pub serve_all : List Request → App W R → App W R
    serve_all [] a = a
    serve_all (q ∷ qs) a = serve_all qs (serve sql intn cfg q a).1

    -- Whatever requests come, malformed ones included, and whatever errors the database gives, no
    -- transaction stays open, no item row stands without its order, and the hub's channels stay
    -- within their bounds.
    pub serve_all-IsSettled :
        (qs : List Request) (a : App W R) → IsSettled a → IsSettled (serve_all qs a)
    serve_all-IsSettled [] a h = h
    serve_all-IsSettled (q ∷ qs) a h = serve_all-IsSettled qs _ (serve-IsSettled q a h)
