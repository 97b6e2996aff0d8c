-- ===== src/Target/Handlers/Checkout.antt =====
-- A checkout in target/backend/main.go: its answers, and the order that is read after it.
use browser_analysis.Prelude.{
  Bool, some, ◌++◌, ◌+◌, ◌<◌, ◌≤◌, length, count_if, arith, sym, if◌then◌else◌, ℕ, ◌≡◌, refl, ap,
  subst, ◌∙◌, ◌⊎◌, inl, inr, List, [], ◌∷◌, none, map, All, false, ◌==◌,
}
use browser_analysis.Prelude.Text.{Text, codes, eq_text}
use browser_analysis.Prelude.Double.{Double}
use browser_analysis.Workflow.{GoError}
use browser_analysis.Target.Tables.{
  Product, CartRow, find, select, find_order, join_products, select_cart,
}
use browser_analysis.Target.Store.{
  cart_item, overflows, priced, add_up, Sql, Store, CartItem, Order, item_row, order_row, get_cart,
  create_order, get_order,
}
use browser_analysis.Target.Store.Laws.{IsSqlite}
use browser_analysis.Target.Store.Orders.{with_order, Placed, create_order-Placed}
use browser_analysis.Target.Store.Carts.{get_cart-IsPriced}
use browser_analysis.Target.Store.RoundTrip.{
  count_if-map, IsConsistent, IsAnswering, IsPriced, ReadsBack, order-ReadsBack,
}
use browser_analysis.Target.Hub.{Hub, Event, broadcast}
use browser_analysis.Target.Handlers.{
  TargetConfig, App, error_body, order_made, order_body, Response, respond, checksum, order_created,
  check_out, handle_checkout, show_order, handle_order,
}

-- An event is put behind those that wait in the hub's channel, or, if there are 256, dropped.
abbrev pub Sent : Event → Hub → Hub → Type 0
Sent ev h h' =
    (length h.events < 256 → h' ≡ record h { events = h.events ++ ev ∷ [] })
    × (256 ≤ length h.events → h' ≡ h)

broadcast-Sent : (ev : Event) (h : Hub) → Sent ev h (broadcast ev h)
unfolding broadcast
broadcast-Sent ev h = (λ room. ground arith, λ full. ground arith)

module _ {F : Type 0} ⦃d : Double F⦄ where
  -- The items that a session's cart holds by the tables, of those that pass a test: one for each of its
  -- rows whose product there is.
  abbrev pub in_cart : (CartItem F → Bool) → Text → List (Product F) → List CartRow → ℕ
  in_cart p session ps [] = 0
  in_cart p session ps (row ∷ rows) =
      let rest = in_cart p session ps rows in
      let here : ℕ = elim (find (λ (x : Product F). eq_text x.id row.product_id) ps) [
        | none ↦ 0
        | some x ↦
            if p (record {
              product_id = row.product_id;
              name = x.name;
              qty = row.qty;
              price = x.price;
              line_total = d.fmul x.price (d.of_nat row.qty);
            })
            then 1
            else 0
      ] in
      if eq_text row.session_id session then here + rest else rest

module _ {F W R : Type 0} ⦃d : Double F⦄ (sql : Sql F W) (laws : IsSqlite sql)
    (intn : ℕ → R → ℕ × R) (cfg : TargetConfig) where
  -- What a checkout of a cart with these items may do. It is refused, and nothing changes; or it fails,
  -- and the tables and the hub stay; or there is a new order of these items, and an event that names it.
  pub data CheckedOut (session : Text) (items : List (CartItem F)) (a : App W R)
      : Response F → App W R → Type 0 where
    empty_cart :
        items ≡ [] → CheckedOut session items a (respond 400 (error_body (codes "cart is empty"))) a
    order_failed :
        {b : App W R} (e : GoError)
        → laws.view b.store.db ≡ laws.view a.store.db
        → b.hub ≡ a.hub
        → CheckedOut session items a (respond 500 (error_body e.message)) b
    ordered :
        {b : App W R} (o : Order F)
        → o.items ≡ items
        → o.session_id ≡ session
        → laws.view b.store.db
          ≡ with_order (order_row sql o) (map (item_row sql o.id) items) (laws.view a.store.db)
        → find_order o.id (laws.view a.store.db) ≡ none
        → Sent
            (record { event_type = codes "order"; session_id = session; order_id = o.id; at = 0 })
            a.hub
            b.hub
        → CheckedOut session items a (respond 200 (order_made o (checksum cfg.js_workload_units))) b

  order_created-CheckedOut :
      (session : Text) (items : List (CartItem F)) (made : GoError ⊎ Order F) (s : Store W)
      (a : App W R)
      → Placed sql laws session items (laws.view a.store.db) made s.db
      → let (answer, b) = order_created sql intn cfg session (made, s) a in
        CheckedOut session items a answer b
  unfolding order_created
  order_created-CheckedOut session items (inl e) s a (done, view) = order_failed e view refl
  order_created-CheckedOut session items (inr o) s a h =
      let (done, view, new, of_session, of_items, total) = h in
      ordered o of_items of_session view new (broadcast-Sent _ a.hub)

  check_out-CheckedOut :
      (session : Text) (items : List (CartItem F)) (a : App W R)
      → laws.saved a.store.db ≡ none
      → let (answer, b) = check_out sql intn cfg session items a in
        CheckedOut session items a answer b
  unfolding check_out
  check_out-CheckedOut session [] a closed = empty_cart refl
  check_out-CheckedOut session (it ∷ items) a closed =
      order_created-CheckedOut session (it ∷ items)
        (create_order sql session (it ∷ items) a.store).0
        (create_order sql session (it ∷ items) a.store).1 a
        (create_order-Placed sql laws session (it ∷ items) a.store closed)

  cart_items-in_cart :
      (p : CartItem F → Bool) (session : Text) (ps : List (Product F)) (rows : List CartRow)
      → count_if p (
          map
            (cart_item sql)
            (join_products ps (select (λ (r : CartRow). eq_text r.session_id session) rows)))
        ≡ in_cart p session ps rows
  unfolding join_products priced
  cart_items-in_cart p session ps [] = refl
  cart_items-in_cart p session ps (row ∷ rows) =
      ground (arith, cart_items-in_cart p session ps rows)

  count-arranged :
      (p : CartItem F → Bool) (w : W) (rows : List (CartRow × Product F))
      → count_if p (map (cart_item sql) (sql.arrange w rows))
        ≡ count_if p (map (cart_item sql) rows)
  count-arranged p w rows =
      count_if-map p (cart_item sql) (sql.arrange w rows)
      ∙ laws.arranged (λ row. p (cart_item sql row)) w rows
      ∙ sym (count_if-map p (cart_item sql) rows)

  -- A cart whose rows could be read has exactly the session's items.
  get_cart-in_cart :
      (session : Text) (a : App W R) (rows : List (CartRow × Product F))
      → sql.query (select_cart session) a.store.db ≡ inr rows
      → count_if (overflows sql) rows ≡ 0
      → (p : CartItem F → Bool)
      → let t = laws.view a.store.db in
        count_if p (get_cart sql session a.store).0 ≡ in_cart p session t.products t.cart_items
  unfolding get_cart add_up select_cart
  get_cart-in_cart session a rows read small p =
      let t = laws.view a.store.db in
      rw (read, laws.arranged (overflows sql) a.store.db rows, small)
        (count-arranged p a.store.db rows
          ∙ ap (λ rs. count_if p (map (cart_item sql) rs))
              (laws.queried (select_cart session) a.store.db rows read)
          ∙ cart_items-in_cart p session t.products t.cart_items)

  unreadable :
      (session : Text) (a : App W R) (e : GoError)
      → sql.query (select_cart session) a.store.db ≡ inl e
      → handle_checkout sql intn cfg (inr session) a
        ≡ (respond 400 (error_body (codes "cart is empty")), a)
  unfolding handle_checkout get_cart add_up check_out select_cart
  unreadable session a e failed = rw failed refl

  overflown :
      (session : Text) (a : App W R) (rows : List (CartRow × Product F))
      → sql.query (select_cart session) a.store.db ≡ inr rows
      → 0 < count_if (overflows sql) rows
      → handle_checkout sql intn cfg (inr session) a
        ≡ (respond 400 (error_body (codes "cart is empty")), a)
  unfolding handle_checkout get_cart add_up check_out select_cart
  overflown session a rows read large =
      let some_large : (count_if (overflows sql) rows == 0) ≡ false = ground arith in
      rw (read, laws.arranged (overflows sql) a.store.db rows, some_large) refl

  -- A checkout that can be decoded, outside a transaction: with an empty cart, or one that cannot be
  -- read, as where a quantity has become too large for an int, the answer is 400 and nothing changes;
  -- where the order fails it is 500, and neither the tables nor the hub change; else it is 200, with an
  -- order of exactly the cart's items that is now in the tables under an identifier that was not there,
  -- and one event with that identifier is sent to the hub, which drops it only if 256 wait. The cart's
  -- items are those of the session's rows, each with its product's name and price, and no other, where
  -- no error ends the reading of the rows.
  pub handle_checkout-CheckedOut :
      (session : Text) (a : App W R)
      → laws.saved a.store.db ≡ none
      → let (answer, b) = handle_checkout sql intn cfg (inr session) a in
        let t = laws.view a.store.db in
        CheckedOut session (get_cart sql session a.store).0 a answer b
        × ((rows : List (CartRow × Product F))
            → sql.query (select_cart session) a.store.db ≡ inr rows
            → count_if (overflows sql) rows ≡ 0
            → (p : CartItem F → Bool)
            → count_if p (get_cart sql session a.store).0
              ≡ in_cart p session t.products t.cart_items)
        × ((e : GoError)
            → sql.query (select_cart session) a.store.db ≡ inl e
            → (answer ≡ respond 400 (error_body (codes "cart is empty"))) × (b ≡ a))
        × ((rows : List (CartRow × Product F))
            → sql.query (select_cart session) a.store.db ≡ inr rows
            → 0 < count_if (overflows sql) rows
            → (answer ≡ respond 400 (error_body (codes "cart is empty"))) × (b ≡ a))
  unfolding handle_checkout
  handle_checkout-CheckedOut session a closed = (
    check_out-CheckedOut session (get_cart sql session a.store).0 a closed,
    get_cart-in_cart session a,
    (λ e failed. (
      ap (λ (r : Response F × App W R). r.0) (unreadable session a e failed),
      ap (λ (r : Response F × App W R). r.1) (unreadable session a e failed),
    )),
    (λ rows read large. (
      ap (λ (r : Response F × App W R). r.0) (overflown session a rows read large),
      ap (λ (r : Response F × App W R). r.1) (overflown session a rows read large),
    )),
  )

  -- The answer 200 of a checkout, and the application that is left.
  abbrev pub placed_with : Order F → ℕ → App W R → Response F × App W R
  placed_with o n b = (respond 200 (order_made o n), b)

  response_inj :
      (o o' : Order F) (n n' : ℕ) (a b : App W R)
      → placed_with o n a ≡ placed_with o' n' b
      → (o ≡ o') × (a ≡ b)
  response_inj o o' n n' a b h = (cc, cc)

  order_created-read :
      (answers : IsAnswering sql) (session : Text) (items : List (CartItem F))
      (made : GoError ⊎ Order F) (s : Store W) (a b : App W R) (o : Order F) (n : ℕ)
      → laws.saved a.store.db ≡ none
      → IsConsistent (laws.view a.store.db)
      → All (IsPriced sql) items
      → create_order sql session items a.store ≡ (made, s)
      → order_created sql intn cfg session (made, s) a ≡ placed_with o n b
      → (read : Order F) × (get_order sql o.id b.store ≡ inr read) × ReadsBack o read
  unfolding order_created
  order_created-read answers session items (inl e) s a b o n closed ok priced is h = absurd (cc)
  order_created-read answers session items (inr o') s a b o n closed ok priced is h =
      let (same, left) = response_inj o' o _ n _ b h in
      subst
        (λ (x : Order F).
          (read : Order F) × (get_order sql x.id b.store ≡ inr read) × ReadsBack x read)
        same
        (order-ReadsBack sql laws answers session items a.store b.store o' closed ok priced
          (is ∙ ap (λ (x : App W R). (inr o', x.store)) left))

  check_out-read :
      (answers : IsAnswering sql) (session : Text) (items : List (CartItem F)) (a b : App W R)
      (o : Order F) (n : ℕ)
      → laws.saved a.store.db ≡ none
      → IsConsistent (laws.view a.store.db)
      → All (IsPriced sql) items
      → check_out sql intn cfg session items a ≡ placed_with o n b
      → (read : Order F) × (get_order sql o.id b.store ≡ inr read) × ReadsBack o read
  unfolding check_out
  check_out-read answers session [] a b o n closed ok priced h = absurd (cc)
  check_out-read answers session (it ∷ items) a b o n closed ok priced h =
      order_created-read answers session (it ∷ items) _ _ a b o n closed ok priced refl h

  -- In consistent tables and outside a transaction, with queries that do not fail: if a checkout answers
  -- 200 with an order, then a request for that order answers 200 with an order of the same identifier,
  -- session, status and total, the same items as often, in some order, and the time to the second.
  pub checkout_then_order :
      (answers : IsAnswering sql) (session : Text) (a b : App W R) (o : Order F) (n : ℕ)
      → laws.saved a.store.db ≡ none
      → IsConsistent (laws.view a.store.db)
      → handle_checkout sql intn cfg (inr session) a ≡ placed_with o n b
      → (read : Order F) × (handle_order sql intn cfg o.id b ≡ respond 200 (order_body read))
        × ReadsBack o read
  unfolding handle_checkout handle_order show_order
  checkout_then_order answers session a b o n closed ok h =
      let (read, e, back) =
        check_out-read answers session (get_cart sql session a.store).0 a b o n closed ok
          (get_cart-IsPriced sql laws session a.store).0 h in
      (read, ap (show_order sql intn cfg) e, back)
