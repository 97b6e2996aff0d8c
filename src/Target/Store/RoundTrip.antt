-- ===== src/Target/Store/RoundTrip.antt =====
-- What is read back of the orders of target/backend/store.go.
use browser_analysis.Prelude.{
  ◌/◌, ◌*◌, ◌≡◌, refl, sym, ap, subst, ◌∙◌, ◌⊎◌, inl, inr, Bool, true, List, [], ◌∷◌, ◌++◌, none,
  some, map, arith, count_if, All, if◌then◌else◌,
}
use browser_analysis.Prelude.Text.{Text, eq_text, eq_text_iff}
use browser_analysis.Prelude.Double.{Double}
use browser_analysis.Workflow.{GoError}
use browser_analysis.Target.Tables.{
  Tables, OrderRow, ItemRow, find, select, find_order, select_items,
}
use browser_analysis.Target.Store.{
  Sql, Store, CartItem, Order, item_row, order_item, order_row, create_order, get_order, with_items,
  scan_row, priced,
}
use browser_analysis.Target.Store.Laws.{IsSqlite}
use browser_analysis.Target.Store.Orders.{with_order, Placed, create_order-Placed}

-- Rows of items stand only with their order.
abbrev pub IsConsistent : {F : Type 0} → Tables F → Type 0
IsConsistent t = (id : Text) → find_order id t ≡ none → select_items id t ≡ []

module _ {A : Type 0} (p : A → Bool) where
  pub find-append : (xs ys : List A) → find p xs ≡ none → find p (xs ++ ys) ≡ find p ys
  find-append [] ys h = refl
  find-append (x ∷ xs) ys h = ground (arith, find-append xs ys)

  find-append_parts :
      (xs ys : List A) → find p (xs ++ ys) ≡ none → (find p xs ≡ none) × (find p ys ≡ none)
  find-append_parts [] ys h = (refl, h)
  find-append_parts (x ∷ xs) ys h = ground (arith, find-append_parts xs ys)

  select-append : (xs ys : List A) → select p (xs ++ ys) ≡ select p xs ++ select p ys
  select-append [] ys = refl
  select-append (x ∷ xs) ys = ground (arith, select-append xs ys)

pub count_if-map :
    {A B : Type 0} (p : B → Bool) (f : A → B) (xs : List A)
    → count_if p (map f xs) ≡ count_if (λ x. p (f x)) xs
count_if-map p f [] = refl
count_if-map p f (x ∷ xs) = ground (arith, count_if-map p f xs)

module _ {F W : Type 0} ⦃d : Double F⦄ (sql : Sql F W) where
  select-rows :
      (id key : Text) (items : List (CartItem F))
      → select (λ r. eq_text r.order_id key) (map (item_row sql id) items)
        ≡ (if eq_text id key then map (item_row sql id) items else [])
  select-rows id key [] = ground arith
  select-rows id key (it ∷ items) = ground (arith, select-rows id key items)

  with_order-IsConsistent :
      (o : Order F) (t : Tables F) (items : List (CartItem F))
      → IsConsistent t
      → IsConsistent (with_order (order_row sql o) (map (item_row sql o.id) items) t)
  unfolding find_order select_items
  with_order-IsConsistent o t items ok id none_there =
      let (before, not_this) =
        find-append_parts (λ r. eq_text r.id id) t.orders (order_row sql o ∷ []) none_there in
      select-append (λ r. eq_text r.order_id id) t.order_items (map (item_row sql o.id) items)
      ∙ ground (arith, ok id before, select-rows o.id id items, not_this)

-- No query fails.
abbrev pub IsAnswering : {F W : Type 0} → Sql F W → Type 1
IsAnswering {F} {W} sql =
    (A : Type 0) (q : Tables F → A) (w : W) → (x : A) × (sql.query q w ≡ inr x)

-- An item with the line total that the store gives it.
abbrev pub IsPriced : {F W : Type 0} ⦃d : Double F⦄ → Sql F W → CartItem F → Type 0
IsPriced sql it = it ≡ priced sql it.product_id it.name it.qty it.price

-- The order that is read for an order that was created: its items in some order, its time to the second.
pub record ReadsBack {F : Type 0} (o read : Order F) : Type 0 where
  pub same_id : read.id ≡ o.id
  pub same_session : read.session_id ≡ o.session_id
  pub same_status : read.status ≡ o.status
  pub same_total : read.total ≡ o.total
  pub same_items : (p : CartItem F → Bool) → count_if p read.items ≡ count_if p o.items
  pub to_second : read.created_at ≡ o.created_at / 1_000_000_000 * 1_000_000_000

module _ {F W : Type 0} ⦃d : Double F⦄ (sql : Sql F W) (laws : IsSqlite sql) where
  pub answered :
      {A : Type 0} (answers : IsAnswering sql) (q : Tables F → A) (w : W)
      → sql.query q w ≡ inr (q (laws.view w))
  answered {A} answers q w = let (x, e) = answers A q w in e ∙ ap inr (laws.queried q w x e)

  counted_back :
      (id : Text) (items : List (CartItem F)) (p : CartItem F → Bool)
      → All (IsPriced sql) items
      → count_if (λ r. p (order_item sql r)) (map (item_row sql id) items) ≡ count_if p items
  counted_back id [] p h = refl
  counted_back id (it ∷ items) p (priced, rest) =
      ground (arith, counted_back id items p rest, ap p priced)

  -- Reading an order whose row and items are found.
  get_order-found :
      (answers : IsAnswering sql) (row : OrderRow F) (items : List (ItemRow F)) (s : Store W)
      → find_order row.id (laws.view s.db) ≡ some row
      → select_items row.id (laws.view s.db) ≡ items
      → get_order sql row.id s
        ≡ inr (record {
          id = row.id;
          session_id = row.session_id;
          status = row.status;
          total = row.total;
          items = map (order_item sql) (sql.arrange s.db items);
          created_at = sql.parse row.created_at;
        })
  unfolding get_order with_items scan_row
  get_order-found answers row items s found chosen =
      rw (answered answers (find_order row.id) s.db)
        (rw found (rw (answered answers (select_items row.id) s.db) (rw chosen refl)))

  Placed-IsConsistent :
      (session : Text) (items : List (CartItem F)) (t : Tables F) (made : GoError ⊎ Order F) (w : W)
      → IsConsistent t
      → Placed sql laws session items t made w
      → IsConsistent (laws.view w)
  Placed-IsConsistent session items t (inl e) w ok (done, view) = subst IsConsistent (sym view) ok
  Placed-IsConsistent session items t (inr o) w ok (done, view, new, of_session, of_items, total) =
      subst IsConsistent (sym view) (with_order-IsConsistent sql o t items ok)

  -- In consistent tables and outside a transaction, with queries that do not fail, an order that
  -- `CreateOrder` gives for items with the store's line totals is what `GetOrder` then reads under its
  -- identifier: the same session, status and total, the same items as often, in some order, and the
  -- time to the second.
  pub order-ReadsBack :
      (answers : IsAnswering sql) (session : Text) (items : List (CartItem F)) (s s' : Store W)
      (o : Order F)
      → laws.saved s.db ≡ none
      → IsConsistent (laws.view s.db)
      → All (IsPriced sql) items
      → create_order sql session items s ≡ (inr o, s')
      → (read : Order F) × (get_order sql o.id s' ≡ inr read) × ReadsBack o read
  unfolding find_order select_items
  order-ReadsBack answers session items s s' o closed ok priced made =
      let t = laws.view s.db in
      let (done, view, new, of_session, of_items, total) =
        subst (λ r. Placed sql laws session items t r.0 r.1.db) made
          (create_order-Placed sql laws session items s closed) in
      let same : eq_text o.id o.id ≡ true = (eq_text_iff o.id o.id).1 refl in
      let rows = map (item_row sql o.id) items in
      let found : find_order o.id (laws.view s'.db) ≡ some (order_row sql o) =
        ap (find_order o.id) view
        ∙ find-append (λ r. eq_text r.id o.id) t.orders (order_row sql o ∷ []) new
        ∙ ground (arith, same) in
      let chosen : select_items o.id (laws.view s'.db) ≡ rows =
        ap (select_items o.id) view
        ∙ select-append (λ r. eq_text r.order_id o.id) t.order_items rows
        ∙ ground (arith, ok o.id new, select-rows sql o.id o.id items, same) in
      (
        _,
        get_order-found answers (order_row sql o) rows s' found chosen,
        record {
          same_id = refl;
          same_session = refl;
          same_status = refl;
          same_total = refl;
          same_items = λ p.
              count_if-map p (order_item sql) (sql.arrange s'.db rows)
              ∙ laws.arranged (λ r. p (order_item sql r)) s'.db rows
              ∙ counted_back o.id items p priced
              ∙ ap (count_if p) (sym of_items);
          to_second = laws.to_second o.created_at;
        },
      )

  -- `CreateOrder` keeps the tables consistent, whether it gives an order or an error.
  pub create_order-IsConsistent :
      (session : Text) (items : List (CartItem F)) (s : Store W)
      → laws.saved s.db ≡ none
      → IsConsistent (laws.view s.db)
      → IsConsistent (laws.view (create_order sql session items s).1.db)
  create_order-IsConsistent session items s closed ok =
      Placed-IsConsistent session items (laws.view s.db) (create_order sql session items s).0
        (create_order sql session items s).1.db ok
        (create_order-Placed sql laws session items s closed)
