-- ===== src/Target/Store.antt =====
-- target/backend/store.go: the store over database/sql, which is a parameter with SQLite below it. It
-- takes a statement as what it does to the tables. Times are in nanoseconds. The migration and the
-- seed of `openStore` are left aside; calls of `uniqueID` are atomic.
pub mod Laws
pub mod Orders
pub mod RoundTrip
pub mod Carts
pub mod Sessions
use browser_analysis.Prelude.{
  ℕ, suc, ◌+◌, ◌%◌, ◌^◌, ◌⊎◌, inl, inr, Bool, true, false, List, [], ◌∷◌, Option, none, some, map,
  leb, ◌==◌, count_if, if◌then◌else◌,
}
use browser_analysis.Prelude.Text.{Text, codes}
use browser_analysis.Prelude.Double.{Double}
use browser_analysis.Workflow.{GoError, plain_error}
use browser_analysis.Target.Tables.{
  Tables, SessionRow, Product, CartRow, OrderRow, ItemRow, insert_session, find_session,
  list_products, find_product, upsert_cart, select_cart, insert_order, insert_item, find_order,
  select_items,
}

-- `query` scans the rows of a `SELECT`; `arrange` gives the rows a loop over `Next` sees, in the order
-- SQLite chooses where the statement asks for none, and fewer where an error ends the iteration, as no
-- loop asks for `rows.Err`. `rollback` is also called after a commit, when it does nothing. `id_text` is the `Sprintf` of
-- `uniqueID`, `format` and `parse` are those of RFC 3339.
pub record Sql (F W : Type 0) : Type 1 where
  pub query : {A : Type 0} → (Tables F → A) → W → GoError ⊎ A
  pub exec : (Tables F → Option (Tables F)) → W → Option GoError × W
  pub begin : W → Option GoError × W
  pub commit : W → Option GoError × W
  pub rollback : W → W
  pub arrange : {A : Type 0} → W → List A → List A
  pub clock : W → ℕ
  pub id_text : Text → ℕ → ℕ → Text
  pub format : ℕ → Text
  pub parse : Text → ℕ

pub record Store (W : Type 0) : Type 0 where
  pub db : W
  pub id_counter : ℕ

pub record Session : Type 0 where
  pub id : Text
  pub created_at : ℕ
  pub expires_at : ℕ

pub record CartItem (F : Type 0) : Type 0 where
  pub product_id : Text
  pub name : Text
  pub qty : ℕ
  pub price : F
  pub line_total : F

pub record Order (F : Type 0) : Type 0 where
  pub id : Text
  pub session_id : Text
  pub status : Text
  pub total : F
  pub items : List (CartItem F)
  pub created_at : ℕ

-- `sql.ErrNoRows`, the error of `Scan` on a `QueryRow` without a row.
unfoldable pub scan_row : {A : Type 0} → GoError ⊎ Option A → GoError ⊎ A
scan_row (inl e) = inl e
scan_row (inr none) = inl (plain_error (codes "sql: no rows in result set"))
scan_row (inr (some row)) = inr row

module _ {F W : Type 0} ⦃d : Double F⦄ (sql : Sql F W) where
  unfoldable pub unique_id : Text → Store W → Text × Store W
  unique_id prefix s =
      let n = suc s.id_counter % 2 ^ 64 in
      (sql.id_text prefix (sql.clock s.db) n, record s { id_counter = n })

  -- `CreateSession` returns the session beside the error.
  unfoldable pub create_session : ℕ → Store W → Session × Option GoError × Store W
  unfolding unique_id insert_session
  create_session ttl s =
      let (id, s') = unique_id (codes "sess") s in
      let now = sql.clock s'.db in
      let row : SessionRow = record {
        id = id;
        created_at = sql.format now;
        expires_at = sql.format (now + ttl);
      } in
      let (err, w) = sql.exec (insert_session row) s'.db in
      (record { id = id; created_at = now; expires_at = now + ttl }, err, record s' { db = w })

  unfoldable pub read_session : GoError ⊎ SessionRow → GoError ⊎ Session
  read_session (inl e) = inl e
  read_session (inr row) = inr (record {
    id = row.id;
    created_at = sql.parse row.created_at;
    expires_at = sql.parse row.expires_at;
  })

  unfoldable pub get_session : Text → Store W → GoError ⊎ Session
  unfolding scan_row find_session read_session
  get_session id s = read_session (scan_row (sql.query (find_session id) s.db))

  -- `ListProducts` gives a nil slice on an error.
  unfoldable pub products : Store W → List (Product F)
  products s = elim (sql.query list_products s.db) [ inl e ↦ [] | inr ps ↦ ps ]

  unfoldable pub get_product : Text → Store W → GoError ⊎ Product F
  unfolding scan_row find_product
  get_product id s = scan_row (sql.query (find_product id) s.db)

  unfoldable pub priced : Text → Text → ℕ → F → CartItem F
  priced id name qty price = record {
    product_id = id;
    name = name;
    qty = qty;
    price = price;
    line_total = d.fmul price (d.of_nat qty);
  }

  -- `AddToCart` past `GetProduct`, and past the statement.
  unfoldable pub say_added :
      Product F → ℕ → Store W → Option GoError × W → (GoError ⊎ CartItem F) × Store W
  unfolding priced
  say_added p qty s (some e, w) = (inl e, record s { db = w })
  say_added p qty s (none, w) = (inr (priced p.id p.name qty p.price), record s { db = w })

  unfoldable pub put_in_cart :
      Text → Text → ℕ → GoError ⊎ Product F → Store W → (GoError ⊎ CartItem F) × Store W
  unfolding upsert_cart say_added
  put_in_cart session id qty (inl e) s = (inl e, s)
  put_in_cart session id qty (inr p) s =
      say_added p qty s (sql.exec (upsert_cart session id qty) s.db)

  unfoldable pub add_to_cart : Text → Text → ℕ → Store W → (GoError ⊎ CartItem F) × Store W
  unfolding put_in_cart get_product
  add_to_cart session id qty s = put_in_cart session id qty (get_product id s) s

  abbrev pub cart_item : CartRow × Product F → CartItem F
  cart_item (row, p) = priced row.product_id p.name row.qty p.price

  unfoldable pub sum_items : F → List (CartItem F) → F
  sum_items total [] = total
  sum_items total (it ∷ rest) = sum_items (d.fadd total it.line_total) rest

  -- A sum of quantities past the largest int is a float in SQLite, which `Scan` does not put into one.
  abbrev pub overflows : CartRow × Product F → Bool
  overflows (row, p) = leb 9_223_372_036_854_775_808 row.qty

  -- `GetCart` gives no items and no total on an error, that of a `Scan` too.
  unfoldable pub add_up : W → GoError ⊎ List (CartRow × Product F) → List (CartItem F) × F
  unfolding sum_items
  add_up w (inl e) = ([], d.of_nat 0)
  add_up w (inr rows) =
      let rows' = sql.arrange w rows in
      let items = map cart_item rows' in
      if count_if overflows rows' == 0
      then (items, sum_items (d.of_nat 0) items)
      else ([], d.of_nat 0)

  unfoldable pub get_cart : Text → Store W → List (CartItem F) × F
  unfolding select_cart add_up
  get_cart session s = add_up s.db (sql.query (select_cart session) s.db)

  abbrev pub item_row : Text → CartItem F → ItemRow F
  item_row id it = record {
    order_id = id;
    product_id = it.product_id;
    name = it.name;
    qty = it.qty;
    price = it.price;
  }

  -- The loop of `CreateOrder`.
  unfoldable pub insert_items : Text → List (CartItem F) → W → Option GoError × W
  unfolding insert_item
  insert_items id [] w = (none, w)
  insert_items id (it ∷ rest) w =
      let (err, w') = sql.exec (insert_item (item_row id it)) w in
      let later = insert_items id rest w' in elim err [ some e ↦ (some e, w') | none ↦ later ]

  -- The statements inside the transaction, each step on the outcome of the one before, and its commit.
  unfoldable pub commit_order : Option GoError × W → Option GoError × W
  commit_order (some e, w) = (some e, w)
  commit_order (none, w) = sql.commit w

  unfoldable pub fill_items : Text → List (CartItem F) → Option GoError × W → Option GoError × W
  fill_items id items (some e, w) = (some e, w)
  fill_items id items (none, w) = insert_items id items w

  unfoldable pub fill_order : OrderRow F → List (CartItem F) → W → Option GoError × W
  unfolding insert_order
  fill_order row items w = commit_order (fill_items row.id items (sql.exec (insert_order row) w))

  -- The end of `CreateOrder`, where the deferred rollback is called.
  unfoldable pub settle_order :
      Order F → Store W → Option GoError × W → (GoError ⊎ Order F) × Store W
  settle_order o s (some e, w) = (inl e, record s { db = sql.rollback w })
  settle_order o s (none, w) = (inr o, record s { db = sql.rollback w })

  abbrev pub order_row : Order F → OrderRow F
  order_row o = record {
    id = o.id;
    session_id = o.session_id;
    status = o.status;
    total = o.total;
    created_at = sql.format o.created_at;
  }

  -- Past `Begin`, on its error.
  unfoldable pub place_order :
      Option GoError → Text → List (CartItem F) → Store W → (GoError ⊎ Order F) × Store W
  unfolding settle_order fill_order unique_id
  place_order (some e) session items s = (inl e, s)
  place_order none session items s =
      let (id, s') = unique_id (codes "ord") s in
      let o : Order F = record {
        id = id;
        session_id = session;
        status = codes "confirmed";
        total = sum_items (d.of_nat 0) items;
        items = items;
        created_at = sql.clock s'.db;
      } in
      settle_order o s' (fill_order (order_row o) items s'.db)

  unfoldable pub create_order : Text → List (CartItem F) → Store W → (GoError ⊎ Order F) × Store W
  unfolding place_order
  create_order session items s =
      let (failed, w) = sql.begin s.db in place_order failed session items (record s { db = w })

  abbrev pub order_item : ItemRow F → CartItem F
  order_item row = priced row.product_id row.name row.qty row.price

  -- `GetOrder` past its first query.
  unfoldable pub with_items : GoError ⊎ OrderRow F → Text → Store W → GoError ⊎ Order F
  unfolding select_items
  with_items (inl e) id s = inl e
  with_items (inr row) id s = elim (sql.query (select_items id) s.db) [
    | inl e ↦ inl e
    | inr items ↦ inr (record {
      id = row.id;
      session_id = row.session_id;
      status = row.status;
      total = row.total;
      items = map order_item (sql.arrange s.db items);
      created_at = sql.parse row.created_at;
    })
  ]

  unfoldable pub get_order : Text → Store W → GoError ⊎ Order F
  unfolding with_items scan_row find_order
  get_order id s = with_items (scan_row (sql.query (find_order id) s.db)) id s
