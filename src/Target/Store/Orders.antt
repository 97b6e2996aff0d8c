-- ===== src/Target/Store/Orders.antt =====
-- Orders of target/backend/store.go: a transaction that is done wholly or not at all.
use browser_analysis.Prelude.{append_nil, append_assoc}
use browser_analysis.Prelude.{
  ◌≡◌, refl, sym, ap, ◌∙◌, ◌⊎◌, inl, inr, List, [], ◌∷◌, ◌++◌, Option, none, some, map, arith,
  Option-cases,
}
use browser_analysis.Prelude.Text.{Text, codes}
use browser_analysis.Prelude.Double.{Double}
use browser_analysis.Workflow.{GoError}
use browser_analysis.Target.Tables.{
  Tables, OrderRow, ItemRow, insert_order, insert_item, find_order,
}
use browser_analysis.Target.Store.{
  Sql, Store, CartItem, Order, item_row, order_row, insert_items, fill_items, commit_order,
  fill_order, settle_order, place_order, create_order, sum_items, unique_id,
}
use browser_analysis.Target.Store.Laws.{IsSqlite}

-- The tables with the rows of an order.
abbrev pub with_order : {F : Type 0} → OrderRow F → List (ItemRow F) → Tables F → Tables F
with_order row items t = record t {
  orders = t.orders ++ row ∷ [];
  order_items = t.order_items ++ items;
}

abbrev pub with_items_only : {F : Type 0} → List (ItemRow F) → Tables F → Tables F
with_items_only items t = record t { order_items = t.order_items ++ items }

some_inj : {A : Type 0} (x y : A) → some x ≡ some y → x ≡ y
some_inj x y h = cc

insert_order-new :
    {F : Type 0} (row : OrderRow F) (t u : Tables F)
    → insert_order row t ≡ some u
    → (find_order row.id t ≡ none) × (u ≡ with_order row [] t)
unfolding insert_order find_order
insert_order-new row t u h = ground (arith, append_nil t.order_items)

module _ {F W : Type 0} ⦃d : Double F⦄ (sql : Sql F W) (laws : IsSqlite sql) where
  items_passed :
      (id : Text) (it : CartItem F) (rest : List (CartItem F)) (w : W)
      → (sql.exec (insert_item (item_row sql id it)) w).0 ≡ none
      → insert_items sql id (it ∷ rest) w
        ≡ insert_items sql id rest (sql.exec (insert_item (item_row sql id it)) w).1
  unfolding insert_items
  items_passed id it rest w h = ground arith

  items_failed :
      (id : Text) (it : CartItem F) (rest : List (CartItem F)) (w : W) (e : GoError)
      → (sql.exec (insert_item (item_row sql id it)) w).0 ≡ some e
      → insert_items sql id (it ∷ rest) w
        ≡ (some e, (sql.exec (insert_item (item_row sql id it)) w).1)
  unfolding insert_items
  items_failed id it rest w e h = ground arith

  -- A list of rows that is inserted wholly, or cut short by an error; the transaction stays open.
  abbrev Inserted : List (ItemRow F) → W → Option GoError × W → Type 0
  Inserted rows w (some e, w') = laws.saved w' ≡ laws.saved w
  Inserted rows w (none, w') =
      (laws.saved w' ≡ laws.saved w) × (laws.view w' ≡ with_items_only rows (laws.view w))

  item_inserted :
      (row : ItemRow F) (w : W)
      → (sql.exec (insert_item row) w).0 ≡ none
      → let w' = (sql.exec (insert_item row) w).1 in
        (laws.saved w' ≡ laws.saved w) × (laws.view w' ≡ with_items_only (row ∷ []) (laws.view w))
  unfolding insert_item
  item_inserted row w h =
      let (does, keeps) = laws.exec_ok (insert_item row) w h in (keeps, sym (some_inj _ _ does))

  Inserted-cons :
      (row : ItemRow F) (rows : List (ItemRow F)) (w : W) (r : Option GoError × W)
      → (sql.exec (insert_item row) w).0 ≡ none
      → Inserted rows (sql.exec (insert_item row) w).1 r
      → Inserted (row ∷ rows) w r
  Inserted-cons row rows w (some e, w') h k = k ∙ (item_inserted row w h).0
  Inserted-cons row rows w (none, w') h (keeps, view) =
      let (keeps', view') = item_inserted row w h in
      (
        keeps ∙ keeps',
        view
            ∙ ap (with_items_only rows) view'
            ∙ ap (λ items. record (laws.view w) { order_items = items })
                (append_assoc (laws.view w).order_items (row ∷ []) rows),
      )

  insert_items-Inserted :
      (id : Text) (items : List (CartItem F)) (w : W)
      → Inserted (map (item_row sql id) items) w (insert_items sql id items w)
  unfolding insert_items
  insert_items-Inserted id [] w = (
    refl,
    ap (λ rows. record (laws.view w) { order_items = rows })
        (sym (append_nil (laws.view w).order_items)),
  )
  insert_items-Inserted id (it ∷ rest) w =
      let row = item_row sql id it in
      let w' = (sql.exec (insert_item row) w).1 in
      elim (Option-cases (sql.exec (insert_item row) w).0) [
        | inr (e, failed) ↦
            rw (items_failed id it rest w e failed) (laws.exec_bad (insert_item row) w e failed).1
        | inl passed ↦
            rw (items_passed id it rest w passed)
              (Inserted-cons row _ w _ passed (insert_items-Inserted id rest w'))
      ]

  -- The outcome of the transaction on tables `t`: all rows and a commit, or an error with the
  -- transaction still open on `t` or already given up.
  abbrev Filled : OrderRow F → List (ItemRow F) → Tables F → Option GoError × W → Type 0
  Filled row rows t (none, w) =
      (laws.saved w ≡ none) × (laws.view w ≡ with_order row rows t) × (find_order row.id t ≡ none)
  Filled row rows t (some e, w) =
      (laws.saved w ≡ some t) ⊎ ((laws.saved w ≡ none) × (laws.view w ≡ t))

  -- The same before the commit.
  abbrev Ready : OrderRow F → List (ItemRow F) → Tables F → Option GoError × W → Type 0
  Ready row rows t (none, w) =
      (laws.saved w ≡ some t) × (laws.view w ≡ with_order row rows t) × (find_order row.id t ≡ none)
  Ready row rows t (some e, w) = laws.saved w ≡ some t

  committed :
      (row : OrderRow F) (rows : List (ItemRow F)) (t : Tables F) (r : Option GoError × W)
      → (r.0 ≡ none → (laws.saved r.1 ≡ none) × (laws.view r.1 ≡ with_order row rows t))
      → ((e : GoError) → r.0 ≡ some e → (laws.saved r.1 ≡ none) × (laws.view r.1 ≡ t))
      → find_order row.id t ≡ none
      → Filled row rows t r
  committed row rows t (none, w) ok bad new = let (done, view) = ok refl in (done, view, new)
  committed row rows t (some e, w) ok bad new = inr (bad e refl)

  commit_order-Filled :
      (row : OrderRow F) (rows : List (ItemRow F)) (t : Tables F) (r : Option GoError × W)
      → Ready row rows t r
      → Filled row rows t (commit_order sql r)
  unfolding commit_order
  commit_order-Filled row rows t (some e, w) h = inl h
  commit_order-Filled row rows t (none, w) (open_on, view, new) =
      committed row rows t (sql.commit w)
        (λ ok. let (same, done) = laws.commit_ok w ok in (done, same ∙ view))
        (λ e bad. let (back, done) = laws.commit_bad w e t bad open_on in (done, back)) new

  items-Ready :
      (row : OrderRow F) (rows : List (ItemRow F)) (t : Tables F) (w : W) (r : Option GoError × W)
      → laws.saved w ≡ some t
      → laws.view w ≡ with_order row [] t
      → find_order row.id t ≡ none
      → Inserted rows w r
      → Ready row rows t r
  items-Ready row rows t w (some e, w') open_on view new h = h ∙ open_on
  items-Ready row rows t w (none, w') open_on view new (keeps, added) = (
    keeps ∙ open_on,
    added
        ∙ ap (with_items_only rows) view
        ∙ ap (λ items. record (with_order row [] t) { order_items = items ++ rows })
            (append_nil t.order_items),
    new,
  )

  -- After the first statement.
  fill_items-Ready :
      (row : OrderRow F) (items : List (CartItem F)) (t : Tables F) (w : W) (r : Option GoError × W)
      → laws.saved w ≡ some t
      → laws.view w ≡ t
      → (r.0 ≡ none
          → (insert_order row (laws.view w) ≡ some (laws.view r.1))
            × (laws.saved r.1 ≡ laws.saved w))
      → ((e : GoError)
          → r.0 ≡ some e
          → (laws.view r.1 ≡ laws.view w) × (laws.saved r.1 ≡ laws.saved w))
      → Ready row (map (item_row sql row.id) items) t (fill_items sql row.id items r)
  unfolding fill_items
  fill_items-Ready row items t w (some e, w') open_on view ok bad = (bad e refl).1 ∙ open_on
  fill_items-Ready row items t w (none, w') open_on view ok bad =
      let (does, keeps) = ok refl in
      let (new, added) = insert_order-new row (laws.view w) (laws.view w') does in
      items-Ready row _ t w' _ (keeps ∙ open_on) (added ∙ ap (with_order row []) view)
        (ap (find_order row.id) (sym view) ∙ new) (insert_items-Inserted row.id items w')

  fill_order-Filled :
      (row : OrderRow F) (items : List (CartItem F)) (t : Tables F) (w : W)
      → laws.saved w ≡ some t
      → laws.view w ≡ t
      → Filled row (map (item_row sql row.id) items) t (fill_order sql row items w)
  unfolding fill_order
  fill_order-Filled row items t w open_on view = commit_order-Filled row _ t _ (
      fill_items-Ready row items t w (sql.exec (insert_order row) w) open_on view
        (λ ok. laws.exec_ok (insert_order row) w ok)
        (λ e failed. laws.exec_bad (insert_order row) w e failed))

  -- What `CreateOrder` does to tables `t`: nothing if it gives an error; else there was no order with
  -- that identifier, and there are now its row and those of its items.
  abbrev pub Placed : Text → List (CartItem F) → Tables F → GoError ⊎ Order F → W → Type 0
  Placed session items t (inl e) w = (laws.saved w ≡ none) × (laws.view w ≡ t)
  Placed session items t (inr o) w =
      (laws.saved w ≡ none)
      × (laws.view w ≡ with_order (order_row sql o) (map (item_row sql o.id) items) t)
      × (find_order o.id t ≡ none)
      × (o.session_id ≡ session)
      × (o.items ≡ items)
      × (o.total ≡ sum_items sql (d.of_nat 0) items)

  settle_order-Placed :
      (o : Order F) (t : Tables F) (s : Store W) (r : Option GoError × W)
      → o.total ≡ sum_items sql (d.of_nat 0) o.items
      → Filled (order_row sql o) (map (item_row sql o.id) o.items) t r
      → let (made, s') = settle_order sql o s r in Placed o.session_id o.items t made s'.db
  unfolding settle_order
  settle_order-Placed o t s (some e, w) sum (inl open_on) =
      let (view, done) = laws.rollback_open w t open_on in (done, view)
  settle_order-Placed o t s (some e, w) sum (inr (over, back)) =
      let (view, done) = laws.rollback_done w over in (done, view ∙ back)
  settle_order-Placed o t s (none, w) sum (over, added, new) =
      let (view, done) = laws.rollback_done w over in (done, view ∙ added, new, refl, refl, sum)

  -- Past `Begin`.
  place_order-Placed :
      (failed : Option GoError) (session : Text) (items : List (CartItem F)) (t : Tables F)
      (s : Store W)
      → laws.view s.db ≡ t
      → laws.saved s.db ≡ elim failed [ some e ↦ none | none ↦ some t ]
      → let (made, s') = place_order sql failed session items s in Placed session items t made s'.db
  unfolding place_order
  place_order-Placed (some e) session items t s view open_on = (open_on, view)
  place_order-Placed none session items t s view open_on =
      settle_order-Placed _ t (unique_id sql (codes "ord") s).1 _ refl
        (fill_order-Filled _ items t _ open_on view)

  begun :
      (w : W) (r : Option GoError × W)
      → laws.saved w ≡ none
      → (r.0 ≡ none → (laws.view r.1 ≡ laws.view w) × (laws.saved r.1 ≡ some (laws.view w)))
      → ((e : GoError)
          → r.0 ≡ some e
          → (laws.view r.1 ≡ laws.view w) × (laws.saved r.1 ≡ laws.saved w))
      → (laws.view r.1 ≡ laws.view w)
        × (laws.saved r.1 ≡ elim r.0 [ some e ↦ none | none ↦ some (laws.view w) ])
  begun w (some e, w') closed ok bad = let (same, keeps) = bad e refl in (same, keeps ∙ closed)
  begun w (none, w') closed ok bad = ok refl

  -- `CreateOrder` is a transaction: outside one, it gives an error and leaves the tables as they were,
  -- wherever an error occurs, at the start, in a statement or at the commit; or it gives an order of
  -- the session with the items and their sum, whose identifier no order had, and adds its row and one
  -- row for each item to the tables and nothing else. No transaction is left open.
  pub create_order-Placed :
      (session : Text) (items : List (CartItem F)) (s : Store W)
      → laws.saved s.db ≡ none
      → let (made, s') = create_order sql session items s in
        Placed session items (laws.view s.db) made s'.db
  unfolding create_order
  create_order-Placed session items s closed =
      let (view, open_on) =
        begun s.db (sql.begin s.db) closed (λ ok. laws.begin_ok s.db ok)
          (λ e bad. laws.begin_bad s.db e bad) in
      place_order-Placed (sql.begin s.db).0 session items (laws.view s.db) _ view open_on
