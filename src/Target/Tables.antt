-- ===== src/Target/Tables.antt =====
-- The tables of target/backend/store.go and its SQL statements. A statement of SQLite's that changes
-- the tables gives `none` where a primary key forbids it. Prices are of type `F`, quantities numbers
-- (the handler passes no other), times of the tables are texts.
use browser_analysis.Prelude.{
  ℕ, ◌+◌, Bool, true, false, ◌&&◌, ◌||◌, List, [], ◌∷◌, ◌++◌, Option, none, some, ltb, ◌==◌,
  if◌then◌else◌,
}
use browser_analysis.Prelude.Sort.{sort_by}
use browser_analysis.Prelude.Text.{Text, eq_text}

pub record SessionRow : Type 0 where
  pub id : Text
  pub created_at : Text
  pub expires_at : Text

pub record Product (F : Type 0) : Type 0 where
  pub id : Text
  pub name : Text
  pub description : Text
  pub price : F
  pub stock : ℕ

pub record CartRow : Type 0 where
  pub session_id : Text
  pub product_id : Text
  pub qty : ℕ

pub record OrderRow (F : Type 0) : Type 0 where
  pub id : Text
  pub session_id : Text
  pub status : Text
  pub total : F
  pub created_at : Text

pub record ItemRow (F : Type 0) : Type 0 where
  pub order_id : Text
  pub product_id : Text
  pub name : Text
  pub qty : ℕ
  pub price : F

pub record Tables (F : Type 0) : Type 0 where
  pub sessions : List SessionRow
  pub products : List (Product F)
  pub cart_items : List CartRow
  pub orders : List (OrderRow F)
  pub order_items : List (ItemRow F)

-- The first row that passes a test.
abbrev pub find : {A : Type 0} → (A → Bool) → List A → Option A
find p [] = none
find p (x ∷ xs) = if p x then some x else find p xs

abbrev pub select : {A : Type 0} → (A → Bool) → List A → List A
select p [] = []
select p (x ∷ xs) = let rest = select p xs in if p x then x ∷ rest else rest

-- `INSERT` into a table with a primary key.
abbrev pub insert_new : {A : Type 0} → (A → Bool) → A → List A → Option (List A)
insert_new same row rows = elim (find same rows) [ none ↦ some (rows ++ row ∷ []) | some x ↦ none ]

-- The order of SQLite's BINARY collation.
lt_text : Text → Text → Bool
lt_text [] [] = false
lt_text [] (y ∷ ys) = true
lt_text (x ∷ xs) [] = false
lt_text (x ∷ xs) (y ∷ ys) = ltb x y || (x == y && lt_text xs ys)

-- `ON CONFLICT … DO UPDATE SET qty = qty + excluded.qty`.
unfoldable pub upsert_row : Text → Text → ℕ → List CartRow → List CartRow
upsert_row s p n [] = record { session_id = s; product_id = p; qty = n } ∷ []
upsert_row s p n (row ∷ rest) =
    let later = upsert_row s p n rest in
    if eq_text row.session_id s && eq_text row.product_id p
    then record row { qty = row.qty + n } ∷ rest
    else row ∷ later

module _ {F : Type 0} where
  unfoldable pub insert_session : SessionRow → Tables F → Option (Tables F)
  insert_session row t = elim (insert_new (λ r. eq_text r.id row.id) row t.sessions) [
    | none ↦ none
    | some rows ↦ some (record t { sessions = rows })
  ]

  unfoldable pub find_session : Text → Tables F → Option SessionRow
  find_session id t = find (λ r. eq_text r.id id) t.sessions

  unfoldable pub list_products : Tables F → List (Product F)
  unfolding lt_text
  list_products t = sort_by (λ p q. lt_text p.id q.id) t.products

  unfoldable pub find_product : Text → Tables F → Option (Product F)
  find_product id t = find (λ p. eq_text p.id id) t.products

  unfoldable pub upsert_cart : Text → Text → ℕ → Tables F → Option (Tables F)
  unfolding upsert_row
  upsert_cart s p n t = some (record t { cart_items = upsert_row s p n t.cart_items })

  -- `JOIN products p ON p.id = c.product_id`.
  unfoldable pub join_products : List (Product F) → List CartRow → List (CartRow × Product F)
  join_products ps [] = []
  join_products ps (row ∷ rest) =
      let later = join_products ps rest in
      elim (find (λ p. eq_text p.id row.product_id) ps) [ none ↦ later | some p ↦ (row, p) ∷ later ]

  unfoldable pub select_cart : Text → Tables F → List (CartRow × Product F)
  unfolding join_products
  select_cart s t = join_products t.products (select (λ r. eq_text r.session_id s) t.cart_items)

  unfoldable pub insert_order : OrderRow F → Tables F → Option (Tables F)
  insert_order row t = elim (insert_new (λ r. eq_text r.id row.id) row t.orders) [
    | none ↦ none
    | some rows ↦ some (record t { orders = rows })
  ]

  unfoldable pub insert_item : ItemRow F → Tables F → Option (Tables F)
  insert_item row t = some (record t { order_items = t.order_items ++ row ∷ [] })

  unfoldable pub find_order : Text → Tables F → Option (OrderRow F)
  find_order id t = find (λ r. eq_text r.id id) t.orders

  unfoldable pub select_items : Text → Tables F → List (ItemRow F)
  select_items id t = select (λ r. eq_text r.order_id id) t.order_items
