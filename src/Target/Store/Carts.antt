-- ===== src/Target/Store/Carts.antt =====
-- Carts of target/backend/store.go: what `AddToCart` adds.
use browser_analysis.Prelude.{
  ℕ, ◌+◌, ◌≡◌, refl, sym, ap, ◌∙◌, ◌⊎◌, inl, inr, Bool, true, ◌&&◌, List, [], ◌∷◌, Option, none,
  some, arith, if◌then◌else◌, All, map, Bool-cases, ◌==◌, count_if,
}
use browser_analysis.Prelude.Text.{Text, eq_text, eq_text_iff}
use browser_analysis.Prelude.Double.{Double}
use browser_analysis.Workflow.{GoError}
use browser_analysis.Target.Tables.{
  Tables, Product, CartRow, find, find_product, upsert_row, upsert_cart, select_cart,
}
use browser_analysis.Target.Store.{
  Sql, Store, CartItem, add_to_cart, put_in_cart, get_product, get_cart, cart_item, priced,
  scan_row, say_added, overflows, add_up, sum_items,
}
use browser_analysis.Target.Store.Laws.{IsSqlite}
use browser_analysis.Target.Store.RoundTrip.{IsPriced}

-- How many of a product a session's cart has, over all its rows.
abbrev pub quantity : Text → Text → List CartRow → ℕ
quantity s p [] = 0
quantity s p (row ∷ rest) =
    let later = quantity s p rest in
    if eq_text row.session_id s && eq_text row.product_id p then row.qty + later else later

abbrev pub same_key : Text → Text → Text → Text → Bool
same_key s p s' p' = eq_text s s' && eq_text p p'

eq_text_sym : (a b : Text) → eq_text a b ≡ eq_text b a
eq_text_sym [] [] = refl
eq_text_sym [] (y ∷ ys) = refl
eq_text_sym (x ∷ xs) [] = refl
eq_text_sym (x ∷ xs) (y ∷ ys) = ground (arith, eq_text_sym xs ys)

eq_text_trans : (a b c : Text) → eq_text a b ≡ true → eq_text a c ≡ eq_text b c
eq_text_trans a b c h = ap (λ t. eq_text t c) ((eq_text_iff a b).0 h)

quantity-upsert_row :
    (s p s' p' : Text) (n : ℕ) (rows : List CartRow)
    → quantity s' p' (upsert_row s p n rows)
      ≡ quantity s' p' rows + (if same_key s p s' p' then n else 0)
unfolding upsert_row
quantity-upsert_row s p s' p' n [] = ground arith
quantity-upsert_row s p s' p' n (row ∷ rest) = ground (
  arith,
  quantity-upsert_row s p s' p' n rest,
  eq_text_trans row.session_id s s',
  eq_text_trans row.product_id p p',
)

scan_row-some :
    {A : Type 0} (x : GoError ⊎ Option A) (row : A) → scan_row x ≡ inr row → x ≡ inr (some row)
unfolding scan_row
scan_row-some (inl e) row h = absurd (cc)
scan_row-some (inr none) row h = absurd (cc)
scan_row-some (inr (some r)) row h = cc

find-passes : {A : Type 0} (q : A → Bool) (xs : List A) (x : A) → find q xs ≡ some x → q x ≡ true
find-passes q [] x h = absurd (cc)
find-passes q (y ∷ ys) x h = elim (Bool-cases (q y)) [
  | inl hit ↦ ground arith
  | inr miss ↦ find-passes q ys x (ground arith)
]

module _ {F W : Type 0} ⦃d : Double F⦄ (sql : Sql F W) (laws : IsSqlite sql) where
  -- An item of a product of the tables: its identifier, which is that asked for, its name, the quantity,
  -- and its price, once and times the quantity.
  abbrev pub Shows : Text → ℕ → List (Product F) → CartItem F → Type 0
  Shows p n ps it =
      (x : Product F) × (find (λ (y : Product F). eq_text y.id p) ps ≡ some x)
      × (it.product_id ≡ p)
      × (it.name ≡ x.name)
      × (it.qty ≡ n)
      × (it.price ≡ x.price)
      × (it.line_total ≡ d.fmul x.price (d.of_nat n))

  -- What `AddToCart` does to tables `t`: nothing if it gives an error; else the session has `n` more of
  -- the product, and every other quantity and table stays.
  abbrev pub Added : Text → Text → ℕ → Tables F → GoError ⊎ CartItem F → W → Type 0
  Added s p n t (inl e) w = laws.view w ≡ t
  Added s p n t (inr it) w =
      (laws.view w ≡ record t { cart_items = (laws.view w).cart_items })
      × Shows p n t.products it
      × ((s' p' : Text)
          → quantity s' p' (laws.view w).cart_items
            ≡ quantity s' p' t.cart_items + (if same_key s p s' p' then n else 0))

  upserted :
      (s p : Text) (n : ℕ) (t u : Tables F)
      → upsert_cart s p n t ≡ some u
      → (u ≡ record t { cart_items = u.cart_items })
        × (u.cart_items ≡ upsert_row s p n t.cart_items)
  unfolding upsert_cart
  upserted s p n t u h = ground arith

  get_product-find :
      (id : Text) (store : Store W) (x : Product F)
      → get_product sql id store ≡ inr x
      → find (λ (y : Product F). eq_text y.id id) (laws.view store.db).products ≡ some x
  unfolding get_product find_product
  get_product-find id store x h = sym (
      laws.queried (find_product id) store.db (some x)
        (scan_row-some (sql.query (find_product id) store.db) x h))

  say_added-Added :
      (product : Product F) (s p : Text) (n : ℕ) (t : Tables F) (store : Store W)
      (r : Option GoError × W)
      → find (λ (y : Product F). eq_text y.id p) t.products ≡ some product
      → (r.0 ≡ none → upsert_cart s p n t ≡ some (laws.view r.1))
      → ((e : GoError) → r.0 ≡ some e → laws.view r.1 ≡ t)
      → let (made, s') = say_added sql product n store r in Added s p n t made s'.db
  unfolding say_added priced
  say_added-Added product s p n t store (some e, w) there ok bad = bad e refl
  say_added-Added product s p n t store (none, w) there ok bad =
      let (rest, rows) = upserted s p n t (laws.view w) (ok refl) in
      (
        rest,
        (
          product,
          there,
          (eq_text_iff product.id p).0 (find-passes _ t.products product there),
          refl,
          refl,
          refl,
          refl,
        ),
        λ s' p'. ap (quantity s' p') rows ∙ quantity-upsert_row s p s' p' n t.cart_items,
      )

  put_in_cart-Added :
      (found : GoError ⊎ Product F) (s p : Text) (n : ℕ) (store : Store W)
      → get_product sql p store ≡ found
      → let (made, s') = put_in_cart sql s p n found store in
        Added s p n (laws.view store.db) made s'.db
  unfolding put_in_cart
  put_in_cart-Added (inl e) s p n store is = refl
  put_in_cart-Added (inr product) s p n store is =
      say_added-Added product s p n (laws.view store.db) store
        (sql.exec (upsert_cart s p n) store.db) (get_product-find p store product is)
        (λ ok. (laws.exec_ok (upsert_cart s p n) store.db ok).0)
        (λ e bad. (laws.exec_bad (upsert_cart s p n) store.db e bad).0)

  -- `AddToCart` gives an error and leaves the tables as they were; or it gives an item of the product
  -- that was asked for, with its name and price in the tables, the quantity that was asked for and its
  -- line total, and then that session's cart has so many more of that
  -- product, while every other session and product keeps its quantity and every other table its rows.
  pub add_to_cart-Added :
      (session id : Text) (qty : ℕ) (s : Store W)
      → let (made, s') = add_to_cart sql session id qty s in
        Added session id qty (laws.view s.db) made s'.db
  unfolding add_to_cart
  add_to_cart-Added session id qty s =
      put_in_cart-Added (get_product sql id s) session id qty s refl

  items-IsPriced :
      (rows : List (CartRow × Product F)) → All (IsPriced sql) (map (cart_item sql) rows)
  unfolding priced
  items-IsPriced [] = tt
  items-IsPriced (row ∷ rows) = (refl, items-IsPriced rows)

  add_up-IsPriced :
      (w : W) (r : GoError ⊎ List (CartRow × Product F))
      → let (items, total) = add_up sql w r in
        All (IsPriced sql) items × (total ≡ sum_items sql (d.of_nat 0) items)
  unfolding add_up sum_items
  add_up-IsPriced w (inl e) = (tt, refl)
  add_up-IsPriced w (inr rows) =
      elim (Bool-cases (count_if (overflows sql) (sql.arrange w rows) == 0)) [
        | inl scanned ↦ rw scanned (items-IsPriced (sql.arrange w rows), refl)
        | inr large ↦ rw large (tt, refl)
      ]

  -- The items of `GetCart` have the store's line totals, and its total is their sum.
  pub get_cart-IsPriced :
      (session : Text) (s : Store W)
      → let (items, total) = get_cart sql session s in
        All (IsPriced sql) items × (total ≡ sum_items sql (d.of_nat 0) items)
  unfolding get_cart
  get_cart-IsPriced session s = add_up-IsPriced s.db (sql.query (select_cart session) s.db)
