-- ===== src/Database/Names.antt =====
-- src/db_service.c: the names of the products.
use tcp_proxy.Prelude.{ℕ, true, Option, none, some, List, [], ◌∷◌, ◌++◌}
use tcp_proxy.HashMap.{HashMap, overwrite_put, get_by_key}
use tcp_proxy.Database.{Driver, Executed, Service, executed, sql_all_product_names, statement_for}

-- The product names.
unfoldable pub allocate_product_name_key : List ℕ → List ℕ → List ℕ
allocate_product_name_key app_id kms_id = app_id ++ (45 ∷ kms_id)

-- A row with the name of a product.
pub record Product : Type 0 where
  pub app_id : List ℕ
  pub kms_id : List ℕ
  pub product_name : List ℕ

unfoldable pub product_names_callback : Product → HashMap (List ℕ) → Option (HashMap (List ℕ))
unfolding allocate_product_name_key overwrite_put
product_names_callback p names =
    elim (overwrite_put names true (allocate_product_name_key p.app_id p.kms_id) p.product_name) [
      | none ↦ none
      | some (names', origin) ↦ some names'
    ]

-- The loop over the rows.
unfoldable pub read_rows : List Product → HashMap (List ℕ) → Option (HashMap (List ℕ))
unfolding product_names_callback
read_rows [] names = some names
read_rows (p ∷ rows) names = elim (product_names_callback p names) [
  | none ↦ none
  | some names' ↦ read_rows rows names'
]

-- `rows` is the result of the query; no result is one without rows.
unfoldable pub reload_product_names :
    Driver
    → List Product
    → Service
    → HashMap (List ℕ)
    → Service × List Executed × Option (HashMap (List ℕ))
unfolding statement_for executed read_rows
reload_product_names d rows s names =
    let (s', stmt) = statement_for d sql_all_product_names s in
    (s', executed s' stmt [], elim stmt [ none ↦ some names | some k ↦ read_rows rows names ])

unfoldable pub get_product_name : HashMap (List ℕ) → List ℕ → List ℕ → Option (Option (List ℕ))
unfolding allocate_product_name_key get_by_key
get_product_name names app_id kms_id = get_by_key names (allocate_product_name_key app_id kms_id)
