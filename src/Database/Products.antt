-- ===== src/Database/Products.antt =====
-- src/db_service.c: the names of the products, which are read into a map.
use tcp_proxy.Prelude.{ℕ, ◌≡◌, refl, Option, some, List, [], ◌∷◌, if◌then◌else◌}
use tcp_proxy.HashMap.{HashMap, same_key, get_by_key}
use tcp_proxy.HashMap.Lookup.{IsAscii, Holds, assign, overwrite_put-Holds, get_by_key-Holds}
use tcp_proxy.Database.Names.{
  Product, allocate_product_name_key, product_names_callback, read_rows, get_product_name,
}

-- The name in the last row with a key, or what was there before.
abbrev pub name_of : Option (List ℕ) → List ℕ → List Product → Option (List ℕ)
name_of before key [] = before
name_of before key (p ∷ rows) =
    name_of
      (if same_key key (allocate_product_name_key p.app_id p.kms_id)
        then some p.product_name
        else before)
      key rows

-- The keys of the rows have ASCII characters only.
abbrev pub AsciiKeys : List Product → Type 0
AsciiKeys [] = Unit
AsciiKeys (p ∷ rows) = IsAscii (allocate_product_name_key p.app_id p.kms_id) × AsciiKeys rows

callback-Holds :
    (p : Product) (names : HashMap (List ℕ)) (entries : List ℕ → Option (List ℕ))
    → Holds names entries
    → IsAscii (allocate_product_name_key p.app_id p.kms_id)
    → (names' : HashMap (List ℕ)) × (product_names_callback p names ≡ some names')
      × Holds names' (assign entries (allocate_product_name_key p.app_id p.kms_id) p.product_name)
unfolding product_names_callback
callback-Holds p names entries h ascii =
    let (names', e, h') =
      overwrite_put-Holds names entries (allocate_product_name_key p.app_id p.kms_id) p.product_name
        h ascii in
    (names', rw (product_names_callback, e) refl, h')

read_rows-name_of :
    (rows : List Product) (names : HashMap (List ℕ)) (entries : List ℕ → Option (List ℕ))
    (key : List ℕ)
    → Holds names entries
    → AsciiKeys rows
    → IsAscii key
    → (names' : HashMap (List ℕ)) × (read_rows rows names ≡ some names')
      × (get_by_key names' key ≡ some (name_of (entries key) key rows))
unfolding read_rows assign
read_rows-name_of [] names entries key h rows' ascii =
    (names, refl, get_by_key-Holds names entries key h ascii)
read_rows-name_of (p ∷ rows) names entries key h rows' ascii =
    let (between, e, h') = callback-Holds p names entries h rows'.0 in
    let (names', e', found) =
      read_rows-name_of rows between
        (assign entries (allocate_product_name_key p.app_id p.kms_id) p.product_name) key h' rows'.1
        ascii in
    (names', rw (read_rows, e) e', found)

-- On a map with a bucket for every ASCII key that holds some entries, reading rows of products with
-- ASCII keys succeeds, and for two identities with an ASCII key `get_product_name` then answers the
-- name in the last row whose two identities give the same key, or the earlier entry of that key if
-- there is no such row.
pub get_product_name-read_rows :
    (rows : List Product) (names : HashMap (List ℕ)) (entries : List ℕ → Option (List ℕ))
    (app_id kms_id : List ℕ)
    → Holds names entries
    → AsciiKeys rows
    → IsAscii (allocate_product_name_key app_id kms_id)
    → (names' : HashMap (List ℕ)) × (read_rows rows names ≡ some names')
      × (get_product_name names' app_id kms_id
          ≡ some (
              name_of
                (entries (allocate_product_name_key app_id kms_id))
                (allocate_product_name_key app_id kms_id)
                rows))
unfolding get_product_name
get_product_name-read_rows rows names entries app_id kms_id h rows' ascii =
    read_rows-name_of rows names entries (allocate_product_name_key app_id kms_id) h rows' ascii
