-- ===== src/Database/Tests.antt =====
-- src/db_service.c: a server that refuses twice, and one that is not enabled.
use tcp_proxy.Prelude.{
  ℕ, ◌+◌, ◌≤◌, ◌<◌, ◌≡◌, refl, Bool, true, false, Option, none, some, List, [], ◌∷◌, arith, ltb,
}
use tcp_proxy.Prelude.Int.{ℤ, pos}
use tcp_proxy.HashMap.{HashMap, new_hash_map}
use tcp_proxy.HashMap.Lookup.{IsAscii, new_hash_map-Holds}
use tcp_proxy.Database.{
  retrieve_statement, sql_check_available, Driver, Link, Service, create_statement, statement_for,
  sql_check_vip, Param,
}
use tcp_proxy.Database.Operations.{
  check_available, failed, Query, KmsDetails, connection_close, connection_established,
  connection_not_allowed, check_vip, connection_blacklisted, add_ip_to_auto_blacklist,
  add_kms_details, update_machine_owner, fail_guessing,
}
use tcp_proxy.Database.Closing.{new_database_service, close_idle}
use tcp_proxy.Database.Names.{
  Product, reload_product_names, read_rows, get_product_name, allocate_product_name_key,
}
use tcp_proxy.Database.Retries.{create_statement-calls, create_statement-some}
use tcp_proxy.Database.Sessions.{
  new_database_service-AllCurrent, AllCurrent, none_left, operation, idle_check,
  statement_for-Current,
}
use tcp_proxy.Database.Stale.{AllEarlier, check_available-AllEarlier}
use tcp_proxy.Database.Disabled.{used_at, operations_disabled}
use tcp_proxy.Database.Products.{name_of, get_product_name-read_rows}

-- The server accepts every connection; `refusing` refuses the first two statements.
abbrev refusing : Driver
refusing = record { connects = λ n. true; creates = λ n. ltb 1 n; clock = λ n. n }

abbrev serving : Driver
serving = record { connects = λ n. true; creates = λ n. true; clock = λ n. n }

abbrev fresh_link : Link
fresh_link = record {
  enabled = true;
  connected = false;
  connection_time = 0;
  recent_use_time = 0;
  session = 0;
  connect_calls = 0;
  create_calls = 0;
  clock_calls = 0;
}

-- Every row has a query.
abbrev service : Service
service = new_database_service (pos 1) (λ i. some (81 ∷ []))

abbrev disabled : Service
disabled = new_database_service (pos 0) (λ i. some (81 ∷ []))

create_statement-calls_example :
    ((create_statement refusing fresh_link).0.connect_calls ≤ 1260 + fresh_link.connect_calls)
    × ((create_statement refusing fresh_link).0.create_calls ≤ 60 + fresh_link.create_calls)
create_statement-calls_example = create_statement-calls refusing fresh_link

create_statement-some_example :
    (create_statement refusing fresh_link).1 ≡ some (create_statement refusing fresh_link).0.session
create_statement-some_example = create_statement-some refusing fresh_link 2 (omega arith) refl

statement_for-Current_example :
    1
    ≡ (statement_for serving sql_check_vip
        (close_idle 400000000 (statement_for serving sql_check_vip service).0)).0.link.session
unfolding statement_for close_idle new_database_service
statement_for-Current_example =
    statement_for-Current serving service
      (close_idle 400000000 (statement_for serving sql_check_vip service).0) sql_check_vip 1
      (λ n. refl) (new_database_service-AllCurrent (pos 1) (λ i. some (81 ∷ [])))
      (operation sql_check_vip (idle_check 400000000 none_left)) refl

current : AllCurrent (statement_for serving sql_check_available service).0
unfolding AllCurrent statement_for new_database_service
current = (refl, (tt, (tt, (tt, (tt, (tt, (tt, (tt, (tt, (tt, (tt, (tt, (tt, (tt, tt))))))))))))))

check_available-AllEarlier_example :
    ((check_available serving (49 ∷ []) failed service).0.stmt_holder
      ≡ (statement_for serving sql_check_available service).0.stmt_holder)
    × AllEarlier (check_available serving (49 ∷ []) failed service).0
    × (0 < (check_available serving (49 ∷ []) failed service).0.link.session)
    × ((retrieve_statement serving sql_check_available
          (check_available serving (49 ∷ []) failed service).0).1
        ≡ some 0)
unfolding statement_for new_database_service
check_available-AllEarlier_example =
    check_available-AllEarlier serving service (49 ∷ []) 0 current refl

operations_disabled_example :
    ((remote_ip : List ℕ) (answer : Query)
      → check_available serving remote_ip answer disabled ≡ (used_at serving disabled, [], none))
    × ((sn count : ℤ) (bytes : ℕ) (idle : Bool)
        → connection_close serving sn bytes count idle disabled ≡ (used_at serving disabled, []))
    × ((sn : ℤ) (account ipaddr : Option (List ℕ)) (id : Option ℤ)
        → connection_established serving sn account ipaddr id disabled
          ≡ (used_at serving disabled, [], pos 0))
    × ((ipaddr : List ℕ)
        → connection_not_allowed serving ipaddr disabled ≡ (used_at serving disabled, []))
    × ((ipaddr : List ℕ) (rows : ℤ)
        → check_vip serving ipaddr rows disabled ≡ (used_at serving disabled, [], pos 0))
    × ((ipaddr : List ℕ) (rows : ℤ)
        → connection_blacklisted serving ipaddr rows disabled
          ≡ (used_at serving disabled, [], pos 0))
    × ((ipaddr : List ℕ) (rows : ℤ)
        → add_ip_to_auto_blacklist serving ipaddr rows disabled
          ≡ (used_at serving disabled, [], pos 0))
    × ((k : KmsDetails) (rows : ℤ)
        → add_kms_details serving k rows disabled ≡ (used_at serving disabled, [], pos 0))
    × ((account : Option (List ℕ)) (remote_ip client_machine_id : List ℕ) (rows : ℤ)
        → update_machine_owner serving account remote_ip client_machine_id rows disabled
          ≡ (used_at serving disabled, [], pos 0))
    × ((ip_address : List ℕ) (rows : List (Option ℤ))
        → fail_guessing serving ip_address rows disabled ≡ (used_at serving disabled, [], false))
    × ((rows : List Product) (names : HashMap (List ℕ))
        → reload_product_names serving rows disabled names
          ≡ (used_at serving disabled, [], some names))
unfolding new_database_service
operations_disabled_example = operations_disabled serving disabled refl refl

abbrev no_names : HashMap (List ℕ)
no_names = new_hash_map 53 none

abbrev product : Product
product = record { app_id = 97 ∷ []; kms_id = 98 ∷ []; product_name = 99 ∷ [] }

allocate_product_name_key-IsAscii : IsAscii (allocate_product_name_key (97 ∷ []) (98 ∷ []))
unfolding allocate_product_name_key
allocate_product_name_key-IsAscii = ground arith

get_product_name-read_rows_example :
    (names' : HashMap (List ℕ)) × (read_rows (product ∷ []) no_names ≡ some names')
    × (get_product_name names' (97 ∷ []) (98 ∷ [])
        ≡ some (name_of none (allocate_product_name_key (97 ∷ []) (98 ∷ [])) (product ∷ [])))
get_product_name-read_rows_example =
    get_product_name-read_rows (product ∷ []) no_names (λ k. none) (97 ∷ []) (98 ∷ [])
      (new_hash_map-Holds 53 (omega arith)) (allocate_product_name_key-IsAscii, tt)
      allocate_product_name_key-IsAscii

-- The statement of `check_available` after its query has failed once is that of the lost connection.
stale :
    (check_available serving
      (49 ∷ [])
      failed
      (check_available serving (49 ∷ []) failed service).0).1
    ≡ record { statement = 0; on_session = 1; params = Param.string_param (49 ∷ []) ∷ [] } ∷ []
unfolding check_available new_database_service
stale = refl
