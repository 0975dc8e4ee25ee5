-- ===== src/Database/Closing.antt =====
-- src/db_service.c: the closing of the connection, and the service as it starts.
use tcp_proxy.Prelude.{
  ℕ, ◌+◌, ◌*◌, Bool, false, ◌&&◌, not, Option, none, some, List, [], ◌∷◌, map, ltb, ◌==◌,
  if◌then◌else◌,
}
use tcp_proxy.Prelude.Int.{ℤ, pos, eqb_ℤ}
use tcp_proxy.Database.{
  Holder, Service, database_timeout, disconnect, sql_add_details, sql_add_machine_owner,
  sql_add_to_blacklist, sql_all_product_names, sql_blacklist, sql_call_failure_guessing,
  sql_check_available, sql_check_vip, sql_connection_begin, sql_connection_close,
  sql_connection_established, sql_connection_not_allowed, sql_last_insert_id,
  sql_update_machine_access,
}

unfoldable pub close_statement : Holder → Holder
close_statement h = record h { stmt = none }

unfoldable pub close_all_statements : Service → Service
unfolding close_statement
close_all_statements s = record s { stmt_holder = map close_statement s.stmt_holder }

-- The connection is given up.
unfoldable pub give_up : Service → Service
unfolding close_all_statements disconnect
give_up s = record (close_all_statements s) { link = disconnect s.link }

unfoldable pub close_idle : ℕ → Service → Service
unfolding give_up
close_idle tv s =
    if s.link.connected && ltb (s.link.recent_use_time + database_timeout) tv then give_up s else s

-- `max` is `max_connection_time` in seconds, read from the configuration by the first call, and `tv`
-- the time.
unfoldable pub db_service_done : ℕ → ℕ → Service → Service
unfolding give_up
db_service_done max tv s =
    if s.link.connected && ltb (s.link.connection_time + max * 1000000) tv then give_up s else s

-- The text "SELECT LAST_INSERT_ID()".
abbrev pub last_insert_id_query : List ℕ
last_insert_id_query =
    83 ∷ 69 ∷ 76 ∷ 69 ∷ 67 ∷ 84 ∷ 32 ∷ 76 ∷ 65 ∷ 83 ∷ 84 ∷ 95 ∷ 73 ∷ 78 ∷ 83 ∷ 69 ∷ 82 ∷ 84 ∷ 95
    ∷ 73 ∷ 68 ∷ 40 ∷ 41 ∷ []

-- A row of the table before any query is prepared. `queries` gives what the configuration has under
-- the `query_name` of a row; it is read only if the database is enabled.
unfoldable pub new_holder : Bool → (ℕ → Option (List ℕ)) → ℕ → Holder
new_holder enabled queries i = record {
  index = i;
  query =
      if i == sql_last_insert_id
      then some last_insert_id_query
      else if enabled
      then queries i
      else none;
  stmt = none;
}

-- The indices of the rows, in their order.
abbrev pub stmt_indices : List ℕ
stmt_indices =
    sql_check_available ∷ sql_connection_close ∷ sql_last_insert_id ∷ sql_connection_not_allowed
    ∷ sql_check_vip ∷ sql_connection_established ∷ sql_connection_begin ∷ sql_blacklist
    ∷ sql_add_to_blacklist ∷ sql_add_details ∷ sql_add_machine_owner ∷ sql_update_machine_access
    ∷ sql_call_failure_guessing ∷ sql_all_product_names ∷ []

-- `enable` is the setting "enable-database".
unfoldable pub new_database_service : ℤ → (ℕ → Option (List ℕ)) → Service
unfolding new_holder
new_database_service enable queries =
    let enabled = not (eqb_ℤ enable (pos 0)) in
    record {
      link = record {
        enabled = enabled;
        connected = false;
        connection_time = 0;
        recent_use_time = 0;
        session = 0;
        connect_calls = 0;
        create_calls = 0;
        clock_calls = 0;
      };
      stmt_holder = map (new_holder enabled queries) stmt_indices;
    }
