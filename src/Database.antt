-- ===== src/Database.antt =====
-- src/db_service.c: the connection to the database with its retries, and the prepared statements. The
-- driver (src/db_mysql.c) stands for the server: what it answers to the n-th call, and what a query
-- returns, are arguments. Times are in microseconds. A mutex makes what it guards one step; log
-- messages are left out.
pub mod Retries
pub mod Sessions
pub mod Stale
pub mod Disabled
pub mod Products
mod Tests
pub mod Names
pub mod Closing
pub mod Operations
use tcp_proxy.Prelude.{
  ℕ, zero, suc, ◌+◌, ◌*◌, ◌≡◌, Bool, true, false, ◌&&◌, not, Option, none, some, List, [], ◌∷◌,
  ◌++◌, map, arith, ltb, ◌==◌, if◌then◌else◌,
}
use tcp_proxy.Prelude.Int.{ℤ, pos, negsuc, ltb_ℤ, eqb_ℤ}
use tcp_proxy.Blacklist.{to_int}
use tcp_proxy.HashMap.{HashMap, overwrite_put, get_by_key}

-- What the n-th call of `connect` answers, whether the n-th one of `createStatement` returns a
-- statement, and what the n-th reading of the clock gives.
pub record Driver : Type 0 where
  pub connects : ℕ → Bool
  pub creates : ℕ → Bool
  pub clock : ℕ → ℕ

-- The variables of the connection. `session` counts the calls of `disconnect`; the last three fields
-- count the calls of the driver and of the clock.
pub record Link : Type 0 where
  pub enabled : Bool
  pub connected : Bool
  pub connection_time : ℕ
  pub recent_use_time : ℕ
  pub session : ℕ
  pub connect_calls : ℕ
  pub create_calls : ℕ
  pub clock_calls : ℕ

-- A row of `stmt_holder`; a statement is the session it was created in.
pub record Holder : Type 0 where
  pub index : ℕ
  pub query : Option (List ℕ)
  pub stmt : Option ℕ

pub record Service : Type 0 where
  pub link : Link
  pub stmt_holder : List Holder

-- `query_name_enum`
abbrev pub sql_check_available : ℕ
sql_check_available = 1

abbrev pub sql_connection_close : ℕ
sql_connection_close = 2

abbrev pub sql_last_insert_id : ℕ
sql_last_insert_id = 3

abbrev pub sql_connection_not_allowed : ℕ
sql_connection_not_allowed = 4

abbrev pub sql_check_vip : ℕ
sql_check_vip = 5

abbrev pub sql_connection_established : ℕ
sql_connection_established = 6

abbrev pub sql_connection_begin : ℕ
sql_connection_begin = 7

abbrev pub sql_blacklist : ℕ
sql_blacklist = 8

abbrev pub sql_add_to_blacklist : ℕ
sql_add_to_blacklist = 9

abbrev pub sql_add_details : ℕ
sql_add_details = 10

abbrev pub sql_add_machine_owner : ℕ
sql_add_machine_owner = 11

abbrev pub sql_update_machine_access : ℕ
sql_update_machine_access = 12

abbrev pub sql_call_failure_guessing : ℕ
sql_call_failure_guessing = 13

abbrev pub sql_all_product_names : ℕ
sql_all_product_names = 14

-- `database_timeout`, 300 seconds
abbrev pub database_timeout : ℕ
database_timeout = 300000000

-- `if (db->connect (db_data))`
unfoldable pub try_connect : Driver → Link → Link
try_connect d l =
    if d.connects l.connect_calls
    then record l {
      connected = true;
      connection_time = d.clock l.clock_calls;
      connect_calls = suc l.connect_calls;
      clock_calls = suc l.clock_calls;
    }
    else record l { connect_calls = suc l.connect_calls }

-- `gettimeofday (&recent_use_time, NULL)`
unfoldable pub touch : Driver → Link → Link
touch d l = record l { recent_use_time = d.clock l.clock_calls; clock_calls = suc l.clock_calls }

-- What it returns is `connected` of the result.
unfoldable pub connect_to_database : Driver → Link → Link
unfolding try_connect touch
connect_to_database d l = touch d (if l.enabled && not l.connected then try_connect d l else l)

-- `db->disconnect (db_data); connected = false`
unfoldable pub disconnect : Link → Link
disconnect l = record l { connected = false; session = suc l.session }

unfoldable pub reconnect_to_database : Driver → Link → Link
unfolding connect_to_database disconnect
reconnect_to_database d l = connect_to_database d (disconnect l)

-- The loop, with `n` attempts left.
unfoldable pub safe_reconnect_from : ℕ → Driver → Link → Link
unfolding reconnect_to_database
safe_reconnect_from zero d l = l
safe_reconnect_from (suc n) d l =
    let l' = reconnect_to_database d l in
    let rest = safe_reconnect_from n d l' in if l'.connected then l' else rest

-- `counter` exceeds 20 with the 21st failure.
unfoldable pub safe_reconnect_to_database : Driver → Link → Link
unfolding safe_reconnect_from
safe_reconnect_to_database d l = safe_reconnect_from 21 d l

-- The handler of `try_catch` ends the process; that path is left out.
unfoldable pub try_reconnect : Driver → Link → Link
unfolding safe_reconnect_to_database
try_reconnect d l = safe_reconnect_to_database d l

-- The loop, with `n` attempts left.
unfoldable pub create_from : ℕ → Driver → Link → Link × Option ℕ
unfolding try_reconnect
create_from zero d l = (l, none)
create_from (suc n) d l =
    let l' : Link = record l { create_calls = suc l.create_calls } in
    let rest = create_from n d (try_reconnect d l') in
    if d.creates l.create_calls then (l', some l.session) else rest

unfoldable pub create_statement : Driver → Link → Link × Option ℕ
unfolding create_from
create_statement d l = create_from 60 d l

-- The row that is found, with its statement created if it has none and there is a query. The first two
-- arguments after the driver are its statement and its query.
unfoldable pub prepare_as : Driver → Option ℕ → Option (List ℕ) → Holder → Link → Holder × Link
unfolding create_statement
prepare_as d (some k) query h l = (h, l)
prepare_as d none none h l = (h, l)
prepare_as d none (some query) h l =
    let (l', stmt) = create_statement d l in (record h { stmt = stmt }, l')

unfoldable pub prepare : Driver → Holder → Link → Holder × Link
unfolding prepare_as
prepare d h l = prepare_as d h.stmt h.query h l

-- The statement of the row with that index, and the table after it.
unfoldable pub retrieve_from : Driver → ℕ → List Holder → Link → List Holder × Link × Option ℕ
unfolding prepare
retrieve_from d name [] l = ([], l, none)
retrieve_from d name (h ∷ holders) l =
    let (h', l') = prepare d h l in
    let (holders', l'', stmt) = retrieve_from d name holders l in
    if h.index == name then (h' ∷ holders, l', h'.stmt) else (h ∷ holders', l'', stmt)

unfoldable pub retrieve_statement : Driver → ℕ → Service → Service × Option ℕ
unfolding retrieve_from
retrieve_statement d name s =
    let (holders, l, stmt) = retrieve_from d name s.stmt_holder s.link in
    (record { link = l; stmt_holder = holders }, stmt)

-- The beginning of every operation: the statement, if there is a connection and one can be had.
unfoldable pub statement_for : Driver → ℕ → Service → Service × Option ℕ
unfolding connect_to_database retrieve_statement
statement_for d name s =
    let s' : Service = record s { link = connect_to_database d s.link } in
    if s'.link.connected then retrieve_statement d name s' else (s', none)

-- A call of a setter. `null_param` is `setString` with NULL, which the driver takes the length of.
pub data Param : Type 0 where
  int_param : ℤ → Param
  string_param : List ℕ → Param
  null_param : Param

-- A statement, the session of the connection it is executed on, and its parameters, which are cleared
-- when the statement is retrieved.
pub record Executed : Type 0 where
  pub statement : ℕ
  pub on_session : ℕ
  pub params : List Param

-- The execution of a statement that is there.
unfoldable pub executed : Service → Option ℕ → List Param → List Executed
executed s none params = []
executed s (some k) params =
    record { statement = k; on_session = s.link.session; params = params } ∷ []

-- An operation that executes one statement. `rows` is what `executeUpdate` returns.
unfoldable pub update_rows : Driver → ℕ → List Param → ℤ → Service → Service × List Executed × ℤ
unfolding statement_for executed
update_rows d name params rows s =
    let (s', stmt) = statement_for d name s in
    (s', executed s' stmt params, elim stmt [ none ↦ pos 0 | some k ↦ rows ])
