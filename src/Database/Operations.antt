-- ===== src/Database/Operations.antt =====
-- src/db_service.c: the operations that the other parts call.
use tcp_proxy.Prelude.{ℕ, Bool, false, Option, none, some, List, [], ◌∷◌, ◌++◌, if◌then◌else◌}
use tcp_proxy.Prelude.Int.{ℤ, pos, ltb_ℤ}
use tcp_proxy.Blacklist.{to_int}
use tcp_proxy.Database.{
  Driver, Executed, Param, Service, executed, int_param, null_param, retrieve_statement,
  sql_add_details, sql_add_machine_owner, sql_add_to_blacklist, sql_blacklist,
  sql_call_failure_guessing, sql_check_available, sql_check_vip, sql_connection_begin,
  sql_connection_close, sql_connection_established, sql_connection_not_allowed, sql_last_insert_id,
  sql_update_machine_access, statement_for, string_param, try_reconnect, update_rows,
}

-- `struct db_proxy_request_t`; `none` is NULL.
pub record DbRequest : Type 0 where
  pub sn : ℤ
  pub account : Option (List ℕ)
  pub channel : ℤ

-- What `executeQuery` returns: no result, or its first row, if any, and whether `next` sets an error.
pub data Query : Type 0 where
  failed : Query
  result : Option DbRequest → Bool → Query

-- What becomes of the result.
unfoldable pub read_request : Driver → Query → Service → Service × Option DbRequest
unfolding try_reconnect
read_request d failed s = (record s { link = try_reconnect d s.link }, none)
read_request d (result row error) s =
    (if error then record s { link = try_reconnect d s.link } else s, row)

unfoldable pub check_available :
    Driver → List ℕ → Query → Service → Service × List Executed × Option DbRequest
unfolding statement_for executed read_request
check_available d remote_ip answer s =
    let (s', stmt) = statement_for d sql_check_available s in
    let (s'', request) = read_request d answer s' in
    let sent = executed s' stmt (string_param remote_ip ∷ []) in
    elim stmt [ none ↦ (s', sent, none) | some k ↦ (s'', sent, request) ]

-- The texts "timeout" and "normal".
abbrev pub timeout_text : List ℕ
timeout_text = 116 ∷ 105 ∷ 109 ∷ 101 ∷ 111 ∷ 117 ∷ 116 ∷ []

abbrev pub normal_text : List ℕ
normal_text = 110 ∷ 111 ∷ 114 ∷ 109 ∷ 97 ∷ 108 ∷ []

-- `setInt` takes an `int`: the number of bytes is narrowed.
unfoldable pub connection_close : Driver → ℤ → ℕ → ℤ → Bool → Service → Service × List Executed
unfolding update_rows
connection_close d sn bytes count idle s =
    let (s', sent, rows) =
      update_rows d sql_connection_close
        (int_param (to_int bytes)
          ∷ int_param count
          ∷ string_param (if idle then timeout_text else normal_text)
          ∷ int_param sn
          ∷ [])
        (pos 0) s in
    (s', sent)

-- A text, or the empty one for NULL.
abbrev pub or_empty : Option (List ℕ) → List ℕ
or_empty none = []
or_empty (some t) = t

-- The query for the identity; `id` is its row, if there is one.
unfoldable pub last_insert_id : Driver → Option ℤ → Service → Service × List Executed × ℤ
unfolding statement_for executed
last_insert_id d id s =
    let (s', stmt) = retrieve_statement d sql_last_insert_id s in
    (
      s',
      executed s' stmt [],
      elim stmt [ none ↦ pos 0 | some k ↦ elim id [ none ↦ pos 0 | some n ↦ n ] ],
    )

unfoldable pub connection_begin :
    Driver → Option (List ℕ) → Option (List ℕ) → Option ℤ → Service → Service × List Executed × ℤ
unfolding last_insert_id
connection_begin d account ipaddr id s =
    let (s', stmt) = retrieve_statement d sql_connection_begin s in
    let sent =
      executed s' stmt (string_param (or_empty ipaddr) ∷ string_param (or_empty account) ∷ []) in
    let (s'', more, n) = last_insert_id d id s' in
    elim stmt [ none ↦ (s', sent, pos 0) | some k ↦ (s'', sent ++ more, n) ]

unfoldable pub connection_established :
    Driver
    → ℤ
    → Option (List ℕ)
    → Option (List ℕ)
    → Option ℤ
    → Service
    → Service × List Executed × ℤ
unfolding connection_begin
connection_established d sn account ipaddr id s =
    let (s', stmt) = statement_for d sql_connection_established s in
    let sent = executed s' stmt (int_param sn ∷ []) in
    let (s'', more, n) = connection_begin d account ipaddr id s' in
    elim stmt [ none ↦ (s', sent, pos 0) | some k ↦ (s'', sent ++ more, n) ]

unfoldable pub connection_not_allowed : Driver → List ℕ → Service → Service × List Executed
unfolding update_rows
connection_not_allowed d ipaddr s =
    let (s', sent, rows) =
      update_rows d sql_connection_not_allowed (string_param ipaddr ∷ []) (pos 0) s in
    (s', sent)

unfoldable pub check_vip : Driver → List ℕ → ℤ → Service → Service × List Executed × ℤ
unfolding update_rows
check_vip d ipaddr rows s = update_rows d sql_check_vip (string_param ipaddr ∷ []) rows s

unfoldable pub connection_blacklisted : Driver → List ℕ → ℤ → Service → Service × List Executed × ℤ
unfolding update_rows
connection_blacklisted d ipaddr rows s =
    update_rows d sql_blacklist (string_param ipaddr ∷ []) rows s

unfoldable pub add_ip_to_auto_blacklist :
    Driver → List ℕ → ℤ → Service → Service × List Executed × ℤ
unfolding update_rows
add_ip_to_auto_blacklist d ipaddr rows s =
    update_rows d sql_add_to_blacklist (string_param ipaddr ∷ []) rows s

-- What the analyzer reports of a client. `request_in_db` is the account in the request of the
-- connection, if it has one.
pub record KmsDetails : Type 0 where
  pub request_in_db : Option (Option (List ℕ))
  pub remote_ip : List ℕ
  pub workstation : List ℕ
  pub major_version : ℤ
  pub minor_version : ℤ
  pub app_id : List ℕ
  pub kms_id : List ℕ
  pub client_machine_id : List ℕ
  pub remaining_min : ℤ

unfoldable pub account_param : Option (Option (List ℕ)) → Param
account_param none = string_param []
account_param (some none) = null_param
account_param (some (some account)) = string_param account

unfoldable pub add_kms_details : Driver → KmsDetails → ℤ → Service → Service × List Executed × ℤ
unfolding update_rows account_param
add_kms_details d k rows s =
    update_rows d sql_add_details
      (account_param k.request_in_db
        ∷ string_param k.remote_ip
        ∷ string_param k.workstation
        ∷ int_param k.major_version
        ∷ int_param k.minor_version
        ∷ string_param k.app_id
        ∷ string_param k.kms_id
        ∷ string_param k.client_machine_id
        ∷ int_param k.remaining_min
        ∷ [])
      rows s

unfoldable pub update_machine_owner :
    Driver → Option (List ℕ) → List ℕ → List ℕ → ℤ → Service → Service × List Executed × ℤ
unfolding update_rows
update_machine_owner d account remote_ip client_machine_id rows s = elim account [
  | none ↦
      update_rows d sql_update_machine_access
        (string_param client_machine_id
          ∷ string_param []
          ∷ string_param remote_ip
          ∷ string_param remote_ip
          ∷ [])
        rows s
  | some a ↦
      update_rows d sql_add_machine_owner
        (string_param client_machine_id
          ∷ string_param a
          ∷ string_param remote_ip
          ∷ string_param remote_ip
          ∷ string_param a
          ∷ [])
        rows s
]

-- `row` is the number in the first row of a result, if it has one.
unfoldable pub fail_guessing_handler : Option ℤ → Bool
fail_guessing_handler row = ltb_ℤ (pos 5) (elim row [ none ↦ pos 0 | some n ↦ n ])

-- `executeMultipleQuery` calls the handler for each result; the last call decides.
unfoldable pub guessing_from : Bool → List (Option ℤ) → Bool
unfolding fail_guessing_handler
guessing_from answer [] = answer
guessing_from answer (row ∷ rows) = guessing_from (fail_guessing_handler row) rows

unfoldable pub fail_guessing :
    Driver → List ℕ → List (Option ℤ) → Service → Service × List Executed × Bool
unfolding statement_for executed guessing_from
fail_guessing d ip_address rows s =
    let (s', stmt) = statement_for d sql_call_failure_guessing s in
    (
      s',
      executed s' stmt (string_param ip_address ∷ []),
      elim stmt [ none ↦ false | some k ↦ guessing_from false rows ],
    )
