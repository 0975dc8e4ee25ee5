-- ===== src/Database/Disabled.antt =====
-- src/db_service.c: the operations where the configuration does not enable the database.
use tcp_proxy.Prelude.{
  ℕ, ◌≡◌, refl, ap, ◌∙◌, Bool, false, ◌&&◌, not, Option, none, some, List, [], if◌then◌else◌,
}
use tcp_proxy.Prelude.Int.{ℤ, pos}
use tcp_proxy.HashMap.{HashMap}
use tcp_proxy.Database.{
  Driver, Service, touch, try_connect, retrieve_statement, connect_to_database, statement_for,
  update_rows, Param, sql_check_available, sql_connection_established,
}
use tcp_proxy.Database.Operations.{
  Query, KmsDetails, check_available, connection_close, connection_established,
  connection_not_allowed, check_vip, connection_blacklisted, add_ip_to_auto_blacklist,
  add_kms_details, update_machine_owner, fail_guessing,
}
use tcp_proxy.Database.Names.{Product, reload_product_names}

-- All that an operation changes is the time of the recent use.
abbrev pub used_at : Driver → Service → Service
used_at d s = record s { link = touch d s.link }

module _ (d : Driver) (s : Service) (off : s.link.enabled ≡ false)
    (down : s.link.connected ≡ false) where
  abbrev used : Service
  used = used_at d s

  connect_disabled : connect_to_database d s.link ≡ touch d s.link
  unfolding connect_to_database
  connect_disabled =
      ap (λ b. touch d (if b && not s.link.connected then try_connect d s.link else s.link)) off

  statement_for_disabled : (name : ℕ) → statement_for d name s ≡ (used, none)
  unfolding statement_for touch
  statement_for_disabled name =
      ap
        (λ l.
          let s' : Service = record s { link = l } in
          if l.connected then retrieve_statement d name s' else (s', none))
        connect_disabled
      ∙ ap (λ b. if b then retrieve_statement d name used else (used, none)) down

  update_rows_disabled :
      (name : ℕ) (params : List Param) (rows : ℤ)
      → update_rows d name params rows s ≡ (used, [], pos 0)
  unfolding update_rows
  update_rows_disabled name params rows = rw (update_rows, statement_for_disabled name) refl

  check_available_disabled :
      (remote_ip : List ℕ) (answer : Query)
      → check_available d remote_ip answer s ≡ (used, [], none)
  unfolding check_available
  check_available_disabled remote_ip answer =
      let h = statement_for_disabled sql_check_available in
      rw (check_available, ap (λ r. r.1) h, ap (λ r. r.0) h, ap (λ r. r.1) h) refl

  connection_close_disabled :
      (sn count : ℤ) (bytes : ℕ) (idle : Bool)
      → connection_close d sn bytes count idle s ≡ (used, [])
  unfolding connection_close
  connection_close_disabled sn count bytes idle =
      ap (λ r. (r.0, r.1)) (update_rows_disabled 2 _ (pos 0))

  connection_established_disabled :
      (sn : ℤ) (account ipaddr : Option (List ℕ)) (id : Option ℤ)
      → connection_established d sn account ipaddr id s ≡ (used, [], pos 0)
  unfolding connection_established
  connection_established_disabled sn account ipaddr id =
      let h = statement_for_disabled sql_connection_established in
      rw (connection_established, ap (λ r. r.1) h, ap (λ r. r.0) h, ap (λ r. r.1) h) refl

  fail_guessing_disabled :
      (ip_address : List ℕ) (rows : List (Option ℤ))
      → fail_guessing d ip_address rows s ≡ (used, [], false)
  unfolding fail_guessing
  fail_guessing_disabled ip_address rows = rw (fail_guessing, statement_for_disabled 13) refl

  reload_disabled :
      (rows : List Product) (names : HashMap (List ℕ))
      → reload_product_names d rows s names ≡ (used, [], some names)
  unfolding reload_product_names
  reload_disabled rows names = rw (reload_product_names, statement_for_disabled 14) refl

  update_machine_owner_disabled :
      (account : Option (List ℕ)) (remote_ip client_machine_id : List ℕ) (rows : ℤ)
      → update_machine_owner d account remote_ip client_machine_id rows s ≡ (used, [], pos 0)
  unfolding update_machine_owner
  update_machine_owner_disabled none remote_ip client_machine_id rows =
      update_rows_disabled 12 _ rows
  update_machine_owner_disabled (some a) remote_ip client_machine_id rows =
      update_rows_disabled 11 _ rows

-- If the database is neither enabled nor connected, every operation executes no statement, changes
-- nothing but the time of the recent use and the count of clock readings, and answers: no request,
-- no identity, no rows, no guessing, and the product names as they were.
pub operations_disabled :
    (d : Driver) (s : Service)
    → s.link.enabled ≡ false
    → s.link.connected ≡ false
    → ((remote_ip : List ℕ) (answer : Query)
        → check_available d remote_ip answer s ≡ (used_at d s, [], none))
      × ((sn count : ℤ) (bytes : ℕ) (idle : Bool)
          → connection_close d sn bytes count idle s ≡ (used_at d s, []))
      × ((sn : ℤ) (account ipaddr : Option (List ℕ)) (id : Option ℤ)
          → connection_established d sn account ipaddr id s ≡ (used_at d s, [], pos 0))
      × ((ipaddr : List ℕ) → connection_not_allowed d ipaddr s ≡ (used_at d s, []))
      × ((ipaddr : List ℕ) (rows : ℤ) → check_vip d ipaddr rows s ≡ (used_at d s, [], pos 0))
      × ((ipaddr : List ℕ) (rows : ℤ)
          → connection_blacklisted d ipaddr rows s ≡ (used_at d s, [], pos 0))
      × ((ipaddr : List ℕ) (rows : ℤ)
          → add_ip_to_auto_blacklist d ipaddr rows s ≡ (used_at d s, [], pos 0))
      × ((k : KmsDetails) (rows : ℤ) → add_kms_details d k rows s ≡ (used_at d s, [], pos 0))
      × ((account : Option (List ℕ)) (remote_ip client_machine_id : List ℕ) (rows : ℤ)
          → update_machine_owner d account remote_ip client_machine_id rows s
            ≡ (used_at d s, [], pos 0))
      × ((ip_address : List ℕ) (rows : List (Option ℤ))
          → fail_guessing d ip_address rows s ≡ (used_at d s, [], false))
      × ((rows : List Product) (names : HashMap (List ℕ))
          → reload_product_names d rows s names ≡ (used_at d s, [], some names))
unfolding connection_not_allowed check_vip connection_blacklisted add_ip_to_auto_blacklist
    add_kms_details
operations_disabled d s off down = (
  check_available_disabled d s off down,
  connection_close_disabled d s off down,
  connection_established_disabled d s off down,
  (λ ipaddr. ap (λ r. (r.0, r.1)) (update_rows_disabled d s off down 4 _ (pos 0))),
  (λ ipaddr rows. update_rows_disabled d s off down 5 _ rows),
  (λ ipaddr rows. update_rows_disabled d s off down 8 _ rows),
  (λ ipaddr rows. update_rows_disabled d s off down 9 _ rows),
  (λ k rows. update_rows_disabled d s off down 10 _ rows),
  update_machine_owner_disabled d s off down,
  fail_guessing_disabled d s off down,
  reload_disabled d s off down,
)
