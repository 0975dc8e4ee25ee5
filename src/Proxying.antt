-- ===== src/Proxying.antt =====
-- src/proxying.c: what a connection carries, and how `do_proxying` relays it and ends it. The answers
-- of `read` and `write` are arguments; calls of the system, of the packet analyzer and of the
-- database leave a trace. The worker mutex makes each call of a handler one step.
pub mod Relay
pub mod Ending
pub mod Outcome
pub mod Sweep
pub mod Swept
pub mod Admission
mod Tests
use tcp_proxy.Prelude.{
  ℕ, zero, suc, ◌+◌, ◌-◌, ◌^◌, ◌%◌, ◌≡◌, Bool, true, false, ◌&&◌, Option, none, some, List, [], ◌∷◌,
  ◌++◌, arith, ltb, leb, ◌==◌, if◌then◌else◌, length, take, drop,
}
use tcp_proxy.Prelude.Int.{ℤ, pos, negsuc, eqb_ℤ, ltb_ℤ, pos_part}
use tcp_proxy.Prelude.Table.{update}
use tcp_proxy.Blacklist.{to_int}
use tcp_proxy.Events.{EventLoop, remove_event}
use tcp_proxy.Connections.{Memory, detach_connection_info_entry, free_connection_info}

-- `struct db_proxy_request_t`; a string is a list of characters, and `none` is NULL.
pub record ProxyRequest : Type 0 where
  pub account : Option (List ℕ)
  pub sn : ℤ
  pub channel : ℤ

-- `struct connection_info`, without the fields of the list (`Node`). Times are in microseconds.
-- Counts only grow from 0, and are numbers without a bound.
pub record ConnectionInfo : Type 0 where
  pub client_fd : ℤ
  pub server_fd : ℤ
  pub client_handle : ℤ
  pub server_handle : ℤ
  pub request_count : ℕ
  pub response_count : ℕ
  pub insert_id : ℕ
  pub nth_user : ℕ
  pub bytes_sent : ℕ
  pub bytes_received : ℕ
  pub recent : ℕ
  pub request_in_db : Option ProxyRequest
  pub remote_ip : List ℕ
  pub attempts : ℤ

-- The handlers that the event loop calls: `main_listener`, `proxy_from_client_to_server` and
-- `proxy_from_server_to_client`.
pub data Handler : Type 0 where
  main_listener : Handler
  to_server : Handler
  to_client : Handler

-- Calls with an effect outside. `wrote fd bytes` is what the calls of `write` took in all.
pub data Effect : Type 0 where
  analyze_packet : ℕ → Bool → List ℕ → Effect
  wrote : ℤ → List ℕ → Effect
  shutdown : ℤ → Effect
  close : ℤ → Effect
  release : ℕ → Effect
  connection_established : ℤ → Option (List ℕ) → List ℕ → Effect
  connection_close : ℤ → ℕ → ℕ → Bool → Effect
  connection_not_allowed : List ℕ → Effect
  add_ip_to_auto_blacklist : List ℕ → Effect
  done : Effect

-- The state behind the handlers: the entries, the event loop, what each entry carries, and the calls
-- made so far.
pub record Proxy : Type 0 where
  pub memory : Memory
  pub ev : EventLoop Handler ℕ
  pub info : ℕ → ConnectionInfo
  pub user_counter : ℕ
  pub trace : List Effect

unfoldable pub emit : Proxy → List Effect → Proxy
emit s calls = record s { trace = s.trace ++ calls }

unfoldable pub set_info : Proxy → ℕ → ConnectionInfo → Proxy
set_info s x v = record s { info = update s.info x v }

-- `leftLen -= writeLen` on `size_t`.
unfoldable pub size_sub : ℕ → ℕ → ℕ
size_sub a b = if leb b a then a - b else a + 2 ^ 64 - b

-- What the loop of `write` leaves: the bytes taken, `writeTotal` and `close_connection`.
pub record Written : Type 0 where
  pub delivered : List ℕ
  pub write_total : ℕ
  pub close_connection : Bool

-- `while (leftLen > 0)`, on fuel. `write k n` is the answer of the call `k` for `n` bytes.
unfoldable pub write_from : (ℕ → ℕ → ℤ) → ℕ → ℕ → List ℕ → ℕ → ℕ → Option Written
unfolding size_sub
write_from write zero k buffer total left =
    if ltb 0 left
    then none
    else some (record { delivered = []; write_total = total; close_connection = false })
write_from write (suc fuel) k buffer total left =
    let answer = write k left in
    let n = pos_part answer in
    let rest = write_from write fuel (suc k) buffer (total + n) (size_sub left n) in
    if ltb 0 left
    then (if ltb_ℤ (pos 0) answer
        then elim rest [
          | none ↦ none
          | some w ↦ some (record w { delivered = take n (drop total buffer) ++ w.delivered })
        ]
        else some (record { delivered = []; write_total = total; close_connection = true }))
    else some (record { delivered = []; write_total = total; close_connection = false })

-- The call of `connection_close` for a connection with a request in the database.
unfoldable pub report_close : ConnectionInfo → Bool → List Effect
unfolding to_int
report_close i idle = elim i.request_in_db [
  | none ↦ []
  | some request ↦ connection_close (to_int i.insert_id) i.bytes_received i.request_count idle ∷ []
]

unfoldable pub close_event : Proxy → ℕ → Bool → Proxy
unfolding report_close emit set_info
close_event s x idle =
    let i = s.info x in
    if (s.memory.node x).in_chain
    then s
    else let unwatched = (remove_event (remove_event s.ev i.server_handle).0 i.client_handle).0 in
      let closed = set_info (record s { ev = unwatched }) x (record i { request_in_db = none }) in
      emit closed (
        (shutdown i.client_fd
          ∷ shutdown i.server_fd
          ∷ close i.client_fd
          ∷ close i.server_fd
          ∷ release x
          ∷ [])
        ++ (report_close i idle ++ (done ∷ [])))

-- `if (close_connection)` at the end of `do_proxying`.
unfoldable pub end_connection : Proxy → ℕ → Option Proxy
unfolding close_event
end_connection s x = elim (detach_connection_info_entry s.memory x) [
  | none ↦ none
  | some m ↦
      let t = close_event (record s { memory = m }) x false in
      if (t.memory.node x).in_chain
      then some t
      else some (record t { memory = free_connection_info t.memory x })
]

-- The counters after the loop of `write`.
unfoldable pub count_traffic : ConnectionInfo → Bool → ℕ → ConnectionInfo
count_traffic i true n = record i {
  bytes_sent = i.bytes_sent + n;
  request_count = i.request_count + 1;
}
count_traffic i false n = record i {
  bytes_received = i.bytes_received + n;
  response_count = i.response_count + 1;
}

-- The branch of `do_proxying` for the bytes of a successful `read`.
unfoldable pub relay : ℤ → (ℕ → ℕ → ℤ) → List ℕ → Bool → ℤ → ℕ → Proxy → Option Proxy
unfolding write_from end_connection count_traffic emit set_info
relay max_allowed_requests write bytes from_client destination x s =
    let analyzed = emit s (analyze_packet x from_client bytes ∷ []) in
    if from_client && ltb_ℤ max_allowed_requests (pos (s.info x).request_count)
    then end_connection analyzed x
    else elim (write_from write (length bytes) 0 bytes 0 (length bytes)) [
      | none ↦ none
      | some w ↦
          let counted =
            set_info (emit analyzed (wrote destination w.delivered ∷ [])) x
              (count_traffic (s.info x) from_client w.write_total) in
          if w.close_connection then end_connection counted x else some counted
    ]

-- `bytes` is what `read` puts into the buffer: nothing at the end of the stream and on a failure.
unfoldable pub do_proxying : ℤ → (ℕ → ℕ → ℤ) → List ℕ → ℕ → ℤ → ℤ → ℕ → Proxy → Option Proxy
unfolding relay
do_proxying max_allowed_requests write bytes now source destination x s =
    let s' = set_info s x (record (s.info x) { recent = now }) in
    let from_client = eqb_ℤ (s.info x).client_fd source in
    if (s.memory.node x).in_chain
    then elim bytes [
      | [] ↦ end_connection s' x
      | b ∷ bs ↦ relay max_allowed_requests write (b ∷ bs) from_client destination x s'
    ]
    else some s

-- The two handlers of a connection.
unfoldable pub proxy_from_server_to_client : ℤ → (ℕ → ℕ → ℤ) → List ℕ → ℕ → ℕ → Proxy → Option Proxy
unfolding do_proxying
proxy_from_server_to_client max_allowed_requests write bytes now x s =
    do_proxying max_allowed_requests write bytes now (s.info x).server_fd (s.info x).client_fd x s

unfoldable pub proxy_from_client_to_server : ℤ → (ℕ → ℕ → ℤ) → List ℕ → ℕ → ℕ → Proxy → Option Proxy
unfolding do_proxying
proxy_from_client_to_server max_allowed_requests write bytes now x s =
    do_proxying max_allowed_requests write bytes now (s.info x).client_fd (s.info x).server_fd x s
