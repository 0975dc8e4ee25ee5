-- ===== src/Proxying/Admission/Arrival.antt =====
-- src/proxying.c: `accepting_request` from `if (channel >= 0)` on, and as a whole.
use tcp_proxy.Prelude.{
  ℕ, ◌+◌, ◌-◌, ◌*◌, ◌%◌, ◌^◌, Bool, ◌&&◌, not, Option, none, some, List, [], ◌∷◌, ltb,
  if◌then◌else◌, length, get_elem?,
}
use tcp_proxy.Prelude.Int.{ℤ, pos, negsuc, ◌+ℤ◌, ltb_ℤ, leb_ℤ, pos_part}
use tcp_proxy.Prelude.Table.{update}
use tcp_proxy.Blacklist.{Blacklist, IpAccessEntry, write_entry}
use tcp_proxy.Events.{add_event}
use tcp_proxy.Connections.Pool.{open_connection}
use tcp_proxy.Proxying.{
  ProxyRequest, ConnectionInfo, shutdown, close, connection_established, connection_not_allowed,
  Proxy, to_server, to_client, emit, set_info,
}
use tcp_proxy.Proxying.Admission.{Config, Database, Peer, Verdict, judge}

-- The listener's state: the connections, and the black list service.
pub record Front : Type 0 where
  pub proxy : Proxy
  pub service : Blacklist ℕ

-- What the system answers during one call: `connect_host` for a server, `epoll_ctl` for both
-- descriptors, `malloc` for an entry, and the database for the new connection.
pub record Answers : Type 0 where
  pub connect_host : ℕ → ℤ
  pub client_added : Bool
  pub server_added : Bool
  pub fresh : ℕ
  pub insert_id : ℤ

-- A write through the pointer to the entry of an address.
unfoldable pub put_entry : Blacklist ℕ → IpAccessEntry ℕ → Blacklist ℕ
put_entry b e =
    let home = e.ipaddr % b.hash_buffer_size in
    record b { chains = update b.chains home (write_entry e.ipaddr e (b.chains home)) }

-- An `int` in a field of type `uint32_t`.
unfoldable pub to_uint32 : ℤ → ℕ
to_uint32 (pos n) = n % 2 ^ 32
to_uint32 (negsuc n) = 2 ^ 32 - 1 - n % 2 ^ 32

-- The fields of a new connection; `nth_user` is set only with a request in the database.
unfoldable pub new_info :
    ConnectionInfo → ℤ → ℤ → ℤ → ℤ → List ℕ → Option ProxyRequest → ℤ → ℕ → ℤ → ℕ → ConnectionInfo
unfolding to_uint32
new_info old client_fd server_fd client_handle server_handle remote_ip request access_counter now
      insert_id user =
    let plain = record old {
      client_fd = client_fd;
      server_fd = server_fd;
      client_handle = client_handle;
      server_handle = server_handle;
      request_count = 0;
      response_count = 0;
      insert_id = 0;
      bytes_sent = 0;
      bytes_received = 0;
      recent = now;
      request_in_db = request;
      remote_ip = remote_ip;
      attempts = access_counter;
    } in
    elim request [
      | none ↦ plain
      | some r ↦ record plain { insert_id = to_uint32 insert_id; nth_user = user }
    ]

-- `if (proxy_fd >= 0)`
unfoldable pub establish : Proxy → Answers → ℤ → ℤ → List ℕ → Option ProxyRequest → ℤ → ℕ → Proxy
unfolding new_info emit set_info
establish s answers client_fd server_fd remote_ip request access_counter now =
    let (x, memory) = open_connection s.memory answers.fresh in
    let (ev, client_handle) = add_event s.ev answers.client_added client_fd to_server x in
    let (ev', server_handle) = add_event ev answers.server_added server_fd to_client x in
    let user = (s.user_counter + 1) % 2 ^ 32 in
    let info =
      new_info (s.info x) client_fd server_fd client_handle server_handle remote_ip request
        access_counter now answers.insert_id user in
    let opened = set_info (record s { memory = memory; ev = ev' }) x info in
    elim request [
      | none ↦ opened
      | some r ↦
          emit (record opened { user_counter = user })
            (connection_established r.sn r.account remote_ip ∷ [])
    ]

-- `channel < number_of_remote_servers ? channel : 0`
unfoldable pub server_index : Config → ℤ → ℕ
server_index c channel = if ltb_ℤ channel (pos (length c.servers)) then pos_part channel else 0

-- `entry->success_counter++`, for a connection with an entry and no request in the database.
unfoldable pub count_success :
    Option ProxyRequest → Option (IpAccessEntry ℕ) → Blacklist ℕ → Blacklist ℕ
unfolding put_entry
count_success (some request) e b = b
count_success none none b = b
count_success none (some e) b =
    put_entry b (record e { success_counter = e.success_counter +ℤ pos 1 })

-- `channel >= 0`; a server that is not in the table is a fault.
unfoldable pub admit :
    Config → Answers → Front → ℤ → List ℕ → Option ProxyRequest → ℕ → Verdict → Option Front
unfolding establish server_index count_success emit
admit c answers s client_fd remote_ip request now v =
    let index = server_index c v.channel in
    let server_fd = answers.connect_host index in
    elim (get_elem? c.servers index) [
      | none ↦ none
      | some server ↦
          let proxy =
            if leb_ℤ (pos 0) server_fd
            then establish s.proxy answers client_fd server_fd remote_ip request v.access_counter
                now
            else emit s.proxy (shutdown client_fd ∷ close client_fd ∷ []) in
          some (record { proxy = proxy; service = count_success request v.entry v.service })
    ]

-- The time of the last notice about a blacklisted address, if that is half an hour ago.
unfoldable pub renew_notice : Verdict → ℕ → Blacklist ℕ
unfolding put_entry
renew_notice v now = elim v.entry [
  | none ↦ v.service
  | some e ↦
      if not v.auto_blacklisted && v.blacklisted && ltb (e.log_time + 1800 * 1000000) now
      then put_entry v.service (record e { log_time = now })
      else v.service
]

-- `channel < 0`
unfoldable pub refuse : Front → ℤ → List ℕ → ℕ → Verdict → Front
unfolding renew_notice emit
refuse s client_fd remote_ip now v = record {
  proxy =
      emit s.proxy (shutdown client_fd ∷ close client_fd ∷ connection_not_allowed remote_ip ∷ []);
  service = renew_notice v now;
}

-- `peer` is what `getpeername` answers, with `inet_ntop` for the text of an address.
unfoldable pub accepting_request :
    Config
    → Database
    → (Peer → List ℕ)
    → Answers
    → IpAccessEntry ℕ
    → ℕ
    → Option Peer
    → ℤ
    → Front
    → Option Front
unfolding admit refuse judge emit
accepting_request c db inet_ntop answers garbage now peer client_fd s = elim peer [
  | none ↦ some (record s { proxy = emit s.proxy (close client_fd ∷ []) })
  | some p ↦
      let remote_ip = inet_ntop p in
      elim (judge c db remote_ip p now garbage s.service) [
        | none ↦ none
        | some v ↦
            let judged : Front = record { proxy = emit s.proxy v.calls; service = v.service } in
            if leb_ℤ (pos 0) v.channel
            then admit c answers judged client_fd remote_ip (db.check_available remote_ip) now v
            else some (refuse judged client_fd remote_ip now v)
      ]
]

-- `connection` is what `accept` answers; a failure is `none`.
unfoldable pub main_listener :
    Config
    → Database
    → (Peer → List ℕ)
    → Answers
    → IpAccessEntry ℕ
    → ℕ
    → Option Peer
    → Option ℤ
    → Front
    → Option Front
unfolding accepting_request
main_listener c db inet_ntop answers garbage now peer connection s = elim connection [
  | none ↦ some s
  | some client_fd ↦ accepting_request c db inet_ntop answers garbage now peer client_fd s
]
