-- ===== src/Proxying/Admission.antt =====
-- src/proxying.c: who may connect, and where to: the tests of `accepting_request`, the white list and
-- the channels. The answers of the database are arguments.
pub mod Judgement
pub mod Arrival
pub mod Lifecycle
pub mod Arrived
pub mod Channels
pub mod Safety
use tcp_proxy.Prelude.{
  ℕ, zero, suc, ◌+◌, ◌-◌, ◌*◌, ◌/◌, ◌%◌, ◌^◌, ◌≡◌, Bool, true, false, ◌&&◌, ◌||◌, not, Option, none,
  some, List, [], ◌∷◌, ◌++◌, arith, ltb, leb, ◌==◌, if◌then◌else◌, length, get_elem?,
}
use tcp_proxy.Prelude.Int.{ℤ, pos, negsuc, ◌-ℤ◌, ◌+ℤ◌, eqb_ℤ, ltb_ℤ, leb_ℤ, pos_part}
use tcp_proxy.Prelude.Table.{update}
use tcp_proxy.Blacklist.{Blacklist, IpAccessEntry, find_and_increase, write_entry}
use tcp_proxy.Proxying.{ProxyRequest, Effect, add_ip_to_auto_blacklist}

-- The configuration behind the listener. `servers` has as many members as
-- `number_of_remote_servers` says; a member is a host and a port.
pub record Config : Type 0 where
  pub servers : List (List ℕ × ℤ)
  pub default_server : ℤ
  pub on_failed_channel : ℤ
  pub connection_threshold : ℤ
  pub persist_threshold : ℤ
  pub max_persistent_time : ℤ
  pub white_list : List (List ℕ)

unfoldable pub set_default_channel : Config → ℤ → Config × ℤ
set_default_channel c channel =
    let c' =
      if leb_ℤ (pos 0) channel && ltb_ℤ channel (pos (length c.servers))
      then record c { default_server = channel }
      else c in
    (c', c'.default_server)

unfoldable pub set_fallback_channel : Config → ℤ → Config × ℤ
set_fallback_channel c channel =
    let c' =
      if leb_ℤ (pos 0) channel && ltb_ℤ channel (pos (length c.servers))
      then record c { on_failed_channel = channel }
      else c in
    (c', c'.on_failed_channel)

-- What `db_svc` answers about an address, during one call of `accepting_request`: where the code asks
-- for the VIP twice, the answers are taken to be the same.
pub record Database : Type 0 where
  pub check_available : List ℕ → Option ProxyRequest
  pub connection_blacklisted : List ℕ → ℤ
  pub fail_guessing : List ℕ → Bool
  pub check_vip : List ℕ → ℤ

-- `struct sockaddr_in6`, with the address as four words of a little-endian machine.
pub record Peer : Type 0 where
  pub is_inet6 : Bool
  pub word0 : ℕ
  pub word1 : ℕ
  pub word2 : ℕ
  pub word3 : ℕ

-- The byte order of the network, on a little-endian machine.
unfoldable pub htonl : ℕ → ℕ
htonl n = n % 256 * 2 ^ 24 + n / 256 % 256 * 2 ^ 16 + n / 2 ^ 16 % 256 * 256 + n / 2 ^ 24 % 256

-- An IPv4 address that is mapped into IPv6: `::ffff:a.b.c.d`.
unfoldable pub is_v4 : Peer → Bool
is_v4 p = p.is_inet6 && p.word0 == 0 && p.word1 == 0 && p.word2 == 0xffff0000

-- A character as `strncasecmp` compares it.
unfoldable pub lower : ℕ → ℕ
lower c = if leb 65 c && leb c 90 then c + 32 else c

-- `strncasecmp (text, prefix, strlen (prefix)) == 0`
unfoldable pub starts_with : List ℕ → List ℕ → Bool
unfolding lower
starts_with text [] = true
starts_with [] (p ∷ prefix) = false
starts_with (c ∷ text) (p ∷ prefix) = lower c == lower p && starts_with text prefix

unfoldable pub check_remote_ip_in_whitelist : List (List ℕ) → List ℕ → Bool
unfolding starts_with
check_remote_ip_in_whitelist [] remote_ip = false
check_remote_ip_in_whitelist (w ∷ white_list) remote_ip =
    if starts_with remote_ip w then true else check_remote_ip_in_whitelist white_list remote_ip

-- `(long) elapsed_time (&now, &log_time)`, for times in microseconds.
unfoldable pub elapsed_seconds : ℕ → ℕ → ℤ
elapsed_seconds now log_time =
    if leb log_time now
    then pos ((now - log_time) / 1000000)
    else pos 0 -ℤ pos ((log_time - now) / 1000000)

-- `counter % 2 == 0`
unfoldable pub is_even : ℤ → Bool
is_even (pos n) = n % 2 == 0
is_even (negsuc n) = n % 2 == 1

-- The locals of `accepting_request` once the address is judged, the state of the black list service,
-- and the calls that change the database.
pub record Verdict : Type 0 where
  pub channel : ℤ
  pub blacklisted : Bool
  pub auto_blacklisted : Bool
  pub access_counter : ℤ
  pub entry : Option (IpAccessEntry ℕ)
  pub service : Blacklist ℕ
  pub calls : List Effect

-- The condition of the fallback channel.
unfoldable pub tries_fallback : Config → Database → List ℕ → ℤ → Bool
unfolding is_even
tries_fallback c db remote_ip access_counter =
    not (eqb_ℤ c.on_failed_channel c.default_server)
    && ltb_ℤ (c.connection_threshold -ℤ pos 7) access_counter
    && leb_ℤ access_counter c.connection_threshold
    && is_even access_counter
    && db.fail_guessing remote_ip

-- `if (!blacklisted)`, for an IPv4 address whose entry is `e`.
unfoldable pub limit_access :
    Config → Database → List ℕ → ℕ → Blacklist ℕ → IpAccessEntry ℕ → Verdict
unfolding tries_fallback elapsed_seconds
limit_access c db remote_ip now service e =
    let chosen =
      if tries_fallback c db remote_ip e.counter then c.on_failed_channel else c.default_server in
    let not_vip = eqb_ℤ (db.check_vip remote_ip) (pos 0) in
    let too_many = ltb_ℤ c.connection_threshold e.counter && not_vip in
    let channel = if too_many then negsuc 0 else chosen in
    let too_long =
      not too_many
      && leb_ℤ (pos 0) channel
      && ltb_ℤ c.max_persistent_time (elapsed_seconds now e.log_time)
      && not_vip in
    record {
      channel = channel;
      blacklisted = false;
      auto_blacklisted = too_many;
      access_counter = e.counter;
      entry = some e;
      service = service;
      calls =
          if (too_many && ltb_ℤ c.persist_threshold e.counter) || too_long
          then add_ip_to_auto_blacklist remote_ip ∷ []
          else [];
    }

-- The verdict where no counter is kept.
unfoldable pub plain_verdict : ℤ → Bool → Blacklist ℕ → Verdict
plain_verdict channel blacklisted service = record {
  channel = channel;
  blacklisted = blacklisted;
  auto_blacklisted = false;
  access_counter = pos 0;
  entry = none;
  service = service;
  calls = [];
}

-- The part of `accepting_request` before `if (channel >= 0)`. `now` is in microseconds; `garbage` is
-- the content of the memory for a new entry; a fault of the service is `none`.
unfoldable pub judge :
    Config → Database → List ℕ → Peer → ℕ → IpAccessEntry ℕ → Blacklist ℕ → Option Verdict
unfolding check_remote_ip_in_whitelist is_v4 limit_access plain_verdict htonl
judge c db remote_ip peer now garbage service = elim (db.check_available remote_ip) [
  | some request ↦ some (plain_verdict request.channel false service)
  | none ↦
      let blacklisted = ltb_ℤ (pos 0) (db.connection_blacklisted remote_ip) in
      if check_remote_ip_in_whitelist c.white_list remote_ip
      then (if is_v4 peer
          then elim (find_and_increase service garbage (now / 1000000) now (htonl peer.word3)) [
            | none ↦ none
            | some (service', e) ↦
                if blacklisted
                then some (record (plain_verdict (negsuc 0) true service') {
                  access_counter = e.counter;
                  entry = some e;
                })
                else some (limit_access c db remote_ip now service' e)
          ]
          else some (
              plain_verdict (if blacklisted then negsuc 0 else c.default_server) blacklisted
                service))
      else some (plain_verdict (negsuc 0) false service)
]
