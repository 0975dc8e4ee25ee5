-- ===== src/Proxying/Admission/Arrived.antt =====
-- src/proxying.c: what one call of `accepting_request` comes to.
use tcp_proxy.Prelude.{
  ℕ, zero, suc, ◌<◌, ◌≡◌, refl, ◌∙◌, ◌⊎◌, inl, inr, true, false, Option, some, List, [], ◌∷◌, arith,
  length, get_elem?, Bool-cases,
}
use tcp_proxy.Prelude.Int.{ℤ, pos, ◌≤ℤ◌, ◌<ℤ◌, ltb_ℤ, leb_ℤ}
use tcp_proxy.Blacklist.{IpAccessEntry}
use tcp_proxy.Connections.Segments.{Outside}
use tcp_proxy.Connections.Pool.{Partition, taken, left}
use tcp_proxy.Proxying.{ProxyRequest, shutdown, close, connection_not_allowed, Proxy, emit}
use tcp_proxy.Proxying.Admission.{Config, Database, Peer, Verdict, judge}
use tcp_proxy.Proxying.Admission.Judgement.{Admits}
use tcp_proxy.Proxying.Admission.Arrival.{
  Front, Answers, establish, server_index, count_success, admit, refuse, accepting_request,
}
use tcp_proxy.Proxying.Admission.Lifecycle.{Established, establish-Established}

-- The state with the calls that the verdict makes.
abbrev pub charged : Front → Verdict → Proxy
charged s v = emit s.proxy v.calls

-- The server of a channel is the one of that index, or the first one past the end of the table.
abbrev pub Routes : Config → ℤ → ℕ → Type 0
Routes c channel i =
    (i < length c.servers) × ((channel ≡ pos i) ⊎ ((pos (length c.servers) ≤ℤ channel) × (i ≡ 0)))

-- A judged client is refused, and its descriptor closed; or its server does not answer, and the
-- descriptor is closed; or both are connected.
pub data Arrived (c : Config) (answers : Answers) (v : Verdict) (client_fd : ℤ) (remote_ip : List ℕ)
    (xs ps : List ℕ) (s s' : Front) : Type 0 where
  refused :
      ¬ Admits v
      → s'.proxy
        ≡ emit
            (charged s v)
            (shutdown client_fd ∷ close client_fd ∷ connection_not_allowed remote_ip ∷ [])
      → Arrived c answers v client_fd remote_ip xs ps s s'
  unreachable :
      (i : ℕ)
      → Admits v
      → Routes c v.channel i
      → answers.connect_host i <ℤ pos 0
      → s'.proxy ≡ emit (charged s v) (shutdown client_fd ∷ close client_fd ∷ [])
      → Arrived c answers v client_fd remote_ip xs ps s s'
  connected :
      (i : ℕ)
      → Admits v
      → Routes c v.channel i
      → pos 0 ≤ℤ answers.connect_host i
      → Established
          (charged s v)
          client_fd
          (answers.connect_host i)
          (taken answers.fresh ps)
          xs
          (left ps)
          s'.proxy
      → Arrived c answers v client_fd remote_ip xs ps s s'

server_index-Routes :
    (c : Config) (channel : ℤ)
    → 0 < length c.servers
    → pos 0 ≤ℤ channel
    → Routes c channel (server_index c channel)
unfolding server_index
server_index-Routes c channel some_server nonneg =
    elim (Bool-cases (ltb_ℤ channel (pos (length c.servers)))) [
      | inl e ↦ rw e (ground (arith, e), inl (ground arith))
      | inr e ↦ rw e (some_server, inr (ground (arith, e), refl))
    ]

found :
    (servers : List (List ℕ × ℤ)) (i : ℕ)
    → i < length servers
    → (server : List ℕ × ℤ) × (get_elem? servers i ≡ some server)
found [] i lt = absurd (omega arith)
found (x ∷ xs) zero lt = (x, refl)
found (x ∷ xs) (suc i) lt = found xs i (omega arith)

admit-unreachable :
    (c : Config) (answers : Answers) (s : Front) (client_fd : ℤ) (remote_ip : List ℕ)
    (request : Option ProxyRequest) (now : ℕ) (v : Verdict) (server : List ℕ × ℤ)
    → get_elem? c.servers (server_index c v.channel) ≡ some server
    → leb_ℤ (pos 0) (answers.connect_host (server_index c v.channel)) ≡ false
    → admit c answers s client_fd remote_ip request now v
      ≡ some (record {
        proxy = emit s.proxy (shutdown client_fd ∷ close client_fd ∷ []);
        service = count_success request v.entry v.service;
      })
unfolding admit
admit-unreachable c answers s client_fd remote_ip request now v server at down =
    rw (at, down, admit) refl

admit-connected :
    (c : Config) (answers : Answers) (s : Front) (client_fd : ℤ) (remote_ip : List ℕ)
    (request : Option ProxyRequest) (now : ℕ) (v : Verdict) (server : List ℕ × ℤ)
    → get_elem? c.servers (server_index c v.channel) ≡ some server
    → leb_ℤ (pos 0) (answers.connect_host (server_index c v.channel)) ≡ true
    → admit c answers s client_fd remote_ip request now v
      ≡ some (record {
        proxy =
            establish s.proxy answers client_fd
              (answers.connect_host (server_index c v.channel))
              remote_ip
              request
              v.access_counter
              now;
        service = count_success request v.entry v.service;
      })
unfolding admit
admit-connected c answers s client_fd remote_ip request now v server at up = rw (at, up, admit) refl

judged-refused :
    (c : Config) (db : Database) (inet_ntop : Peer → List ℕ) (answers : Answers)
    (garbage : IpAccessEntry ℕ) (now : ℕ) (p : Peer) (client_fd : ℤ) (s : Front) (v : Verdict)
    → judge c db (inet_ntop p) p now garbage s.service ≡ some v
    → leb_ℤ (pos 0) v.channel ≡ false
    → accepting_request c db inet_ntop answers garbage now (some p) client_fd s
      ≡ some (
          refuse
            (record { proxy = charged s v; service = v.service })
            client_fd
            (inet_ntop p)
            now
            v)
unfolding accepting_request
judged-refused c db inet_ntop answers garbage now p client_fd s v j e =
    rw (j, e, accepting_request) refl

judged-admitted :
    (c : Config) (db : Database) (inet_ntop : Peer → List ℕ) (answers : Answers)
    (garbage : IpAccessEntry ℕ) (now : ℕ) (p : Peer) (client_fd : ℤ) (s : Front) (v : Verdict)
    → judge c db (inet_ntop p) p now garbage s.service ≡ some v
    → leb_ℤ (pos 0) v.channel ≡ true
    → accepting_request c db inet_ntop answers garbage now (some p) client_fd s
      ≡ admit c answers
          (record { proxy = charged s v; service = v.service })
          client_fd
          (inet_ntop p)
          (db.check_available (inet_ntop p))
          now
          v
unfolding accepting_request
judged-admitted c db inet_ntop answers garbage now p client_fd s v j e =
    rw (j, e, accepting_request) refl

-- With at least one server, a partition of the entries into list and pool, and a fresh address from
-- `malloc`, a call of `accepting_request` for a judged peer returns with no fault: a verdict below 0
-- shuts down and closes the client and reports it; else the server is the one of the channel, or the
-- first one past the end of the table, and the client is shut down and closed if that server does
-- not answer, or it is connected: the next entry of the pool, or a new one, joins the list with both
-- descriptors and no request, and no other entry's content changes.
pub accepting_request-Arrived :
    (c : Config) (db : Database) (inet_ntop : Peer → List ℕ) (answers : Answers)
    (garbage : IpAccessEntry ℕ) (now : ℕ) (p : Peer) (client_fd : ℤ) (s : Front) (v : Verdict)
    (xs ps : List ℕ)
    → 0 < length c.servers
    → judge c db (inet_ntop p) p now garbage s.service ≡ some v
    → Partition s.proxy.memory xs ps
    → Outside answers.fresh xs
    → (s' : Front) × (accepting_request c db inet_ntop answers garbage now (some p) client_fd s
        ≡ some s')
      × Arrived c answers v client_fd (inet_ntop p) xs ps s s'
unfolding emit refuse
accepting_request-Arrived c db inet_ntop answers garbage now p client_fd s v xs ps some_server j w
      o =
    elim (Bool-cases (leb_ℤ (pos 0) v.channel)) [
      | inr e ↦ (
        _,
        judged-refused c db inet_ntop answers garbage now p client_fd s v j e,
        refused (λ a. absurd (ground (arith, e, a))) refl,
      )
      | inl e ↦
          let admits : Admits v = ground (arith, e) in
          let routes = server_index-Routes c v.channel some_server admits in
          let i = server_index c v.channel in
          let (server, at) = found c.servers i routes.0 in
          let start : Front = record { proxy = charged s v; service = v.service } in
          let judged = judged-admitted c db inet_ntop answers garbage now p client_fd s v j e in
          elim (Bool-cases (leb_ℤ (pos 0) (answers.connect_host i))) [
            | inr down ↦ (
              _,
              judged
                  ∙ admit-unreachable c answers start client_fd (inet_ntop p)
                      (db.check_available (inet_ntop p)) now v server at down,
              unreachable i admits routes (ground (arith, down)) refl,
            )
            | inl up ↦ (
              _,
              judged
                  ∙ admit-connected c answers start client_fd (inet_ntop p)
                      (db.check_available (inet_ntop p)) now v server at up,
              connected i admits routes (ground (arith, up)) (
                  establish-Established (charged s v) answers client_fd (answers.connect_host i)
                    (inet_ntop p) (db.check_available (inet_ntop p)) v.access_counter now xs ps w
                    o),
            )
          ]
    ]
