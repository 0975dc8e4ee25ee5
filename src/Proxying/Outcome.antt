-- ===== src/Proxying/Outcome.antt =====
-- src/proxying.c: what one call of `do_proxying` comes to.
use tcp_proxy.Prelude.{
  ℕ, zero, suc, ◌+◌, ◌<◌, ◌≡◌, refl, sym, ap, ◌∙◌, inl, inr, Bool, true, false, ◌&&◌, Option, none,
  some, List, [], ◌∷◌, ◌++◌, arith, if◌then◌else◌, length, drop, Bool-cases,
}
use tcp_proxy.Prelude.Int.{ℤ, pos, ◌≤ℤ◌, ◌<ℤ◌, ltb_ℤ, eqb_ℤ}
use tcp_proxy.Connections.Segments.{Outside}
use tcp_proxy.Connections.Pool.{Partition}
use tcp_proxy.Connections.Links.{in_chain_inside}
use tcp_proxy.Proxying.{
  analyze_packet, wrote, ConnectionInfo, Proxy, Written, emit, set_info, write_from, count_traffic,
  relay, end_connection, do_proxying,
}
use tcp_proxy.Proxying.Relay.{Fits, Refuses, Relayed, write_from-Relayed}
use tcp_proxy.Proxying.Ending.{Ended, end_connection-Ended}

-- The state in which the analyzer has seen the bytes.
abbrev pub analyzed : Proxy → ℕ → Bool → List ℕ → Proxy
analyzed s x from_client bytes = emit s (analyze_packet x from_client bytes ∷ [])

-- The counters after `n` bytes of one direction: its bytes grow by `n` and its requests or responses
-- by one, and the other fields stay.
abbrev pub counted : ConnectionInfo → Bool → ℕ → ConnectionInfo
counted i from_client n = record i {
  bytes_sent = if from_client then i.bytes_sent + n else i.bytes_sent;
  request_count = if from_client then i.request_count + 1 else i.request_count;
  bytes_received = if from_client then i.bytes_received else i.bytes_received + n;
  response_count = if from_client then i.response_count else i.response_count + 1;
}

count_traffic-counted :
    (i : ConnectionInfo) (from_client : Bool) (n : ℕ)
    → count_traffic i from_client n ≡ counted i from_client n
unfolding count_traffic
count_traffic-counted i true n = ground arith
count_traffic-counted i false n = ground arith

-- The state after the loop of `write` took `sent`, which are `n` bytes.
abbrev pub relayed : Proxy → ℕ → Bool → List ℕ → ℤ → List ℕ → ℕ → Proxy
relayed s x from_client bytes destination sent n =
    set_info (emit (analyzed s x from_client bytes) (wrote destination sent ∷ [])) x
      (counted (s.info x) from_client n)

abbrev pub stamped : Proxy → ℕ → ℕ → Proxy
stamped s x now = set_info s x (record (s.info x) { recent = now })

abbrev pub Within : ℤ → Proxy → ℕ → Bool → Type 0
Within max_allowed_requests s x from_client =
    from_client ≡ true → pos (s.info x).request_count ≤ℤ max_allowed_requests

-- One call comes to one of four outcomes: the peer hung up; a client over its limit is cut off with
-- nothing sent on; all bytes go on, in order, and are counted; or `write` fails, and what went on is
-- a proper prefix. In all but the third the connection ends.
pub data Outcome (max_allowed_requests : ℤ) (write : ℕ → ℕ → ℤ) (bytes : List ℕ)
    (from_client : Bool) (destination : ℤ) (x : ℕ) (xs ps : List ℕ) (s s' : Proxy) : Type 0 where
  hung_up :
      bytes ≡ []
      → Ended s x xs ps s'
      → Outcome max_allowed_requests write bytes from_client destination x xs ps s s'
  limited :
      from_client ≡ true
      → max_allowed_requests <ℤ pos (s.info x).request_count
      → Ended (analyzed s x from_client bytes) x xs ps s'
      → Outcome max_allowed_requests write bytes from_client destination x xs ps s s'
  forwarded :
      Within max_allowed_requests s x from_client
      → s' ≡ relayed s x from_client bytes destination bytes (length bytes)
      → Outcome max_allowed_requests write bytes from_client destination x xs ps s s'
  broken :
      (sent : List ℕ) (n : ℕ)
      → Within max_allowed_requests s x from_client
      → sent ++ drop n bytes ≡ bytes
      → n < length bytes
      → Refuses write
      → Ended (relayed s x from_client bytes destination sent n) x xs ps s'
      → Outcome max_allowed_requests write bytes from_client destination x xs ps s s'

drop_all : (xs : List ℕ) (n : ℕ) → n ≡ length xs → drop n xs ≡ []
drop_all [] zero e = refl
drop_all [] (suc n) e = refl
drop_all (x ∷ xs) zero e = absurd (omega arith)
drop_all (x ∷ xs) (suc n) e = drop_all xs n (omega arith)

append_nil : (xs : List ℕ) → xs ++ [] ≡ xs
append_nil [] = refl
append_nil (x ∷ xs) = ap (λ ys. x ∷ ys) (append_nil xs)

relay-limited :
    (max_allowed_requests : ℤ) (write : ℕ → ℕ → ℤ) (bytes : List ℕ) (from_client : Bool)
    (destination : ℤ) (x : ℕ) (s : Proxy)
    → (from_client && ltb_ℤ max_allowed_requests (pos (s.info x).request_count)) ≡ true
    → relay max_allowed_requests write bytes from_client destination x s
      ≡ end_connection (analyzed s x from_client bytes) x
unfolding relay
relay-limited max_allowed_requests write bytes from_client destination x s e = rw e refl

relay-written :
    (max_allowed_requests : ℤ) (write : ℕ → ℕ → ℤ) (bytes : List ℕ) (from_client : Bool)
    (destination : ℤ) (x : ℕ) (s : Proxy) (w : Written)
    → (from_client && ltb_ℤ max_allowed_requests (pos (s.info x).request_count)) ≡ false
    → write_from write (length bytes) 0 bytes 0 (length bytes) ≡ some w
    → relay max_allowed_requests write bytes from_client destination x s ≡ (
        let counted = relayed s x from_client bytes destination w.delivered w.write_total in
        if w.close_connection then end_connection counted x else some counted)
unfolding relay
relay-written max_allowed_requests write bytes from_client destination x s w e run =
    rw (e, run, count_traffic-counted (s.info x) from_client w.write_total) refl

-- A run of the loop that takes every byte.
all_sent :
    (write : ℕ → ℕ → ℤ) (bytes : List ℕ) (v : Written)
    → Relayed write bytes 0 v
    → v.close_connection ≡ false
    → (v.delivered ≡ bytes) × (v.write_total ≡ length bytes)
all_sent write bytes v r e =
    let full = r.complete e in
    (
      sym (append_nil v.delivered)
          ∙ ap (λ ys. v.delivered ++ ys) (sym (drop_all bytes v.write_total full))
          ∙ r.in_order,
      full,
    )

module _ (max_allowed_requests : ℤ) (write : ℕ → ℕ → ℤ) (from_client : Bool) (destination : ℤ)
    (x : ℕ) (xs ps : List ℕ) (s : Proxy) where
  abbrev Comes : List ℕ → Option Proxy → Type 0
  Comes bytes result =
      (s' : Proxy) × (result ≡ some s')
      × Outcome max_allowed_requests write bytes from_client destination x xs ps s s'

  within :
      (from_client && ltb_ℤ max_allowed_requests (pos (s.info x).request_count)) ≡ false
      → Within max_allowed_requests s x from_client
  within e = λ c. ground (arith, e, c)

  written-Comes :
      (bytes : List ℕ) (v : Written)
      → Partition s.memory xs ps
      → ¬ Outside x xs
      → Within max_allowed_requests s x from_client
      → Relayed write bytes 0 v
      → Comes bytes (
          let counted = relayed s x from_client bytes destination v.delivered v.write_total in
          if v.close_connection then end_connection counted x else some counted)
  unfolding set_info emit
  written-Comes bytes v w inside ok r = elim (Bool-cases v.close_connection) [
    | inl e ↦
        let counted = relayed s x from_client bytes destination v.delivered v.write_total in
        let (s', run, ended) = end_connection-Ended counted x xs ps w inside in
        let (short, refused) = r.cut e in
        (s', rw e run, broken v.delivered v.write_total ok r.in_order short refused ended)
    | inr e ↦
        let (same, full) = all_sent write bytes v r e in
        (
          relayed s x from_client bytes destination v.delivered v.write_total,
          rw e refl,
          forwarded ok (rw (same, full) refl),
        )
  ]

  relay-Comes :
      (bytes : List ℕ)
      → Fits write
      → Partition s.memory xs ps
      → ¬ Outside x xs
      → Comes bytes (relay max_allowed_requests write bytes from_client destination x s)
  unfolding emit
  relay-Comes bytes fits w inside =
      elim (Bool-cases (from_client && ltb_ℤ max_allowed_requests (pos (s.info x).request_count))) [
        | inl e ↦
            let (s', run, ended) =
              end_connection-Ended (analyzed s x from_client bytes) x xs ps w inside in
            (
              s',
              relay-limited max_allowed_requests write bytes from_client destination x s e ∙ run,
              limited (ground (arith, e)) (ground (arith, e)) ended,
            )
        | inr e ↦
            let (v, run, r) =
              write_from-Relayed write (length bytes) 0 0 (length bytes) bytes fits (omega arith)
                (omega arith) in
            let (s', returned, outcome) = written-Comes bytes v w inside (within e) r in
            (
              s',
              relay-written max_allowed_requests write bytes from_client destination x s v e run
                  ∙ returned,
              outcome,
            )
      ]

-- If `write` never takes more bytes than it is offered, a call of `do_proxying` for a connection of
-- the list returns, with no fault, in one of four ways: nothing was read and the connection ends;
-- the client is over its limit of requests, nothing is written and the connection ends; all bytes
-- read are written to the destination in their order, in one trace entry, and the counters of that
-- direction grow by them and by one; or a call of `write` fails, a proper prefix of the bytes was
-- written and the connection ends.
pub do_proxying-Outcome :
    (max_allowed_requests : ℤ) (write : ℕ → ℕ → ℤ) (bytes : List ℕ) (now : ℕ)
    (source destination : ℤ) (x : ℕ) (xs ps : List ℕ) (s : Proxy)
    → Fits write
    → Partition s.memory xs ps
    → ¬ Outside x xs
    → (s' : Proxy) × (do_proxying max_allowed_requests write bytes now source destination x s
        ≡ some s')
      × Outcome max_allowed_requests write bytes
          (eqb_ℤ (s.info x).client_fd source)
          destination
          x
          xs
          ps
          (stamped s x now)
          s'
unfolding do_proxying
do_proxying-Outcome max_allowed_requests write [] now source destination x xs ps s fits w inside =
    let chained = in_chain_inside s.memory.node none s.memory.infos xs x w.attached.linked inside in
    let (s', run, ended) = end_connection-Ended (stamped s x now) x xs ps w inside in
    (s', rw chained run, hung_up refl ended)
do_proxying-Outcome max_allowed_requests write (b ∷ bs) now source destination x xs ps s fits w
      inside =
    let chained = in_chain_inside s.memory.node none s.memory.infos xs x w.attached.linked inside in
    let (s', run, outcome) =
      relay-Comes max_allowed_requests write (eqb_ℤ (s.info x).client_fd source) destination x xs ps
        (stamped s x now) (b ∷ bs) fits w inside in
    (s', rw chained run, outcome)
