-- ===== src/Proxying/Admission/Judgement.antt =====
-- src/proxying.c: the verdict of `accepting_request` on an address, against the history of accesses
-- that `find_and_increase` keeps.
use tcp_proxy.Prelude.{
  ℕ, ◌/◌, ◌^◌, ◌≤◌, ◌<◌, ◌≡◌, ◌≢◌, ◌↔◌, ◌⊎◌, refl, sym, subst, inl, inr, Bool, true, false, ◌&&◌,
  Option, none, some, List, ◌∷◌, arith, Bool-cases,
}
use tcp_proxy.Prelude.Int.{ℤ, pos, negsuc, ◌≤ℤ◌, ltb_ℤ, eqb_ℤ, eqb_ℤ→eq}
use tcp_proxy.Prelude.Table.{update}
use tcp_proxy.Blacklist.{Blacklist, IpAccessEntry, find_and_increase}
use tcp_proxy.Blacklist.Window.{window_hits}
use tcp_proxy.Blacklist.Service.{Models, Counted, counted, find_and_increase-Counted}
use tcp_proxy.Proxying.Admission.{
  Config, Database, Peer, Verdict, judge, limit_access, plain_verdict, tries_fallback, htonl, is_v4,
  check_remote_ip_in_whitelist,
}

-- An address with so many accesses in the window may connect: it is in no black list, and either
-- within the threshold or a VIP.
abbrev pub Allowed : Config → Database → List ℕ → ℕ → Type 0
Allowed c db remote_ip hits =
    (db.connection_blacklisted remote_ip ≤ℤ pos 0)
    × ((pos hits ≤ℤ c.connection_threshold) ⊎ (db.check_vip remote_ip ≢ pos 0))

-- The verdict lets the connection in.
abbrev pub Admits : Verdict → Type 0
Admits v = pos 0 ≤ℤ v.channel

limit_access-channel :
    (c : Config) (db : Database) (remote_ip : List ℕ) (now : ℕ) (service : Blacklist ℕ)
    (e : IpAccessEntry ℕ)
    → (ltb_ℤ c.connection_threshold e.counter && eqb_ℤ (db.check_vip remote_ip) (pos 0)) ≡ false
    → ((limit_access c db remote_ip now service e).channel ≡ c.default_server)
      ⊎ ((limit_access c db remote_ip now service e).channel ≡ c.on_failed_channel)
unfolding limit_access
limit_access-channel c db remote_ip now service e few =
    elim (Bool-cases (tries_fallback c db remote_ip e.counter)) [
      | inl f ↦ inr (rw (few, f) refl)
      | inr f ↦ inl (rw (few, f) refl)
    ]

limit_access-refused :
    (c : Config) (db : Database) (remote_ip : List ℕ) (now : ℕ) (service : Blacklist ℕ)
    (e : IpAccessEntry ℕ)
    → (ltb_ℤ c.connection_threshold e.counter && eqb_ℤ (db.check_vip remote_ip) (pos 0)) ≡ true
    → (limit_access c db remote_ip now service e).channel ≡ negsuc 0
unfolding limit_access
limit_access-refused c db remote_ip now service e many = rw many refl

-- Both channels that the configuration names are indices.
pub record Sane (c : Config) : Type 0 where
  pub default_nonneg : pos 0 ≤ℤ c.default_server
  pub fallback_nonneg : pos 0 ≤ℤ c.on_failed_channel

not_vip : (a : ℤ) → eqb_ℤ a (pos 0) ≡ false → a ≢ pos 0
not_vip a e same = absurd (ground (arith, e, same))

both : (a b : Bool) → (a && b) ≡ true → (a ≡ true) × (b ≡ true)
both true true e = (refl, refl)
both true false e = absurd (ground (arith, e))
both false b e = absurd (ground (arith, e))

not_both : (a b : Bool) → (a && b) ≡ false → (a ≡ false) ⊎ (b ≡ false)
not_both true true e = absurd (ground (arith, e))
not_both true false e = inr refl
not_both false b e = inl refl

over : (a b : ℤ) → ltb_ℤ a b ≡ true → ¬ (b ≤ℤ a)
over a b e le = absurd (ground (arith, e, le))

not_over : (a b : ℤ) → ltb_ℤ a b ≡ false → b ≤ℤ a
not_over a b e = ground (arith, e)

-- The test of the threshold and the VIPs lets in exactly the addresses within the threshold and the
-- VIPs.
within_limits :
    (threshold counter vip : ℤ)
    → (ltb_ℤ threshold counter && eqb_ℤ vip (pos 0)) ≡ false
    → (counter ≤ℤ threshold) ⊎ (vip ≢ pos 0)
within_limits threshold counter vip e = elim (not_both _ _ e) [
  | inl few ↦ inl (not_over threshold counter few)
  | inr v ↦ inr (not_vip vip v)
]

out_of_limits :
    (threshold counter vip : ℤ)
    → (ltb_ℤ threshold counter && eqb_ℤ vip (pos 0)) ≡ true
    → ¬ ((counter ≤ℤ threshold) ⊎ (vip ≢ pos 0))
out_of_limits threshold counter vip e (inl few) = over threshold counter (both _ _ e).0 few
out_of_limits threshold counter vip e (inr v) = v (eqb_ℤ→eq vip (pos 0) (both _ _ e).1)

refusal : (v : Verdict) → v.channel ≡ negsuc 0 → ¬ Admits v
refusal v e a = absurd (ground (arith, e, a))

limit_access-Admits :
    (c : Config) (db : Database) (remote_ip : List ℕ) (now : ℕ) (service : Blacklist ℕ)
    (e : IpAccessEntry ℕ)
    → Sane c
    → Admits (limit_access c db remote_ip now service e)
      ↔ ((e.counter ≤ℤ c.connection_threshold) ⊎ (db.check_vip remote_ip ≢ pos 0))
limit_access-Admits c db remote_ip now service e sane =
    elim (Bool-cases
      (ltb_ℤ c.connection_threshold e.counter && eqb_ℤ (db.check_vip remote_ip) (pos 0))) [
        | inl many ↦ (
          λ a. absurd (
              refusal (limit_access c db remote_ip now service e)
                (limit_access-refused c db remote_ip now service e many) a),
          λ ok. absurd (out_of_limits c.connection_threshold e.counter _ many ok),
        )
        | inr few ↦ (
          λ a. within_limits c.connection_threshold e.counter _ few,
          λ ok. elim (limit_access-channel c db remote_ip now service e few) [
            | inl d ↦ subst (λ z. pos 0 ≤ℤ z) (sym d) sane.default_nonneg
            | inr f ↦ subst (λ z. pos 0 ≤ℤ z) (sym f) sane.fallback_nonneg
          ],
        )
      ]

-- What the verdict on an IPv4 address in the white list is, with `hits` accesses in the window.
pub record Judged (c : Config) (db : Database) (remote_ip : List ℕ) (hits : ℕ) (v : Verdict)
    : Type 0 where
  pub counter_is : v.access_counter ≡ pos hits
  pub admits : Admits v ↔ Allowed c db remote_ip hits

-- The verdict on an IPv4 address of the white list that has no request in the database: the history
-- of accesses grows by this one, and the connection is let in if and only if it is allowed.
pub record Answer (c : Config) (db : Database) (remote_ip : List ℕ) (hist : ℕ → List ℕ)
    (slot ip : ℕ) (answer : Option Verdict) : Type 0 where
  pub verdict : Verdict
  pub returned : answer ≡ some verdict
  pub judged : Judged c db remote_ip (window_hits slot (slot ∷ hist ip)) verdict
  pub history : Models (update hist ip (slot ∷ hist ip)) slot verdict.service

judge-blacklisted :
    (c : Config) (db : Database) (remote_ip : List ℕ) (peer : Peer) (now : ℕ)
    (garbage : IpAccessEntry ℕ) (b b' : Blacklist ℕ) (e : IpAccessEntry ℕ)
    → db.check_available remote_ip ≡ none
    → check_remote_ip_in_whitelist c.white_list remote_ip ≡ true
    → is_v4 peer ≡ true
    → find_and_increase b garbage (now / 1000000) now (htonl peer.word3) ≡ some (b', e)
    → ltb_ℤ (pos 0) (db.connection_blacklisted remote_ip) ≡ true
    → judge c db remote_ip peer now garbage b
      ≡ some
          (record (plain_verdict (negsuc 0) true b') { access_counter = e.counter; entry = some e })
unfolding judge
judge-blacklisted c db remote_ip peer now garbage b b' e free listed v4 found black =
    ground (arith, free, listed, v4, found, black)

judge-limited :
    (c : Config) (db : Database) (remote_ip : List ℕ) (peer : Peer) (now : ℕ)
    (garbage : IpAccessEntry ℕ) (b b' : Blacklist ℕ) (e : IpAccessEntry ℕ)
    → db.check_available remote_ip ≡ none
    → check_remote_ip_in_whitelist c.white_list remote_ip ≡ true
    → is_v4 peer ≡ true
    → find_and_increase b garbage (now / 1000000) now (htonl peer.word3) ≡ some (b', e)
    → ltb_ℤ (pos 0) (db.connection_blacklisted remote_ip) ≡ false
    → judge c db remote_ip peer now garbage b ≡ some (limit_access c db remote_ip now b' e)
unfolding judge
judge-limited c db remote_ip peer now garbage b b' e free listed v4 found black =
    ground (arith, free, listed, v4, found, black)

-- For an IPv4 address that the white list has and the database has no request for, with both
-- configured channels nonnegative, a black list table that holds the histories of all addresses, and
-- a clock that has not gone back and fits the slot number, the verdict exists, its counter is the
-- number of accesses of the address in the latest 12 slots with this one, the table holds the
-- history with this access, and the verdict lets the connection in if and only if the database has
-- not blacklisted the address and either the counter is within the threshold or the address is a
-- VIP.
pub judge-Answer :
    (c : Config) (db : Database) (remote_ip : List ℕ) (peer : Peer) (now : ℕ)
    (garbage : IpAccessEntry ℕ) (hist : ℕ → List ℕ) (last : ℕ) (b : Blacklist ℕ)
    → Sane c
    → db.check_available remote_ip ≡ none
    → check_remote_ip_in_whitelist c.white_list remote_ip ≡ true
    → is_v4 peer ≡ true
    → Models hist last b
    → last ≤ now / 1000000 / b.frequency_in_seconds
    → now / 1000000 / b.frequency_in_seconds < 2 ^ 31
    → Answer c db remote_ip hist
        (now / 1000000 / b.frequency_in_seconds)
        (htonl peer.word3)
        (judge c db remote_ip peer now garbage b)
unfolding plain_verdict limit_access
judge-Answer c db remote_ip peer now garbage hist last b sane free listed v4 m le small =
    by_entry _ refl (
      find_and_increase-Counted hist last b garbage (now / 1000000) now (htonl peer.word3) m le
        small)
  where
    slot : ℕ
    slot = now / 1000000 / b.frequency_in_seconds

    ip : ℕ
    ip = htonl peer.word3

    by_entry :
        (r : Option (Blacklist ℕ × IpAccessEntry ℕ))
        → find_and_increase b garbage (now / 1000000) now ip ≡ r
        → Counted hist slot ip r
        → Answer c db remote_ip hist slot ip (judge c db remote_ip peer now garbage b)
    by_entry _ found (counted b' e owner hits m') =
        elim (Bool-cases (ltb_ℤ (pos 0) (db.connection_blacklisted remote_ip))) [
          | inl black ↦ record {
            verdict = record (plain_verdict (negsuc 0) true b') {
              access_counter = e.counter;
              entry = some e;
            };
            returned =
                judge-blacklisted c db remote_ip peer now garbage b b' e free listed v4 found black;
            judged = record {
              counter_is = hits;
              admits = (λ a. absurd (ground (arith, a)), λ ok. absurd (over (pos 0) _ black ok.0));
            };
            history = m';
          }
          | inr white ↦
              let (there, back) = limit_access-Admits c db remote_ip now b' e sane in
              record {
                verdict = limit_access c db remote_ip now b' e;
                returned =
                    judge-limited c db remote_ip peer now garbage b b' e free listed v4 found white;
                judged = record {
                  counter_is = hits;
                  admits = (
                    λ a. (
                      not_over (pos 0) _ white,
                      subst (λ n. (n ≤ℤ c.connection_threshold) ⊎ (db.check_vip remote_ip ≢ pos 0))
                          hits (there a),
                    ),
                    λ ok. back (
                        subst
                          (λ n. (n ≤ℤ c.connection_threshold) ⊎ (db.check_vip remote_ip ≢ pos 0))
                          (sym hits) ok.1),
                  );
                };
                history = m';
              }
        ]
