-- ===== src/Proxying/Admission/Safety.antt =====
-- src/proxying.c: who is never let in by `accepting_request`.
use tcp_proxy.Prelude.{
  ℕ, ◌/◌, ◌≡◌, ◌⊎◌, inl, inr, true, false, none, some, List, arith, Bool-cases, Option-cases,
}
use tcp_proxy.Prelude.Int.{pos, negsuc, ◌≤ℤ◌, ltb_ℤ}
use tcp_proxy.Blacklist.{Blacklist, IpAccessEntry, find_and_increase}
use tcp_proxy.Proxying.{ProxyRequest}
use tcp_proxy.Proxying.Admission.{
  Config, Database, Peer, Verdict, judge, plain_verdict, htonl, is_v4, check_remote_ip_in_whitelist,
}
use tcp_proxy.Proxying.Admission.Judgement.{Admits}

refused : (v : Verdict) → v.channel ≡ negsuc 0 → ¬ Admits v
refused v e a = absurd (ground (arith, e, a))

module _ (c : Config) (db : Database) (remote_ip : List ℕ) (peer : Peer) (now : ℕ)
    (garbage : IpAccessEntry ℕ) (b : Blacklist ℕ) (v : Verdict) where
  unlisted :
      judge c db remote_ip peer now garbage b ≡ some v
      → db.check_available remote_ip ≡ none
      → check_remote_ip_in_whitelist c.white_list remote_ip ≡ false
      → v.channel ≡ negsuc 0
  unfolding judge plain_verdict
  unlisted j free out = ground (arith, j, free, out)

  blacklisted_v6 :
      judge c db remote_ip peer now garbage b ≡ some v
      → db.check_available remote_ip ≡ none
      → check_remote_ip_in_whitelist c.white_list remote_ip ≡ true
      → ltb_ℤ (pos 0) (db.connection_blacklisted remote_ip) ≡ true
      → is_v4 peer ≡ false
      → v.channel ≡ negsuc 0
  unfolding judge plain_verdict
  blacklisted_v6 j free listed black v6 = ground (arith, j, free, listed, black, v6)

  blacklisted_v4 :
      (r : Blacklist ℕ × IpAccessEntry ℕ)
      → judge c db remote_ip peer now garbage b ≡ some v
      → db.check_available remote_ip ≡ none
      → check_remote_ip_in_whitelist c.white_list remote_ip ≡ true
      → ltb_ℤ (pos 0) (db.connection_blacklisted remote_ip) ≡ true
      → is_v4 peer ≡ true
      → find_and_increase b garbage (now / 1000000) now (htonl peer.word3) ≡ some r
      → v.channel ≡ negsuc 0
  unfolding judge plain_verdict
  blacklisted_v4 r j free listed black v4 found = ground (arith, j, free, listed, black, v4, found)

  fault :
      judge c db remote_ip peer now garbage b ≡ some v
      → db.check_available remote_ip ≡ none
      → check_remote_ip_in_whitelist c.white_list remote_ip ≡ true
      → is_v4 peer ≡ true
      → find_and_increase b garbage (now / 1000000) now (htonl peer.word3) ≡ none
      → ⊥
  unfolding judge
  fault j free listed v4 found = ground (arith, j, free, listed, v4, found)

-- If the verdict on an address exists and lets the connection in, whatever the address family, the
-- history and the answers of the database, then the database has a request for the address, or the
-- address is in the white list and not blacklisted.
pub judge-Admits :
    (c : Config) (db : Database) (remote_ip : List ℕ) (peer : Peer) (now : ℕ)
    (garbage : IpAccessEntry ℕ) (b : Blacklist ℕ) (v : Verdict)
    → judge c db remote_ip peer now garbage b ≡ some v
    → Admits v
    → ((r : ProxyRequest) × (db.check_available remote_ip ≡ some r))
      ⊎ ((check_remote_ip_in_whitelist c.white_list remote_ip ≡ true)
          × (db.connection_blacklisted remote_ip ≤ℤ pos 0))
judge-Admits c db remote_ip peer now garbage b v j a =
    elim (Option-cases (db.check_available remote_ip)) [
      | inr (r, e) ↦ inl (r, e)
      | inl free ↦ elim (Bool-cases (check_remote_ip_in_whitelist c.white_list remote_ip)) [
        | inr out ↦ absurd (refused v (unlisted c db remote_ip peer now garbage b v j free out) a)
        | inl listed ↦ elim (Bool-cases (ltb_ℤ (pos 0) (db.connection_blacklisted remote_ip))) [
          | inr white ↦ inr (listed, ground (arith, white))
          | inl black ↦ elim (Bool-cases (is_v4 peer)) [
            | inr v6 ↦ absurd (
                refused v
                  (blacklisted_v6 c db remote_ip peer now garbage b v j free listed black v6) a)
            | inl v4 ↦
                elim (Option-cases
                  (find_and_increase b garbage (now / 1000000) now (htonl peer.word3))) [
                    | inl none_found ↦
                        absurd
                          (fault c db remote_ip peer now garbage b v j free listed v4 none_found)
                    | inr (r, found) ↦ absurd (
                        refused v
                          (blacklisted_v4 c db remote_ip peer now garbage b v r j free listed black
                            v4 found)
                          a)
                  ]
          ]
        ]
      ]
    ]
