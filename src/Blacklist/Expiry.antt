-- ===== src/Blacklist/Expiry.antt =====
-- src/auto_blacklist.c: `expiring` over the whole table, against the histories.
use native.Mathlib.Decide.{ℕ_discrete, dec_lt}
use native.Mathlib.Nat.{le_trans}
use tcp_proxy.Prelude.{
  ℕ, zero, suc, ◌+◌, ◌/◌, ◌%◌, ◌^◌, ◌≤◌, ◌<◌, ◌≡◌, ◌≢◌, refl, sym, ap, ◌∙◌, subst, inl, inr, true,
  false, List, [], ◌∷◌, Option, none, some, arith, if◌then◌else◌, Bool-cases, length,
}
use tcp_proxy.Prelude.Int.{ℤ, pos, eqb_ℤ, eqb_ℤ→eq}
use tcp_proxy.Prelude.Table.{update}
use tcp_proxy.Blacklist.{
  IpAccessEntry, Blacklist, reserved_entry, find_entry, sweep, sweep_from, free_entry, free_all,
  expiring,
}
use tcp_proxy.Blacklist.Ring.{clear_outdated_data-Cleared}
use tcp_proxy.Blacklist.Window.{window_hits, Tracks, IsPast-mono, counter-window_hits}
use tcp_proxy.Blacklist.Access.{Cleared-Tracks}
use tcp_proxy.Blacklist.Chains.{swept, occurrences-sweep, find_entry-sweep}
use tcp_proxy.Blacklist.Service.{
  EntryHolds, absent, present, chain_of, Models, current_time_index_lem, window_hits_later,
}

module _ {T : Type 0} where
  -- What the search for an address finds right after a sweep at slot `c`: an entry exactly where
  -- something of the history is in the window, and up to date.
  pub data UpToDate (hist : List ℕ) (c : ℕ) : Option (IpAccessEntry T) → Type 0 where
    gone : window_hits c hist ≡ 0 → UpToDate hist c none
    kept :
        (e : IpAccessEntry T)
        → 0 < window_hits c hist
        → e.counter ≡ pos (window_hits c hist)
        → UpToDate hist c (some e)

  swept-some :
      (hist : List ℕ) (c : ℕ) (e : IpAccessEntry T)
      → Tracks hist c e
      → (b : _) → eqb_ℤ e.counter (pos 0) ≡ b
      → UpToDate hist c (if b then none else some e)
        × EntryHolds hist c (if b then none else some e)
  swept-some hist c e t true h =
      let total = counter-window_hits hist c e t in
      let empty : window_hits c hist ≡ 0 = ground arith in (gone empty, absent t.past empty)
  swept-some hist c e t false h =
      let total = counter-window_hits hist c e t in
      (kept e (ground arith) total, present e c (omega arith) t)

  swept-EntryHolds :
      (hist : List ℕ) (c c' : ℕ) (found : Option (IpAccessEntry T))
      → c ≤ c'
      → EntryHolds hist c found
      → UpToDate hist c' (swept (c' % reserved_entry) (pos c') found)
        × EntryHolds hist c' (swept (c' % reserved_entry) (pos c') found)
  swept-EntryHolds hist c c' none le (absent past none_in) =
      let later = window_hits_later c c' hist le none_in in
      (gone later, absent (IsPast-mono c c' hist le past) later)
  swept-EntryHolds hist c c' (some e) le (present e₀ c₀ before t) =
      swept-some hist c' _
        (Cleared-Tracks hist c₀ c' e _ t (omega arith)
          (clear_outdated_data-Cleared e c' (omega (arith, t.late))))
        _ refl

  free_all_lem :
      (b : Blacklist T) (free_list : List (IpAccessEntry T))
      → ((free_all b free_list).chains ≡ b.chains)
        × ((free_all b free_list).hash_buffer_size ≡ b.hash_buffer_size)
        × ((free_all b free_list).frequency_in_seconds ≡ b.frequency_in_seconds)
        × (length (free_all b free_list).release_pool ≡ length b.release_pool + length free_list)
  unfolding free_all free_entry
  free_all_lem b [] = (refl, refl, refl, omega arith)
  free_all_lem b (e ∷ free_list) =
      let (chains, size, freq, pool) = free_all_lem (free_entry b e) free_list in
      (chains, size, freq, omega (arith, pool))

  -- The buckets from `k` on, `n` of them, are swept; each released entry goes to the pool.
  record SweptFrom (n k index : ℕ) (slot : ℤ) (b : Blacklist T) (released : ℕ) (r : Blacklist T × ℕ)
      : Type 0 where
    size : r.0.hash_buffer_size ≡ b.hash_buffer_size
    freq : r.0.frequency_in_seconds ≡ b.frequency_in_seconds
    inside : (j : ℕ) → k ≤ j → j < k + n → r.0.chains j ≡ (sweep index slot (b.chains j) []).0
    outside : (j : ℕ) → (j < k) → r.0.chains j ≡ b.chains j
    above : (j : ℕ) → (k + n ≤ j) → r.0.chains j ≡ b.chains j
    pool : length r.0.release_pool + released ≡ length b.release_pool + r.1

  sweep_from-SweptFrom :
      (n k index : ℕ) (slot : ℤ) (b : Blacklist T) (released : ℕ)
      → SweptFrom n k index slot b released (sweep_from n k index slot b released)
  unfolding sweep_from
  sweep_from-SweptFrom zero k index slot b released = record {
    size = refl;
    freq = refl;
    inside = λ j lo hi. absurd (omega arith);
    outside = λ j lt. refl;
    above = λ j le. refl;
    pool = refl;
  }
  sweep_from-SweptFrom (suc n) k index slot b released =
      let (left, free_list) = sweep index slot (b.chains k) [] in
      let start = record b { chains = update b.chains k left } in
      let (chains, size, freq, pool) = free_all_lem start free_list in
      let rest =
        sweep_from-SweptFrom n (k + 1) index slot (free_all start free_list)
          (released + length free_list) in
      record {
        size = rest.size ∙ size;
        freq = rest.freq ∙ freq;
        inside = λ j lo hi. elim (ℕ_discrete j k) [
          | yes same ↦ rest.outside j (omega arith) ∙ rw (chains, same) (ground arith)
          | no apart ↦
              rest.inside j (omega arith) (omega arith)
              ∙ ap (λ c. (sweep index slot c []).0) (rw chains (ground arith))
        ];
        outside = λ j lt. rest.outside j (omega arith) ∙ (rw chains (ground arith));
        above = λ j le. rest.above j (omega arith) ∙ (rw chains (ground arith));
        pool = omega (arith, rest.pool, pool);
      }

  -- What a sweep at slot `slot` leaves: no address without an access in the window has an entry, every
  -- other has one with its count, and the released entries are in the pool.
  pub record Expired (hist : ℕ → List ℕ) (slot : ℕ) (b b' : Blacklist T) (released : ℕ)
      : Type 0 where
    pub models : Models hist slot b'
    pub current : (q : ℕ) → UpToDate (hist q) slot (find_entry q (chain_of b' q))
    pub pooled : length b'.release_pool ≡ length b.release_pool + released

  sweep_all-Expired :
      (hist : ℕ → List ℕ) (c slot : ℕ) (b b' : Blacklist T) (released : ℕ)
      → Models hist c b
      → c ≤ slot
      → SweptFrom b.hash_buffer_size 0 (slot % reserved_entry) (pos slot) b 0 (b', released)
      → Expired hist slot b b' released
  sweep_all-Expired hist c slot b b' released m le w = record {
    models = record {
      sized = rw w.size m.sized;
      timed = rw w.freq m.timed;
      late = omega (arith, m.late);
      once = λ q k. elim (dec_lt k b.hash_buffer_size) [
        | yes lt ↦ rw (w.inside k (omega arith) (omega arith)) (
            le_trans (occurrences-sweep (slot % reserved_entry) (pos slot) q (b.chains k) [])
              (m.once q k))
        | no ge ↦ rw (w.above k (omega arith)) (m.once q k)
      ];
      holds = λ q. subst (EntryHolds (hist q) slot) (sym (searched q)) (both q).1;
    };
    current = λ q. subst (UpToDate (hist q) slot) (sym (searched q)) (both q).0;
    pooled = omega (arith, w.pool);
  }
    where
      both :
          (q : ℕ)
          → UpToDate
              (hist q)
              slot
              (swept (slot % reserved_entry) (pos slot) (find_entry q (chain_of b q)))
            × EntryHolds
                (hist q)
                slot
                (swept (slot % reserved_entry) (pos slot) (find_entry q (chain_of b q)))
      both q = swept-EntryHolds (hist q) c slot (find_entry q (chain_of b q)) le (m.holds q)

      searched :
          (q : ℕ)
          → find_entry q (chain_of b' q)
            ≡ swept (slot % reserved_entry) (pos slot) (find_entry q (chain_of b q))
      searched q =
          ap (λ n. find_entry q (b'.chains (q % n))) w.size
          ∙ ap (find_entry q)
              (w.inside (q % b.hash_buffer_size) (omega arith) (omega (arith, m.sized)))
          ∙ find_entry-sweep (slot % reserved_entry) (pos slot) q (chain_of b q) [] (m.once q _)

  Expired-recent_index :
      (hist : ℕ → List ℕ) (slot : ℕ) (b b' : Blacklist T) (released : ℕ) (i : ℤ)
      → Expired hist slot b b' released
      → Expired hist slot b (record b' { recent_index = i }) released
  Expired-recent_index hist slot b b' released i x = record {
    models = record {
      sized = x.models.sized;
      timed = x.models.timed;
      late = x.models.late;
      once = x.models.once;
      holds = x.models.holds;
    };
    current = x.current;
    pooled = x.pooled;
  }

  -- On a table that holds the access histories up to a slot, at a time not before it whose slot
  -- number fits an `int` and whose index is not that of the last sweep, `expiring` returns a table
  -- that holds the same histories as of the new slot, in which no address without an access in the
  -- latest 12 slots has an entry, whose pool has grown by the number of released entries that it
  -- returns, and notes the index.
  pub expiring-Expired :
      (hist : ℕ → List ℕ) (c : ℕ) (b : Blacklist T) (now : ℕ)
      → Models hist c b
      → c ≤ now / b.frequency_in_seconds
      → now / b.frequency_in_seconds < 2 ^ 31
      → b.recent_index ≢ pos (now / b.frequency_in_seconds % reserved_entry)
      → (b' : Blacklist T) × (released : ℕ) × (expiring b now ≡ some (b', released))
        × Expired hist (now / b.frequency_in_seconds) b b' released
        × (b'.recent_index ≡ pos (now / b.frequency_in_seconds % reserved_entry))
  unfolding expiring
  expiring-Expired hist c b now m le small moved =
      let slot = now / b.frequency_in_seconds in
      let index = slot % reserved_entry in
      let r = sweep_from b.hash_buffer_size 0 index (pos slot) b 0 in
      let other : eqb_ℤ (pos index) b.recent_index ≡ false =
        elim (Bool-cases (eqb_ℤ (pos index) b.recent_index)) [
          | inl e ↦ absurd (moved (sym (eqb_ℤ→eq (pos index) b.recent_index e)))
          | inr e ↦ e
        ] in
      (
        record r.0 { recent_index = pos index },
        r.1,
        rw (current_time_index_lem b.frequency_in_seconds now m.timed small, expiring, other) refl,
        Expired-recent_index hist slot b r.0 r.1 (pos index) (
            sweep_all-Expired hist c slot b r.0 r.1 m le
              (sweep_from-SweptFrom b.hash_buffer_size 0 index (pos slot) b 0)),
        refl,
      )

  -- At the same index as the last sweep nothing is done.
  pub expiring_again :
      (b : Blacklist T) (now : ℕ)
      → 0 < b.frequency_in_seconds
      → now / b.frequency_in_seconds < 2 ^ 31
      → b.recent_index ≡ pos (now / b.frequency_in_seconds % reserved_entry)
      → expiring b now ≡ some (b, 0)
  unfolding expiring
  expiring_again b now timed small same =
      rw (current_time_index_lem b.frequency_in_seconds now timed small, expiring, same)
        (ground arith)
