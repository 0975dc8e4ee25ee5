-- ===== src/Blacklist/Service.antt =====
-- src/auto_blacklist.c: `find_and_increase` on the whole table, against the history of accesses of
-- every address.
use native.Mathlib.Decide.{ℕ_discrete}
use mathlib.Core.Path.{subst₂}
use tcp_proxy.Prelude.{
  ℕ, zero, suc, ◌/◌, ◌%◌, ◌^◌, ◌≤◌, ◌<◌, ◌≡◌, ◌≢◌, refl, ◌∙◌, List, [], ◌∷◌, Option, none, some,
  arith,
}
use tcp_proxy.Prelude.Int.{ℤ, pos}
use tcp_proxy.Prelude.Table.{update}
use tcp_proxy.Blacklist.{
  IpAccessEntry, Blacklist, reserved_entry, to_int, current_time_index, find_entry, write_entry,
  allocate_new_entry, reset_entry, open_slot, count_one, increase, find_and_increase,
  new_auto_blacklist_service,
}
use tcp_proxy.Blacklist.Ring.{ipaddr-clear_outdated_data}
use tcp_proxy.Blacklist.Window.{window_hits, IsPast, IsPast-mono, Tracks, counter-window_hits}
use tcp_proxy.Blacklist.Access.{increase-Tracks, increase-reset_entry-Tracks}
use tcp_proxy.Blacklist.Chains.{
  occurrences, find_entry-ipaddr, find_entry-write_entry, find_entry-write_entry_ne,
  occurrences-write_entry, find_entry-cons, find_entry-cons_ne, occurrences-cons,
}

-- Once out of the window, always out of it.
pub window_hits_later :
    (c c' : ℕ) (hist : List ℕ) → c ≤ c' → window_hits c hist ≡ 0 → window_hits c' hist ≡ 0
window_hits_later c c' [] le h = refl
window_hits_later c c' (x ∷ hist) le h = ground (arith, window_hits_later c c' hist le)

-- The slot number at time `now` and its index, within the range of `int`.
pub current_time_index_lem :
    (frequency now : ℕ)
    → 0 < frequency
    → now / frequency < 2 ^ 31
    → current_time_index frequency now
      ≡ some (now / frequency % reserved_entry, pos (now / frequency))
unfolding current_time_index to_int
current_time_index_lem zero now lt small = absurd (omega arith)
current_time_index_lem (suc f) now lt small = ground arith

module _ {T : Type 0} where
  -- What the search for an address may find at slot `c`: an entry that holds its history up to some
  -- slot, or nothing, and then nothing of the history is in the window.
  pub data EntryHolds (hist : List ℕ) (c : ℕ) : Option (IpAccessEntry T) → Type 0 where
    absent : IsPast c hist → window_hits c hist ≡ 0 → EntryHolds hist c none
    present :
        (e : IpAccessEntry T) (c₀ : ℕ) → c₀ ≤ c → Tracks hist c₀ e → EntryHolds hist c (some e)

  pub EntryHolds-mono :
      (hist : List ℕ) (c c' : ℕ) {found : Option (IpAccessEntry T)}
      → c ≤ c'
      → EntryHolds hist c found
      → EntryHolds hist c' found
  EntryHolds-mono hist c c' le (absent past none_in) =
      absent (IsPast-mono c c' hist le past) (window_hits_later c c' hist le none_in)
  EntryHolds-mono hist c c' le (present e c₀ before t) = present e c₀ (omega arith) t

  pub EntryHolds-cast :
      {hist hist' : List ℕ} {found found' : Option (IpAccessEntry T)} (c : ℕ)
      → hist ≡ hist'
      → found ≡ found'
      → EntryHolds hist c found
      → EntryHolds hist' c found'
  EntryHolds-cast c p q h = subst₂ (λ x y. EntryHolds x c y) p q h

  abbrev pub chain_of : Blacklist T → ℕ → List (IpAccessEntry T)
  chain_of b ip = b.chains (ip % b.hash_buffer_size)

  -- The table holds the histories `hist` of all addresses up to slot `c`.
  pub record Models (hist : ℕ → List ℕ) (c : ℕ) (b : Blacklist T) : Type 0 where
    pub sized : 0 < b.hash_buffer_size
    pub timed : 0 < b.frequency_in_seconds
    pub late : reserved_entry ≤ suc c
    pub once : (q k : ℕ) → occurrences q (b.chains k) ≤ 1
    pub holds : (q : ℕ) → EntryHolds (hist q) c (find_entry q (chain_of b q))

  pub new-Models :
      (hash_size monitor_period c : ℕ)
      → 0 < hash_size
      → reserved_entry ≤ monitor_period
      → reserved_entry ≤ suc c
      → Models (λ _. []) c (new_auto_blacklist_service {T = T} hash_size monitor_period)
  unfolding new_auto_blacklist_service occurrences find_entry
  new-Models hash_size monitor_period c sized timed late = record {
    sized = sized;
    timed = omega arith;
    late = late;
    once = λ q k. omega arith;
    holds = λ q. absent tt refl;
  }

  -- `find_and_increase` on its two paths.
  find_and_increase-old :
      (b : Blacklist T) (garbage : IpAccessEntry T) (now : ℕ) (tv : T) (ip : ℕ)
      (e : IpAccessEntry T)
      → 0 < b.hash_buffer_size
      → 0 < b.frequency_in_seconds
      → now / b.frequency_in_seconds < 2 ^ 31
      → find_entry ip (chain_of b ip) ≡ some e
      → (let slot = now / b.frequency_in_seconds in
          let e' = increase e (slot % reserved_entry) (pos slot) in
          find_and_increase b garbage now tv ip
          ≡ some (
            record b {
              chains =
                  update b.chains (ip % b.hash_buffer_size) (write_entry ip e' (chain_of b ip));
            },
            e',
          ))
  unfolding find_and_increase
  find_and_increase-old b garbage now tv ip e sized timed small found =
      ground (arith, current_time_index_lem b.frequency_in_seconds now timed small, found)

  find_and_increase-new :
      (b : Blacklist T) (garbage : IpAccessEntry T) (now : ℕ) (tv : T) (ip : ℕ)
      → 0 < b.hash_buffer_size
      → 0 < b.frequency_in_seconds
      → now / b.frequency_in_seconds < 2 ^ 31
      → find_entry ip (chain_of b ip) ≡ none
      → (let slot = now / b.frequency_in_seconds in
          let (entry, b') = allocate_new_entry b garbage in
          let e' = increase (reset_entry entry ip tv) (slot % reserved_entry) (pos slot) in
          find_and_increase b garbage now tv ip
          ≡ some (
            record b' { chains = update b.chains (ip % b.hash_buffer_size) (e' ∷ chain_of b ip) },
            e',
          ))
  unfolding find_and_increase
  find_and_increase-new b garbage now tv ip sized timed small missing =
      ground (arith, current_time_index_lem b.frequency_in_seconds now timed small, missing)

  -- The owner of an entry is not touched by counting.
  ipaddr-increase :
      (e : IpAccessEntry T) (index : ℕ) (slot : ℤ) → (increase e index slot).ipaddr ≡ e.ipaddr
  unfolding increase open_slot count_one
  ipaddr-increase e index slot = ground (arith, ipaddr-clear_outdated_data e index slot)

  ipaddr-fresh :
      (ip : ℕ) (tv : T) (e : IpAccessEntry T) (index : ℕ) (slot : ℤ)
      → (increase (reset_entry e ip tv) index slot).ipaddr ≡ ip
  unfolding reset_entry
  ipaddr-fresh ip tv e index slot = ipaddr-increase (reset_entry e ip tv) index slot

  allocate_new_entry_keeps :
      (b : Blacklist T) (garbage : IpAccessEntry T)
      → ((allocate_new_entry b garbage).1.hash_buffer_size ≡ b.hash_buffer_size)
        × ((allocate_new_entry b garbage).1.frequency_in_seconds ≡ b.frequency_in_seconds)
  unfolding allocate_new_entry
  allocate_new_entry_keeps b garbage = ground arith

  -- A chain that changes at one address only.
  replace_chain-Models :
      (hist : ℕ → List ℕ) (c slot : ℕ) (b b' : Blacklist T) (ip : ℕ) (e' : IpAccessEntry T)
      (chain : List (IpAccessEntry T))
      → Models hist c b
      → c ≤ slot
      → b'.hash_buffer_size ≡ b.hash_buffer_size
      → b'.frequency_in_seconds ≡ b.frequency_in_seconds
      → b'.chains ≡ update b.chains (ip % b.hash_buffer_size) chain
      → Tracks (slot ∷ hist ip) slot e'
      → find_entry ip chain ≡ some e'
      → ((q : ℕ) → q ≢ ip → find_entry q chain ≡ find_entry q (chain_of b ip))
      → ((q : ℕ) → occurrences q chain ≤ 1)
      → Models (update hist ip (slot ∷ hist ip)) slot b'
  replace_chain-Models hist c slot b b' ip e' chain m le size freq chains t self other once =
      record {
        sized = rw size m.sized;
        timed = rw freq m.timed;
        late = omega (arith, m.late);
        once = λ q k. rw chains (ground (arith, m.once q k, once q));
        holds = λ q. elim (ℕ_discrete q ip) [
          | yes same ↦
              EntryHolds-cast slot (ground arith) (rw (size, chains, same) (ground (arith, self)))
                (present e' slot (omega arith) t)
          | no apart ↦
              EntryHolds-cast slot (ground arith)
                (rw (size, chains) (ground (arith, other q apart)))
                (EntryHolds-mono (hist q) c slot le (m.holds q))
        ];
      }

  -- What one call does at slot `slot`: the entry of the address comes back with the number of
  -- accesses in the window, this one included, and the table holds the history with it.
  pub data Counted (hist : ℕ → List ℕ) (slot ip : ℕ)
      : Option (Blacklist T × IpAccessEntry T) → Type 0 where
    counted :
        (b' : Blacklist T) (e' : IpAccessEntry T)
        → e'.ipaddr ≡ ip
        → e'.counter ≡ pos (window_hits slot (slot ∷ hist ip))
        → Models (update hist ip (slot ∷ hist ip)) slot b'
        → Counted hist slot ip (some (b', e'))

  -- On a table that holds the access histories of all addresses up to a slot, at a time not before
  -- it whose slot number fits an `int`, `find_and_increase` returns the entry of the address with a
  -- counter equal to the number of its accesses in the latest 12 slots, this one included, and
  -- leaves a table that holds the histories with this access.
  pub find_and_increase-Counted :
      (hist : ℕ → List ℕ) (c : ℕ) (b : Blacklist T) (garbage : IpAccessEntry T) (now : ℕ) (tv : T)
      (ip : ℕ)
      → Models hist c b
      → c ≤ now / b.frequency_in_seconds
      → now / b.frequency_in_seconds < 2 ^ 31
      → Counted hist (now / b.frequency_in_seconds) ip (find_and_increase b garbage now tv ip)
  find_and_increase-Counted hist c b garbage now tv ip m le small =
      search (find_entry ip (chain_of b ip)) refl (m.holds ip)
    where
      slot : ℕ
      slot = now / b.frequency_in_seconds

      search :
          (found : Option (IpAccessEntry T))
          → find_entry ip (chain_of b ip) ≡ found
          → EntryHolds (hist ip) c found
          → Counted hist slot ip (find_and_increase b garbage now tv ip)
      search none missing (absent past none_in) =
          let tracks =
            increase-reset_entry-Tracks (hist ip) slot ip tv (allocate_new_entry b garbage).0
              (omega (arith, m.late)) (IsPast-mono c slot (hist ip) le past)
              (window_hits_later c slot (hist ip) le none_in) in
          let owner =
            ipaddr-fresh ip tv (allocate_new_entry b garbage).0 (slot % reserved_entry)
              (pos slot) in
          let e' =
            increase (reset_entry (allocate_new_entry b garbage).0 ip tv) (slot % reserved_entry)
              (pos slot) in
          let (size, freq) = allocate_new_entry_keeps b garbage in
          rw (find_and_increase-new b garbage now tv ip m.sized m.timed small missing) (
            counted _ e' owner (counter-window_hits _ slot e' tracks) (
              replace_chain-Models hist c slot b _ ip e' (e' ∷ chain_of b ip) m le size freq refl
                tracks (find_entry-cons ip e' (chain_of b ip) owner)
                (λ q apart. find_entry-cons_ne ip q e' (chain_of b ip) owner apart)
                (λ q. occurrences-cons ip q e' (chain_of b ip) owner missing (m.once q _))))
      search (some e) found (present e₀ c₀ before t) =
          let tracks = increase-Tracks (hist ip) c₀ slot e t (omega arith) in
          let e' = increase e (slot % reserved_entry) (pos slot) in
          let owner : e'.ipaddr ≡ ip =
            ipaddr-increase e (slot % reserved_entry) (pos slot)
            ∙ find_entry-ipaddr ip (chain_of b ip) e found in
          rw (find_and_increase-old b garbage now tv ip e m.sized m.timed small found) (
            counted _ e' owner (counter-window_hits _ slot e' tracks) (
              replace_chain-Models hist c slot b _ ip e' (write_entry ip e' (chain_of b ip)) m le
                refl refl refl tracks (find_entry-write_entry ip e' owner (chain_of b ip) e found)
                (λ q apart. find_entry-write_entry_ne ip e' owner q (chain_of b ip) apart)
                (λ q. rw (occurrences-write_entry ip e' owner q (chain_of b ip)) (m.once q _))))
