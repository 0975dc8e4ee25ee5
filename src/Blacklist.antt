-- ===== src/Blacklist.antt =====
-- src/auto_blacklist.c: how often each IPv4 address came within the monitored period. Each address
-- has a ring of 12 counters, one for each of the latest 12 time slots, and the entries hang in
-- chains of a hash table. The mutexes are not modelled: an operation is one step.
pub mod Ring
pub mod Window
pub mod Access
pub mod Chains
pub mod Service
pub mod Expiry
mod Tests
use tcp_proxy.Prelude.{
  ℕ, zero, suc, ◌+◌, ◌-◌, ◌^◌, length, ◌*◌, ◌/◌, ◌%◌, ◌≡◌, Bool, true, false, ◌&&◌, Option, none,
  some, List, [], ◌∷◌, ◌++◌, arith, leb, ltb, ◌==◌, if◌then◌else◌,
}
use tcp_proxy.Prelude.Int.{ℤ, pos, negsuc, ◌+ℤ◌, ◌-ℤ◌, eqb_ℤ, ltb_ℤ}
use tcp_proxy.Prelude.Table.{update}

-- RESERVED_ENTRY
abbrev pub reserved_entry : ℕ
reserved_entry = 12

-- `struct access_entry_t`; the counter only grows by one or becomes 0.
pub record AccessEntry : Type 0 where
  pub counter : ℕ
  pub slot_index : ℤ

-- `struct ip_access_entry_t`, without the link: a chain is a list. `T` is `struct timeval`.
pub record IpAccessEntry (T : Type 0) : Type 0 where
  pub ipaddr : ℕ
  pub access_count : ℕ → AccessEntry
  pub counter : ℤ
  pub success_counter : ℤ
  pub log_time : T

-- The statics of the file: the configuration, the chain of each bucket, the pool of released
-- entries, and `recent_index` of `expiring`.
pub record Blacklist (T : Type 0) : Type 0 where
  pub hash_buffer_size : ℕ
  pub frequency_in_seconds : ℕ
  pub chains : ℕ → List (IpAccessEntry T)
  pub release_pool : List (IpAccessEntry T)
  pub recent_index : ℤ

-- `int simplified = current_time / frequency_in_seconds`, narrowed to 32 bits.
unfoldable pub to_int : ℕ → ℤ
to_int n = let low = n % 2 ^ 32 in if ltb low (2 ^ 31) then pos low else negsuc (2 ^ 32 - 1 - low)

-- The index in the ring and the slot number. `none` is a fault: a division by zero, or a negative
-- index, which lies outside the array.
unfoldable pub current_time_index : ℕ → ℕ → Option (ℕ × ℤ)
unfolding to_int
current_time_index zero now = none
current_time_index frequency now = elim (to_int (now / frequency)) [
  | pos n ↦ some (n % reserved_entry, pos n)
  | negsuc n ↦ none
]

module _ {T : Type 0} where
  -- One turn of the loop of `clear_outdated_data`, at index `i` and slot number `s`.
  unfoldable pub clear_slot : IpAccessEntry T → ℕ → ℤ → IpAccessEntry T
  clear_slot e i s =
      let old = e.access_count i in
      if eqb_ℤ old.slot_index s
      then e
      else if ltb 0 old.counter
      then record e {
        access_count = update e.access_count i (record { counter = 0; slot_index = s });
        counter = e.counter -ℤ pos old.counter;
      }
      else record e { access_count = update e.access_count i (record old { slot_index = s }) }

  -- The loop, with `n` turns left.
  unfoldable pub clear_from : ℕ → IpAccessEntry T → ℕ → ℤ → IpAccessEntry T
  clear_from zero e i s = e
  clear_from (suc n) e i s =
      clear_from n (clear_slot e i s) ((i + reserved_entry - 1) % reserved_entry) (s -ℤ pos 1)

  unfoldable pub clear_outdated_data : IpAccessEntry T → ℕ → ℤ → IpAccessEntry T
  clear_outdated_data = clear_from reserved_entry

  -- `while (entry != NULL)` in `find_and_increase`.
  unfoldable pub find_entry : ℕ → List (IpAccessEntry T) → Option (IpAccessEntry T)
  find_entry ip [] = none
  find_entry ip (e ∷ chain) = if e.ipaddr == ip then some e else find_entry ip chain

  -- A write through the pointer that the search returns.
  unfoldable pub write_entry : ℕ → IpAccessEntry T → List (IpAccessEntry T) → List (IpAccessEntry T)
  write_entry ip v [] = []
  write_entry ip v (e ∷ chain) = if e.ipaddr == ip then v ∷ chain else e ∷ write_entry ip v chain

  -- An entry of the pool, or a new one, whose content `garbage` is what `malloc` returns.
  unfoldable pub allocate_new_entry : Blacklist T → IpAccessEntry T → IpAccessEntry T × Blacklist T
  allocate_new_entry b garbage = elim b.release_pool [
    | [] ↦ (garbage, b)
    | e ∷ pool ↦ (e, record b { release_pool = pool })
  ]

  unfoldable pub free_entry : Blacklist T → IpAccessEntry T → Blacklist T
  free_entry b e = record b { release_pool = e ∷ b.release_pool }

  -- The fields that `find_and_increase` sets in a new entry.
  unfoldable pub reset_entry : IpAccessEntry T → ℕ → T → IpAccessEntry T
  reset_entry e ip tv = record e {
    ipaddr = ip;
    counter = pos 0;
    success_counter = pos 0;
    access_count = λ _. record { counter = 0; slot_index = pos 0 };
    log_time = tv;
  }

  -- The test of the slot in `find_and_increase`.
  unfoldable pub open_slot : IpAccessEntry T → ℕ → ℤ → IpAccessEntry T
  open_slot e index slot =
      if eqb_ℤ (e.access_count index).slot_index slot then e else clear_outdated_data e index slot

  -- `entry->access_count[index].counter++; entry->counter++;`
  unfoldable pub count_one : IpAccessEntry T → ℕ → IpAccessEntry T
  count_one e index =
      let old = e.access_count index in
      record e {
        access_count = update e.access_count index (record old { counter = suc old.counter });
        counter = e.counter +ℤ pos 1;
      }

  unfoldable pub increase : IpAccessEntry T → ℕ → ℤ → IpAccessEntry T
  increase e index slot = count_one (open_slot e index slot) index

  -- `ip` is the address in the byte order of the host, `now` the time in seconds, `tv` the time for
  -- `log_time`. The entry that the returned pointer shows comes with the new state.
  unfoldable pub find_and_increase :
      Blacklist T → IpAccessEntry T → ℕ → T → ℕ → Option (Blacklist T × IpAccessEntry T)
  unfolding current_time_index
  find_and_increase b garbage now tv ip =
      if b.hash_buffer_size == 0
      then none
      else elim (current_time_index b.frequency_in_seconds now) [
        | none ↦ none
        | some (index, slot) ↦
            let home = ip % b.hash_buffer_size in
            let chain = b.chains home in
            elim (find_entry ip chain) [
              | some e ↦
                  let e' = increase e index slot in
                  some (record b { chains = update b.chains home (write_entry ip e' chain) }, e')
              | none ↦
                  let (entry, b') = allocate_new_entry b garbage in
                  let e' = increase (reset_entry entry ip tv) index slot in
                  some (record b' { chains = update b.chains home (e' ∷ chain) }, e')
            ]
      ]

  -- The inner loop of `expiring` over one chain: what is kept, and the list of what is released.
  unfoldable pub sweep :
      ℕ
      → ℤ
      → List (IpAccessEntry T)
      → List (IpAccessEntry T)
      → List (IpAccessEntry T) × List (IpAccessEntry T)
  sweep index slot [] free_list = ([], free_list)
  sweep index slot (e ∷ chain) free_list =
      let e' = clear_outdated_data e index slot in
      let released = sweep index slot chain (e' ∷ free_list) in
      let rest = sweep index slot chain free_list in
      if eqb_ℤ e'.counter (pos 0) then released else (e' ∷ rest.0, rest.1)

  -- `while ((entry = free_list) != NULL)`, with the number of entries.
  unfoldable pub free_all : Blacklist T → List (IpAccessEntry T) → Blacklist T
  unfolding free_entry
  free_all b [] = b
  free_all b (e ∷ free_list) = free_all (free_entry b e) free_list

  -- The loop over the buckets, with `n` left from `k` on; `released` is `release_counter`.
  unfoldable pub sweep_from : ℕ → ℕ → ℕ → ℤ → Blacklist T → ℕ → Blacklist T × ℕ
  unfolding sweep free_all
  sweep_from zero k index slot b released = (b, released)
  sweep_from (suc n) k index slot b released =
      let (kept, free_list) = sweep index slot (b.chains k) [] in
      let b' = free_all (record b { chains = update b.chains k kept }) free_list in
      sweep_from n (k + 1) index slot b' (released + length free_list)

  unfoldable pub expiring : Blacklist T → ℕ → Option (Blacklist T × ℕ)
  unfolding current_time_index sweep_from
  expiring b now = elim (current_time_index b.frequency_in_seconds now) [
    | none ↦ none
    | some (index, slot) ↦
        if eqb_ℤ (pos index) b.recent_index
        then some (b, 0)
        else let (b', released) = sweep_from b.hash_buffer_size 0 index slot b 0 in
          some (record b' { recent_index = pos index }, released)
  ]

  -- The entries of one chain that `for_each` hands to its callback.
  unfoldable pub active_entries : List (IpAccessEntry T) → List (IpAccessEntry T)
  active_entries [] = []
  active_entries (e ∷ chain) =
      let rest = active_entries chain in if ltb_ℤ (pos 0) e.counter then e ∷ rest else rest

  -- The calls that `for_each` makes, in order, over `n` buckets from `k` on.
  unfoldable pub for_each_from : ℕ → ℕ → Blacklist T → List (IpAccessEntry T)
  unfolding active_entries
  for_each_from zero k b = []
  for_each_from (suc n) k b = active_entries (b.chains k) ++ for_each_from n (k + 1) b

  unfoldable pub for_each : Blacklist T → List (IpAccessEntry T)
  unfolding for_each_from
  for_each b = for_each_from b.hash_buffer_size 0 b

  -- The first call; a later call changes nothing.
  unfoldable pub new_auto_blacklist_service : ℕ → ℕ → Blacklist T
  new_auto_blacklist_service hash_size monitor_period = record {
    hash_buffer_size = hash_size;
    frequency_in_seconds = monitor_period / reserved_entry;
    chains = λ _. [];
    release_pool = [];
    recent_index = negsuc 0;
  }
