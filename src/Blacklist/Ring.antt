-- ===== src/Blacklist/Ring.antt =====
-- src/auto_blacklist.c: `clear_outdated_data` against a description of the ring. At slot number
-- `s`, index `k` of the ring stands for the one number `m` of `s - 11 … s` with `m % 12 = k`.
use native.Mathlib.Decide.{ℕ_discrete}
use tcp_proxy.Prelude.{
  ℕ, zero, suc, ◌+◌, ◌-◌, ◌%◌, ◌≤◌, ◌<◌, ◌≡◌, ◌≢◌, refl, sym, ap, ◌∙◌, subst, arith, if◌then◌else◌,
}
use tcp_proxy.Prelude.Int.{ℤ, pos, pos_part, neg_part, ◌+ℤ◌, ◌-ℤ◌, eq_of_parts, eqb_ℤ, int_laws}
use tcp_proxy.Prelude.Table.{sum_below, sum_below_except}
use tcp_proxy.Blacklist.{
  AccessEntry, IpAccessEntry, reserved_entry, clear_slot, clear_from, clear_outdated_data,
}

-- A counter that is not of slot number `m` starts anew.
abbrev pub refresh : ℕ → AccessEntry → AccessEntry
refresh m a = if eqb_ℤ a.slot_index (pos m) then a else record { counter = 0; slot_index = pos m }

abbrev pub counters : {T : Type 0} → IpAccessEntry T → ℕ → ℕ
counters e k = (e.access_count k).counter

-- The total of an entry is the sum of its ring.
abbrev pub IsBalanced : {T : Type 0} → IpAccessEntry T → Type 0
IsBalanced e = e.counter ≡ pos (sum_below reserved_entry (counters e))

-- The step of the loop from one slot to the one before it.
walk_back :
    (s : ℕ) → (suc s % reserved_entry + reserved_entry - 1) % reserved_entry ≡ s % reserved_entry
walk_back s = omega arith

pos_back : (s : ℕ) → pos (suc s) -ℤ pos 1 ≡ pos s
pos_back s = omega int_laws

module _ {T : Type 0} where
  clear_slot_self :
      (e : IpAccessEntry T) (i m : ℕ)
      → (clear_slot e i (pos m)).access_count i ≡ refresh m (e.access_count i)
  unfolding clear_slot
  clear_slot_self e i m = ground arith

  clear_slot-other :
      (e : IpAccessEntry T) (i : ℕ) (s : ℤ) (k : ℕ)
      → k ≢ i
      → (clear_slot e i s).access_count k ≡ e.access_count k
  unfolding clear_slot
  clear_slot-other e i s k ne = ground arith

  -- What leaves the slot leaves the total.
  clear_slot-counter :
      (e : IpAccessEntry T) (i : ℕ) (s : ℤ)
      → (clear_slot e i s).counter +ℤ pos (counters e i)
        ≡ e.counter +ℤ pos (counters (clear_slot e i s) i)
  unfolding clear_slot
  clear_slot-counter e i s =
      let back : e.counter -ℤ pos (counters e i) +ℤ pos (counters e i) ≡ e.counter +ℤ pos 0 =
        omega int_laws in
      ground (arith, back)

  clear_slot-IsBalanced :
      (e : IpAccessEntry T) (i : ℕ) (s : ℤ)
      → i < reserved_entry
      → IsBalanced e
      → IsBalanced (clear_slot e i s)
  clear_slot-IsBalanced e i s lt h =
      let after = clear_slot e i s in
      let others =
        sum_below_except reserved_entry (counters after) (counters e) i lt
          (λ k ne. ground (arith, clear_slot-other e i s k ne)) in
      let moved = clear_slot-counter e i s in
      let start : e.counter ≡ pos (sum_below reserved_entry (counters e)) = h in
      eq_of_parts _ _ (
        omega (
          int_laws,
          others,
          ap pos_part moved,
          ap neg_part moved,
          ap pos_part start,
          ap neg_part start,
        ))

  clear_from-step :
      (n : ℕ) (e : IpAccessEntry T) (s : ℕ)
      → clear_from (suc n) e (suc s % reserved_entry) (pos (suc s))
        ≡ clear_from n
            (clear_slot e (suc s % reserved_entry) (pos (suc s)))
            (s % reserved_entry)
            (pos s)
  unfolding clear_from
  clear_from-step n e s = λ i.
      clear_from n (clear_slot e (suc s % reserved_entry) (pos (suc s))) (walk_back s i)
        (pos_back s i)

  -- The loop from index `s % 12` and slot number `s`, while it does not pass slot number 0, leaves
  -- the indices alone that it does not visit.
  clear_from-other :
      (n : ℕ) (e : IpAccessEntry T) (s k : ℕ)
      → n ≤ suc s
      → ((m : ℕ) → m ≤ s → s < m + n → m % reserved_entry ≢ k)
      → (clear_from n e (s % reserved_entry) (pos s)).access_count k ≡ e.access_count k
  unfolding clear_from
  clear_from-other zero e s k le ne = refl
  clear_from-other (suc zero) e s k le ne =
      clear_slot-other e (s % reserved_entry) (pos s) k
        (λ p. ne s (omega arith) (omega arith) (sym p))
  clear_from-other (suc (suc n)) e zero k le ne = absurd (omega arith)
  clear_from-other (suc (suc n)) e (suc s) k le ne =
      ap (λ (r : IpAccessEntry T). r.access_count k) (clear_from-step (suc n) e s)
      ∙ clear_from-other (suc n) (clear_slot e (suc s % reserved_entry) (pos (suc s))) s k
          (omega arith) (λ m lo hi. ne m (omega arith) (omega arith))
      ∙ clear_slot-other e (suc s % reserved_entry) (pos (suc s)) k
          (λ p. ne (suc s) (omega arith) (omega arith) (sym p))

  -- And those that it visits it refreshes.
  clear_from-ring :
      (n : ℕ) (e : IpAccessEntry T) (s m : ℕ)
      → n ≤ reserved_entry
      → n ≤ suc s
      → m ≤ s
      → s < m + n
      → (clear_from n e (s % reserved_entry) (pos s)).access_count (m % reserved_entry)
        ≡ refresh m (e.access_count (m % reserved_entry))
  unfolding clear_from
  clear_from-ring zero e s m small le lo hi = absurd (omega arith)
  clear_from-ring (suc zero) e s m small le lo hi =
      let same : s ≡ m = omega arith in
      subst
        (λ j.
          (clear_slot e (s % reserved_entry) (pos s)).access_count (j % reserved_entry)
          ≡ refresh j (e.access_count (j % reserved_entry)))
        same (clear_slot_self e (s % reserved_entry) s)
  clear_from-ring (suc (suc n)) e zero m small le lo hi = absurd (omega arith)
  clear_from-ring (suc (suc n)) e (suc s) m small le lo hi =
      let first = clear_slot e (suc s % reserved_entry) (pos (suc s)) in
      ap (λ (r : IpAccessEntry T). r.access_count (m % reserved_entry))
        (clear_from-step (suc n) e s)
      ∙ elim (ℕ_discrete m (suc s)) [
        | yes p ↦
            clear_from-other (suc n) first s (m % reserved_entry) (omega arith)
              (λ j below above. omega arith)
            ∙ subst
                (λ j.
                  (clear_slot e (suc s % reserved_entry) (pos (suc s))).access_count
                    (j % reserved_entry)
                  ≡ refresh j (e.access_count (j % reserved_entry)))
                (sym p) (clear_slot_self e (suc s % reserved_entry) (suc s))
        | no d ↦
            clear_from-ring (suc n) first s m (omega arith) (omega arith) (omega arith)
              (omega arith)
            ∙ ap (refresh m) (
                clear_slot-other e (suc s % reserved_entry) (pos (suc s)) (m % reserved_entry)
                  (omega arith))
      ]

  clear_from-IsBalanced :
      (n : ℕ) (e : IpAccessEntry T) (i : ℕ) (s : ℤ)
      → i < reserved_entry
      → IsBalanced e
      → IsBalanced (clear_from n e i s)
  unfolding clear_from
  clear_from-IsBalanced zero e i s lt h = h
  clear_from-IsBalanced (suc n) e i s lt h =
      clear_from-IsBalanced n (clear_slot e i s) _ _ (omega arith)
        (clear_slot-IsBalanced e i s lt h)

  -- What `clear_outdated_data` does at slot number `s`: each of the latest 12 slots keeps its counter
  -- if it is that slot's, and starts at 0 otherwise; the total stays the sum of the ring.
  pub record Cleared (e : IpAccessEntry T) (s : ℕ) (e' : IpAccessEntry T) : Type 0 where
    pub ring :
        (m : ℕ)
        → m ≤ s
        → s < m + reserved_entry
        → e'.access_count (m % reserved_entry) ≡ refresh m (e.access_count (m % reserved_entry))
    pub balanced : IsBalanced e → IsBalanced e'

  -- For a slot number of at least 11, `clear_outdated_data` keeps the counter of each of the latest
  -- 12 slots whose number its place in the ring has, sets the others to 0 with their number, and
  -- keeps the total equal to the sum of the ring.
  pub clear_outdated_data-Cleared :
      (e : IpAccessEntry T) (s : ℕ)
      → reserved_entry ≤ suc s
      → Cleared e s (clear_outdated_data e (s % reserved_entry) (pos s))
  unfolding clear_outdated_data
  clear_outdated_data-Cleared e s late = record {
    ring = λ m lo hi. clear_from-ring reserved_entry e s m (omega arith) late lo hi;
    balanced = clear_from-IsBalanced reserved_entry e (s % reserved_entry) (pos s) (omega arith);
  }

  clear_slot-owner :
      (e : IpAccessEntry T) (i : ℕ) (s : ℤ)
      → ((clear_slot e i s).ipaddr ≡ e.ipaddr)
        × ((clear_slot e i s).success_counter ≡ e.success_counter)
        × ((clear_slot e i s).log_time ≡ e.log_time)
  unfolding clear_slot
  clear_slot-owner e i s = ground arith

  clear_from-owner :
      (n : ℕ) (e : IpAccessEntry T) (i : ℕ) (s : ℤ) → (clear_from n e i s).ipaddr ≡ e.ipaddr
  unfolding clear_from
  clear_from-owner zero e i s = refl
  clear_from-owner (suc n) e i s =
      clear_from-owner n (clear_slot e i s) _ _ ∙ (clear_slot-owner e i s).0

  -- The entry stays that of its address.
  pub ipaddr-clear_outdated_data :
      (e : IpAccessEntry T) (i : ℕ) (s : ℤ) → (clear_outdated_data e i s).ipaddr ≡ e.ipaddr
  unfolding clear_outdated_data
  ipaddr-clear_outdated_data e i s = clear_from-owner reserved_entry e i s
