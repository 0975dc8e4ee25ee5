-- ===== src/Blacklist/Access.antt =====
-- src/auto_blacklist.c: clearing and counting, on one entry, against its history.
use native.Mathlib.Decide.{dec_lt}
use tcp_proxy.Prelude.{
  ℕ, suc, ◌+◌, ◌%◌, ◌≤◌, ◌<◌, ◌≡◌, ◌≢◌, refl, sym, ap, ◌∙◌, subst, inl, inr, false, List, [], ◌∷◌,
  arith, Bool-cases,
}
use tcp_proxy.Prelude.Int.{pos, +ℤ_pos, eqb_ℤ, eqb_ℤ→eq}
use tcp_proxy.Prelude.Table.{sum_below, sum_below_except, sum_below-eq_zero}
use tcp_proxy.Blacklist.{IpAccessEntry, reserved_entry, increase, reset_entry, open_slot, count_one}
use tcp_proxy.Blacklist.Ring.{refresh, counters, Cleared, clear_outdated_data-Cleared}
use tcp_proxy.Blacklist.Window.{
  window_hits, slot_hits, IsPast, IsPast-mono, Tracks, slot_at, slot_at_lem, slot_of,
}

slot_hits_kept :
    (c c' m : ℕ) (hist : List ℕ)
    → IsPast c hist
    → c ≤ c'
    → m ≤ c
    → c' < m + reserved_entry
    → slot_hits c (m % reserved_entry) hist ≡ slot_hits c' (m % reserved_entry) hist
slot_hits_kept c c' m [] p le lo hi = refl
slot_hits_kept c c' m (h ∷ hist) p le lo hi =
    ground (arith, slot_hits_kept c c' m hist p.1 le lo hi)

slot_hits_gone :
    (c c' m : ℕ) (hist : List ℕ)
    → IsPast c hist
    → c < m
    → m ≤ c'
    → slot_hits c' (m % reserved_entry) hist ≡ 0
slot_hits_gone c c' m [] p lt le = refl
slot_hits_gone c c' m (h ∷ hist) p lt le = ground (arith, slot_hits_gone c c' m hist p.1 lt le)

slot_hits_none : (c k : ℕ) (hist : List ℕ) → window_hits c hist ≡ 0 → slot_hits c k hist ≡ 0
slot_hits_none c k [] h = refl
slot_hits_none c k (x ∷ hist) h = ground (arith, slot_hits_none c k hist)

module _ {T : Type 0} where
  refresh_later :
      (hist : List ℕ) (c c' : ℕ) (e : IpAccessEntry T)
      → Tracks hist c e
      → c ≤ c'
      → (m : ℕ) → m ≤ c'
      → c' < m + reserved_entry
      → refresh m (e.access_count (m % reserved_entry))
        ≡ record { counter = slot_hits c' (m % reserved_entry) hist; slot_index = pos m }
  refresh_later hist c c' e t le m lo hi =
      let (lo₀, hi₀, at) = slot_at_lem c (m % reserved_entry) t.late (omega arith) in
      ap (refresh m) (slot_of hist c (m % reserved_entry) e t (omega arith)) ∙ elim (dec_lt c m) [
        | yes newer ↦
            let gone = slot_hits_gone c c' m hist t.past newer lo in
            let apart : slot_at c (m % reserved_entry) ≢ m = omega arith in ground arith
        | no older ↦
            let same : slot_at c (m % reserved_entry) ≡ m = omega arith in
            let kept = slot_hits_kept c c' m hist t.past le (omega arith) hi in ground arith
      ]

  -- Clearing at a later slot moves the window.
  pub Cleared-Tracks :
      (hist : List ℕ) (c c' : ℕ) (e e' : IpAccessEntry T)
      → Tracks hist c e
      → c ≤ c'
      → Cleared e c' e'
      → Tracks hist c' e'
  Cleared-Tracks hist c c' e e' t le cleared = record {
    late = omega (arith, t.late);
    past = IsPast-mono c c' hist le t.past;
    slots = λ m lo hi. cleared.ring m lo hi ∙ refresh_later hist c c' e t le m lo hi;
    balanced = cleared.balanced t.balanced;
  }

  -- Where the history has left the window, an entry with nothing counted holds it too.
  pub Blank-Tracks :
      (hist : List ℕ) (c : ℕ) (e e' : IpAccessEntry T)
      → reserved_entry ≤ suc c
      → IsPast c hist
      → window_hits c hist ≡ 0
      → ((k : ℕ) → counters e k ≡ 0)
      → e.counter ≡ pos 0
      → Cleared e c e'
      → Tracks hist c e'
  Blank-Tracks hist c e e' late past none blank total cleared = record {
    late = late;
    past = past;
    slots = λ m lo hi.
        cleared.ring m lo hi
        ∙ ground (
          arith,
          blank (m % reserved_entry),
          slot_hits_none c (m % reserved_entry) hist none,
          eqb_ℤ→eq (e.access_count (m % reserved_entry)).slot_index (pos m),
        );
    balanced =
        cleared.balanced
          (total ∙ ap pos (sym (sum_below-eq_zero reserved_entry (counters e) (λ k lt. blank k))));
  }

  -- Counting one access in the current slot.
  count_one-Tracks :
      (hist : List ℕ) (c : ℕ) (e : IpAccessEntry T)
      → Tracks hist c e
      → Tracks (c ∷ hist) c (count_one e (c % reserved_entry))
  unfolding count_one
  count_one-Tracks hist c e t = record {
    late = t.late;
    past = (omega arith, t.past);
    slots = λ m lo hi. ground (arith, t.slots m lo hi);
    balanced =
        let more =
          sum_below_except reserved_entry (counters (count_one e (c % reserved_entry))) (counters e)
            (c % reserved_entry) (omega arith) (λ k ne. ground arith) in
        ground (arith, t.balanced, more, +ℤ_pos (sum_below reserved_entry (counters e)) 1);
  }

  open_slot-Tracks :
      (hist : List ℕ) (c c' : ℕ) (e : IpAccessEntry T)
      → Tracks hist c e
      → c ≤ c'
      → Tracks hist c' (open_slot e (c' % reserved_entry) (pos c'))
  unfolding open_slot
  open_slot-Tracks hist c c' e t le =
      elim (Bool-cases (eqb_ℤ (e.access_count (c' % reserved_entry)).slot_index (pos c'))) [
        | inl current ↦
            let (lo, hi, at) = slot_at_lem c (c' % reserved_entry) t.late (omega arith) in
            let slot = slot_of hist c (c' % reserved_entry) e t (omega arith) in
            let here : slot_at c (c' % reserved_entry) ≡ c' = ground arith in
            let same : c ≡ c' = omega arith in rw current (subst (λ j. Tracks hist j e) same t)
        | inr stale ↦ rw stale (
            Cleared-Tracks hist c c' e _ t le
              (clear_outdated_data-Cleared e c' (omega (arith, t.late))))
      ]

  -- An access at a slot that is not before the last one.
  pub increase-Tracks :
      (hist : List ℕ) (c c' : ℕ) (e : IpAccessEntry T)
      → Tracks hist c e
      → c ≤ c'
      → Tracks (c' ∷ hist) c' (increase e (c' % reserved_entry) (pos c'))
  unfolding increase
  increase-Tracks hist c c' e t le = count_one-Tracks hist c' _ (open_slot-Tracks hist c c' e t le)

  -- The first access through a new entry, when all earlier ones have left the window.
  pub increase-reset_entry-Tracks :
      (hist : List ℕ) (c ip : ℕ) (tv : T) (e : IpAccessEntry T)
      → reserved_entry ≤ suc c
      → IsPast c hist
      → window_hits c hist ≡ 0
      → Tracks (c ∷ hist) c (increase (reset_entry e ip tv) (c % reserved_entry) (pos c))
  unfolding increase reset_entry open_slot
  increase-reset_entry-Tracks hist c ip tv e late past none =
      let fresh = reset_entry e ip tv in
      let stale : eqb_ℤ (pos 0) (pos c) ≡ false = ground arith in
      count_one-Tracks hist c _ (
        rw stale (
          Blank-Tracks hist c fresh _ late past none (λ k. refl) refl
            (clear_outdated_data-Cleared fresh c late)))
