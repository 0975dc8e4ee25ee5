-- ===== src/Blacklist/Window.antt =====
-- src/auto_blacklist.c: the ring as a sliding window over the history of one address, which is the
-- list of the slot numbers at which it came.
use tcp_proxy.Prelude.{
  ℕ, suc, ◌+◌, ◌-◌, ◌%◌, ◌≤◌, ◌<◌, ◌≡◌, refl, ap, ◌∙◌, subst, ◌&&◌, List, [], ◌∷◌, arith, ltb, ◌==◌,
  if◌then◌else◌,
}
use tcp_proxy.Prelude.Int.{pos}
use tcp_proxy.Prelude.Table.{sum_below, sum_below_except, sum_below_congr, sum_below-eq_zero}
use tcp_proxy.Blacklist.{AccessEntry, IpAccessEntry, reserved_entry}
use tcp_proxy.Blacklist.Ring.{counters, IsBalanced}

-- How many of the accesses lie in the 12 slots up to `c`.
abbrev pub window_hits : ℕ → List ℕ → ℕ
window_hits c [] = 0
window_hits c (h ∷ hist) = (if ltb c (h + reserved_entry) then 1 else 0) + window_hits c hist

-- Those of them at index `k` of the ring.
abbrev pub slot_hits : ℕ → ℕ → List ℕ → ℕ
slot_hits c k [] = 0
slot_hits c k (h ∷ hist) =
    (if ltb c (h + reserved_entry) && h % reserved_entry == k then 1 else 0) + slot_hits c k hist

-- No access lies after slot `c`.
abbrev pub IsPast : ℕ → List ℕ → Type 0
IsPast c [] = Unit {0}
IsPast c (h ∷ hist) = (h ≤ c) × IsPast c hist

pub IsPast-mono : (c c' : ℕ) (hist : List ℕ) → c ≤ c' → IsPast c hist → IsPast c' hist
IsPast-mono c c' [] le p = tt
IsPast-mono c c' (h ∷ hist) le p = (omega arith, IsPast-mono c c' hist le p.1)

sum-slot_hits :
    (c : ℕ) (hist : List ℕ)
    → sum_below reserved_entry (λ k. slot_hits c k hist) ≡ window_hits c hist
sum-slot_hits c [] = sum_below-eq_zero reserved_entry (λ k. 0) (λ k lt. refl)
sum-slot_hits c (h ∷ hist) =
    let rest = sum-slot_hits c hist in
    let hot =
      sum_below_except reserved_entry (λ k. slot_hits c k (h ∷ hist)) (λ k. slot_hits c k hist)
        (h % reserved_entry) (omega arith) (λ k ne. ground arith) in
    ground (arith, hot, rest)

-- The ring of `e` holds the history as of slot `c`.
pub record Tracks {T : Type 0} (hist : List ℕ) (c : ℕ) (e : IpAccessEntry T) : Type 0 where
  pub late : reserved_entry ≤ suc c
  pub past : IsPast c hist
  pub slots :
      (m : ℕ)
      → m ≤ c
      → c < m + reserved_entry
      → e.access_count (m % reserved_entry)
        ≡ record { counter = slot_hits c (m % reserved_entry) hist; slot_index = pos m }
  pub balanced : IsBalanced e

-- The number of the latest 12 slots up to `c` that index `k` stands for.
abbrev pub slot_at : ℕ → ℕ → ℕ
slot_at c k = c - (c + reserved_entry - k) % reserved_entry

pub slot_at_lem :
    (c k : ℕ)
    → reserved_entry ≤ suc c
    → k < reserved_entry
    → (slot_at c k ≤ c) × (c < slot_at c k + reserved_entry) × (slot_at c k % reserved_entry ≡ k)
slot_at_lem c k late lt = omega arith

module _ {T : Type 0} where
  pub slot_of :
      (hist : List ℕ) (c k : ℕ) (e : IpAccessEntry T)
      → Tracks hist c e
      → k < reserved_entry
      → e.access_count k ≡ record { counter = slot_hits c k hist; slot_index = pos (slot_at c k) }
  slot_of hist c k e t lt =
      let (lo, hi, at) = slot_at_lem c k t.late lt in
      subst
        (λ j.
          e.access_count j
          ≡ record { counter = slot_hits c j hist; slot_index = pos (slot_at c k) })
        at (t.slots (slot_at c k) lo hi)

  -- The total is the number of accesses in the window.
  pub counter-window_hits :
      (hist : List ℕ) (c : ℕ) (e : IpAccessEntry T)
      → Tracks hist c e
      → e.counter ≡ pos (window_hits c hist)
  counter-window_hits hist c e t =
      let same =
        sum_below_congr reserved_entry (counters e) (λ k. slot_hits c k hist)
          (λ k lt. ap (λ (a : AccessEntry). a.counter) (slot_of hist c k e t lt)) in
      t.balanced ∙ ap pos (same ∙ sum-slot_hits c hist)
