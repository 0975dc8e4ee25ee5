-- ===== src/Blacklist/Chains.antt =====
-- src/auto_blacklist.c: the chains of the hash table: searching, writing through a pointer, and the
-- sweep of `expiring` over one chain.
use native.Mathlib.Decide.{ℕ_discrete}
use tcp_proxy.Prelude.{
  ℕ, ◌+◌, ◌≤◌, ◌≡◌, ◌≢◌, refl, List, [], ◌∷◌, Option, none, some, arith, ◌==◌, if◌then◌else◌,
  length,
}
use tcp_proxy.Prelude.Int.{ℤ, pos, eqb_ℤ}
use tcp_proxy.Blacklist.{IpAccessEntry, clear_outdated_data, find_entry, write_entry, sweep}
use tcp_proxy.Blacklist.Ring.{ipaddr-clear_outdated_data}

module _ {T : Type 0} where
  -- How many entries of a chain are of address `q`.
  unfoldable pub occurrences : ℕ → List (IpAccessEntry T) → ℕ
  occurrences q [] = 0
  occurrences q (e ∷ chain) = (if e.ipaddr == q then 1 else 0) + occurrences q chain

  pub find_entry-none :
      (q : ℕ) (chain : List (IpAccessEntry T)) → occurrences q chain ≡ 0 → find_entry q chain ≡ none
  unfolding find_entry occurrences
  find_entry-none q [] h = refl
  find_entry-none q (e ∷ chain) h = ground (arith, find_entry-none q chain)

  pub occurrences-none :
      (q : ℕ) (chain : List (IpAccessEntry T)) → find_entry q chain ≡ none → occurrences q chain ≡ 0
  unfolding find_entry occurrences
  occurrences-none q [] h = refl
  occurrences-none q (e ∷ chain) h = ground (arith, occurrences-none q chain)

  pub find_entry-ipaddr :
      (q : ℕ) (chain : List (IpAccessEntry T)) (e : IpAccessEntry T)
      → find_entry q chain ≡ some e
      → e.ipaddr ≡ q
  unfolding find_entry
  find_entry-ipaddr q [] e h = cc
  find_entry-ipaddr q (x ∷ chain) e h = ground (arith, find_entry-ipaddr q chain e)

  module _ (ip : ℕ) (v : IpAccessEntry T) (owner : v.ipaddr ≡ ip) where
    pub find_entry-write_entry :
        (chain : List (IpAccessEntry T)) (e : IpAccessEntry T)
        → find_entry ip chain ≡ some e
        → find_entry ip (write_entry ip v chain) ≡ some v
    unfolding find_entry write_entry
    find_entry-write_entry [] e h = cc
    find_entry-write_entry (x ∷ chain) e h = ground (arith, find_entry-write_entry chain e)

    pub find_entry-write_entry_ne :
        (q : ℕ) (chain : List (IpAccessEntry T))
        → q ≢ ip
        → find_entry q (write_entry ip v chain) ≡ find_entry q chain
    unfolding find_entry write_entry
    find_entry-write_entry_ne q [] ne = refl
    find_entry-write_entry_ne q (x ∷ chain) ne =
        ground (arith, find_entry-write_entry_ne q chain ne)

    pub occurrences-write_entry :
        (q : ℕ) (chain : List (IpAccessEntry T))
        → occurrences q (write_entry ip v chain) ≡ occurrences q chain
    unfolding occurrences write_entry
    occurrences-write_entry q [] = refl
    occurrences-write_entry q (x ∷ chain) = ground (arith, occurrences-write_entry q chain)

  -- A new entry at the head.
  pub find_entry-cons :
      (ip : ℕ) (v : IpAccessEntry T) (chain : List (IpAccessEntry T))
      → v.ipaddr ≡ ip
      → find_entry ip (v ∷ chain) ≡ some v
  unfolding find_entry
  find_entry-cons ip v chain owner = ground arith

  pub find_entry-cons_ne :
      (ip q : ℕ) (v : IpAccessEntry T) (chain : List (IpAccessEntry T))
      → v.ipaddr ≡ ip
      → q ≢ ip
      → find_entry q (v ∷ chain) ≡ find_entry q chain
  unfolding find_entry
  find_entry-cons_ne ip q v chain owner apart = ground arith

  pub occurrences-cons :
      (ip q : ℕ) (v : IpAccessEntry T) (chain : List (IpAccessEntry T))
      → v.ipaddr ≡ ip
      → find_entry ip chain ≡ none
      → occurrences q chain ≤ 1
      → occurrences q (v ∷ chain) ≤ 1
  unfolding occurrences
  occurrences-cons ip q v chain owner missing once = elim (ℕ_discrete q ip) [
    | yes same ↦ rw same (ground (arith, occurrences-none ip chain missing))
    | no apart ↦ ground arith
  ]

  -- What the sweep leaves of a search's result.
  abbrev pub swept : ℕ → ℤ → Option (IpAccessEntry T) → Option (IpAccessEntry T)
  swept index slot none = none
  swept index slot (some e) =
      let e' = clear_outdated_data e index slot in
      if eqb_ℤ e'.counter (pos 0) then none else some e'

  module _ (index : ℕ) (slot : ℤ) where
    sweep_step :
        (e : IpAccessEntry T) (chain free_list : List (IpAccessEntry T))
        → sweep index slot (e ∷ chain) free_list ≡ (
            let e' = clear_outdated_data e index slot in
            if eqb_ℤ e'.counter (pos 0)
            then sweep index slot chain (e' ∷ free_list)
            else (e' ∷ (sweep index slot chain free_list).0, (sweep index slot chain free_list).1))
    unfolding sweep
    sweep_step e chain free_list = refl

    -- Every entry is kept or released.
    pub length-sweep :
        (chain free_list : List (IpAccessEntry T))
        → length (sweep index slot chain free_list).0 + length (sweep index slot chain free_list).1
          ≡ length chain + length free_list
    unfolding sweep
    length-sweep [] free_list = omega arith
    length-sweep (e ∷ chain) free_list = ground (
      arith,
      length-sweep chain (clear_outdated_data e index slot ∷ free_list),
      length-sweep chain free_list,
    )

    pub occurrences-sweep :
        (q : ℕ) (chain free_list : List (IpAccessEntry T))
        → occurrences q (sweep index slot chain free_list).0 ≤ occurrences q chain
    unfolding sweep occurrences
    occurrences-sweep q [] free_list = omega arith
    occurrences-sweep q (e ∷ chain) free_list = ground (
      arith,
      occurrences-sweep q chain (clear_outdated_data e index slot ∷ free_list),
      occurrences-sweep q chain free_list,
      ipaddr-clear_outdated_data e index slot,
    )

    -- A search after the sweep finds what it found before, brought up to date, unless nothing is
    -- counted there any more.
    pub find_entry-sweep :
        (q : ℕ) (chain free_list : List (IpAccessEntry T))
        → occurrences q chain ≤ 1
        → find_entry q (sweep index slot chain free_list).0 ≡ swept index slot (find_entry q chain)
    unfolding sweep occurrences find_entry
    find_entry-sweep q [] free_list once = refl
    find_entry-sweep q (e ∷ chain) free_list once = ground (
      arith,
      find_entry-sweep q chain (clear_outdated_data e index slot ∷ free_list),
      find_entry-sweep q chain free_list,
      find_entry-none q chain,
      ipaddr-clear_outdated_data e index slot,
    )
