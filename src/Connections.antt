-- ===== src/Connections.antt =====
-- src/proxying.c: the memory of `struct connection_info` entries: the doubly linked list `infos` of
-- the connections in use, and the pool of free entries, which is linked through the same `next`.
-- A pointer is an address; a dereferenced NULL is the fault `none`. A mutex makes each operation
-- one step.
pub mod Segments
pub mod Removal
pub mod Attached
pub mod Links
pub mod Detached
pub mod Pool
pub mod Snapshot
pub mod Idle
mod Tests
use tcp_proxy.Prelude.{
  ℕ, zero, suc, ◌+◌, ◌≡◌, Bool, true, false, Option, none, some, List, [], ◌∷◌, arith, ◌==◌,
  if◌then◌else◌,
}
use tcp_proxy.Prelude.Int.{ℤ, pos, ◌+ℤ◌, ◌-ℤ◌}
use tcp_proxy.Prelude.Table.{update}

-- The link fields of an entry.
pub record Node : Type 0 where
  pub next : Option ℕ
  pub prev : Option ℕ
  pub in_chain : Bool

pub record Memory : Type 0 where
  pub node : ℕ → Node
  pub infos : Option ℕ
  pub pool : Option ℕ
  pub number_of_entries : ℤ
  pub number_of_allocation : ℕ

unfoldable pub set_next : Memory → ℕ → Option ℕ → Memory
set_next m x v = record m { node = update m.node x (record (m.node x) { next = v }) }

unfoldable pub set_prev : Memory → ℕ → Option ℕ → Memory
set_prev m x v = record m { node = update m.node x (record (m.node x) { prev = v }) }

unfoldable pub set_in_chain : Memory → ℕ → Bool → Memory
set_in_chain m x v = record m { node = update m.node x (record (m.node x) { in_chain = v }) }

-- `p->prev = v`, where `p` is not NULL.
unfoldable pub set_prev_unless_null : Memory → Option ℕ → Option ℕ → Memory
set_prev_unless_null m none v = m
set_prev_unless_null m (some y) v = set_prev m y v

-- `entry == infos`
unfoldable pub is_head : Option ℕ → ℕ → Bool
is_head none x = false
is_head (some y) x = x == y

-- A new entry is at the address `fresh`, which `malloc` returns.
unfoldable pub allocate_connection_info : Memory → ℕ → ℕ × Memory
allocate_connection_info m fresh = elim m.pool [
  | some x ↦ (x, record m { pool = (m.node x).next })
  | none ↦ (fresh, record m { number_of_allocation = m.number_of_allocation + 1 })
]

unfoldable pub free_connection_info : Memory → ℕ → Memory
unfolding set_next
free_connection_info m x = record (set_next m x m.pool) { pool = some x }

unfoldable pub attach_connection_info_entry : Memory → ℕ → Memory
unfolding set_next set_prev set_in_chain set_prev_unless_null
attach_connection_info_entry m x =
    let counted = record m { number_of_entries = m.number_of_entries +ℤ pos 1 } in
    let entered = set_in_chain (set_prev (set_next counted x m.infos) x none) x true in
    record (set_prev_unless_null entered m.infos (some x)) { infos = some x }

-- The unlinking of `detach_connection_info_entry`, under the lock.
unfoldable pub unlink : Memory → ℕ → Option Memory
unfolding set_next set_prev set_prev_unless_null is_head
unlink m x =
    if is_head m.infos x
    then (let rest = (m.node x).next in
        some (record (set_prev_unless_null m rest none) { infos = rest }))
    else elim (m.node x).prev [
      | none ↦ none
      | some y ↦
          let skipped = set_next m y (m.node x).next in
          some (set_prev_unless_null skipped (skipped.node x).next (skipped.node x).prev)
    ]

unfoldable pub detach_connection_info_entry : Memory → ℕ → Option Memory
unfolding unlink set_in_chain
detach_connection_info_entry m x =
    if (m.node x).in_chain
    then elim (unlink (record m { number_of_entries = m.number_of_entries -ℤ pos 1 }) x) [
      | none ↦ none
      | some m' ↦ some (set_in_chain m' x false)
    ]
    else some m
