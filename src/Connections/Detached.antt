-- ===== src/Connections/Detached.antt =====
-- src/proxying.c: `detach_connection_info_entry` as removal from a list.
use native.Mathlib.Decide.{ℕ_discrete}
use tcp_proxy.Prelude.{ℕ, ◌≡◌, ◌≢◌, refl, sym, ap, subst, false, none, some, List, [], ◌∷◌, arith}
use tcp_proxy.Prelude.Int.{pos, ◌-ℤ◌, pos_part, neg_part, eq_of_parts, int_laws}
use tcp_proxy.Connections.{Memory, set_in_chain, unlink, detach_connection_info_entry}
use tcp_proxy.Connections.Segments.{Outside, Distinct, Segment, Segment-frame, Segment-cast}
use tcp_proxy.Connections.Removal.{
  remove, remove_hit, remove_ne, Outside-remove_self, Distinct-remove, length-remove,
}
use tcp_proxy.Connections.Attached.{Attached, apart}
use tcp_proxy.Connections.Links.{
  unlink_Skips, unlink_at_head, unlink_past, head_reseat, clear_prev-Outside, in_chain_inside,
}

-- What `unlink` leaves of the list `xs` with `x` in it.
record Unlinks (m : Memory) (xs : List ℕ) (x : ℕ) (m' : Memory) : Type 0 where
  returned : unlink m x ≡ some m'
  linked : Segment m'.node none m'.infos (remove x xs)
  outside : (z : ℕ) → Outside z xs → m'.node z ≡ m.node z
  pool_is : m'.pool ≡ m.pool
  count_is : m'.number_of_entries ≡ m.number_of_entries

unlink_head-Unlinks :
    (m : Memory) (x : ℕ) (ys : List ℕ)
    → Segment m.node none m.infos (x ∷ ys)
    → Distinct (x ∷ ys)
    → (m' : Memory) × Unlinks m (x ∷ ys) x m'
unlink_head-Unlinks m x ys (head, back, chained, rest) d =
    let (m', returned, u) = unlink_at_head m x (m.node x).next head refl in
    (
      m',
      record {
        returned = returned;
        linked =
            Segment-cast none (sym u.node_is) (sym u.infos_is) (sym (remove_hit x x ys refl))
              (head_reseat m.node x (m.node x).next ys rest d.1);
        outside =
            λ z o. rw u.node_is (clear_prev-Outside m.node (some x) (m.node x).next ys z rest o.1);
        pool_is = u.pool_is;
        count_is = u.count_is;
      },
    )

unlink_behind-Unlinks :
    (m : Memory) (x y : ℕ) (ys : List ℕ)
    → Segment m.node none m.infos (y ∷ ys)
    → Distinct (y ∷ ys)
    → x ≢ y
    → ¬ Outside x ys
    → (m' : Memory) × Unlinks m (y ∷ ys) x m'
unlink_behind-Unlinks m x y ys s d ne inside =
    let past = unlink_Skips m.node none m.infos y x ys s d inside in
    let (m', returned, u) =
      unlink_past m x past.before (λ e. ne (ground (arith, s.0))) past.prev_is in
    (
      m',
      record {
        returned = returned;
        linked =
            Segment-cast none (sym u.node_is) (sym u.infos_is) (sym (remove_ne x y ys ne))
              past.linked;
        outside = λ z o. rw u.node_is (past.outside z o);
        pool_is = u.pool_is;
        count_is = u.count_is;
      },
    )

unlink-Unlinks :
    (m : Memory) (x : ℕ) (xs : List ℕ)
    → Segment m.node none m.infos xs
    → Distinct xs
    → ¬ Outside x xs
    → (m' : Memory) × Unlinks m xs x m'
unlink-Unlinks m x [] s d inside = absurd (inside tt)
unlink-Unlinks m x (y ∷ ys) s d inside = elim (ℕ_discrete x y) [
  | yes same ↦
      subst (λ v. (m' : Memory) × Unlinks m (y ∷ ys) v m') (sym same)
        (unlink_head-Unlinks m y ys s d)
  | no other ↦ unlink_behind-Unlinks m x y ys s d other (λ o. inside (other, o))
]

-- What `detach_connection_info_entry` leaves of the connections `xs` with `x` among them.
pub record Detached (m : Memory) (xs : List ℕ) (x : ℕ) (m' : Memory) : Type 0 where
  pub attached : Attached m' (remove x xs)
  pub unchained : (m'.node x).in_chain ≡ false
  pub pool_is : m'.pool ≡ m.pool
  pub outside : (z : ℕ) → Outside z xs → m'.node z ≡ m.node z

-- For a list of distinct entries that is linked in both directions and counted,
-- `detach_connection_info_entry` of a member returns with no fault and leaves the linked and counted
-- list without that member, the member marked as out of the list, and the pool and all entries
-- outside of the list as they were.
pub detach-Detached :
    (m : Memory) (x : ℕ) (xs : List ℕ)
    → Attached m xs
    → ¬ Outside x xs
    → (m' : Memory) × (detach_connection_info_entry m x ≡ some m') × Detached m xs x m'
unfolding detach_connection_info_entry set_in_chain
detach-Detached m x xs a inside =
    let less = record m { number_of_entries = m.number_of_entries -ℤ pos 1 } in
    let (m', u) = unlink-Unlinks less x xs a.linked a.distinct inside in
    let chained = in_chain_inside m.node none m.infos xs x a.linked inside in
    (
      set_in_chain m' x false,
      rw (chained, u.returned) refl,
      record {
        attached = record {
          linked =
              Segment-frame m'.node _ none m'.infos (remove x xs)
                (λ z among.
                  let zx = apart x z (remove x xs) (Outside-remove_self x xs a.distinct) among in
                  ground arith)
                u.linked;
          distinct = Distinct-remove x xs a.distinct;
          counted =
              let fewer = length-remove x xs inside in
              eq_of_parts _ _ (
                omega (
                  int_laws,
                  fewer,
                  ap pos_part u.count_is,
                  ap neg_part u.count_is,
                  ap pos_part a.counted,
                  ap neg_part a.counted,
                ));
        };
        unchained = ground arith;
        pool_is = u.pool_is;
        outside = λ z o.
            let zx : z ≢ x = (λ e. inside (subst (λ v. Outside v xs) e o)) in
            ground (arith, u.outside z o);
      },
    )

-- An entry that is not in the list stays as it is.
pub detach_twice :
    (m : Memory) (x : ℕ) → (m.node x).in_chain ≡ false → detach_connection_info_entry m x ≡ some m
unfolding detach_connection_info_entry
detach_twice m x out = rw out
