-- ===== src/Connections/Attached.antt =====
-- src/proxying.c: `attach_connection_info_entry` and `detach_connection_info_entry` as insertion at
-- the head of a list and removal from it.
use native.Mathlib.Numerals.{add-one}
use tcp_proxy.Prelude.{
  ℕ, ◌≡◌, ◌≢◌, refl, sym, ap, subst, ◌∙◌, true, none, some, List, [], ◌∷◌, arith, length,
}
use tcp_proxy.Prelude.Int.{pos, ◌+ℤ◌, +ℤ_pos}
use tcp_proxy.Connections.{Node, Memory, attach_connection_info_entry}
use tcp_proxy.Connections.Segments.{Outside, Distinct, Segment, Segment-frame}

-- The list `infos` holds the connections `xs`, newest first.
pub record Attached (m : Memory) (xs : List ℕ) : Type 0 where
  pub linked : Segment m.node none m.infos xs
  pub distinct : Distinct xs
  pub counted : m.number_of_entries ≡ pos (length xs)

pub apart : (x z : ℕ) (xs : List ℕ) → Outside x xs → ¬ Outside z xs → z ≢ x
apart x z xs o inside e = inside (subst (λ w. Outside w xs) (sym e) o)

-- What `attach_connection_info_entry` writes.
attach_self :
    (m : Memory) (x : ℕ)
    → m.infos ≢ some x
    → (attach_connection_info_entry m x).node x
      ≡ record { next = m.infos; prev = none; in_chain = true }
unfolding attach_connection_info_entry
attach_self m x ne = ground arith

attach_head :
    (m : Memory) (x y : ℕ)
    → m.infos ≡ some y
    → y ≢ x
    → (attach_connection_info_entry m x).node y ≡ record (m.node y) { prev = some x }
unfolding attach_connection_info_entry
attach_head m x y e ne = ground arith

pub attach_other :
    (m : Memory) (x z : ℕ)
    → z ≢ x
    → m.infos ≢ some z
    → (attach_connection_info_entry m x).node z ≡ m.node z
unfolding attach_connection_info_entry
attach_other m x z ne nh = ground arith

attach_count :
    (m : Memory) (x : ℕ)
    → (attach_connection_info_entry m x).number_of_entries ≡ m.number_of_entries +ℤ pos 1
unfolding attach_connection_info_entry
attach_count m x = ground arith

pub attach_pool : (m : Memory) (x : ℕ) → (attach_connection_info_entry m x).pool ≡ m.pool
unfolding attach_connection_info_entry
attach_pool m x = ground arith

attach-Segment :
    (m : Memory) (x : ℕ) (xs : List ℕ)
    → Segment m.node none m.infos xs
    → Distinct xs
    → Outside x xs
    → Segment (attach_connection_info_entry m x).node none (some x) (x ∷ xs)
attach-Segment m x [] s d o =
    let self = attach_self m x (λ e. cc) in
    (
      refl,
      ap (λ (n : Node). n.prev) self,
      ap (λ (n : Node). n.in_chain) self,
      ap (λ (n : Node). n.next) self ∙ s,
    )
attach-Segment m x (y ∷ ys) (head, back, chained, rest) d o =
    let self = attach_self m x (λ e. o.0 (ground arith)) in
    let second = attach_head m x y head (λ e. o.0 (sym e)) in
    (
      refl,
      ap (λ (n : Node). n.prev) self,
      ap (λ (n : Node). n.in_chain) self,
      (
        ap (λ (n : Node). n.next) self ∙ head,
        ap (λ (n : Node). n.prev) second,
        ap (λ (n : Node). n.in_chain) second ∙ chained,
        rw second (
            Segment-frame m.node _ (some y) (m.node y).next ys
              (λ z inside.
                attach_other m x z (apart x z ys o.1 inside)
                  (λ e. apart y z ys d.0 inside (ground arith)))
              rest),
      ),
    )

-- For a list of distinct entries that is linked in both directions and counted,
-- `attach_connection_info_entry` of an entry outside of it leaves the linked and counted list with
-- that entry at its head.
pub attach-Attached :
    (m : Memory) (x : ℕ) (xs : List ℕ)
    → Attached m xs
    → Outside x xs
    → Attached (attach_connection_info_entry m x) (x ∷ xs)
unfolding attach_connection_info_entry
attach-Attached m x xs a o = record {
  linked = attach-Segment m x xs a.linked a.distinct o;
  distinct = (o, a.distinct);
  counted =
      attach_count m x
      ∙ ap (λ n. n +ℤ pos 1) a.counted
      ∙ +ℤ_pos (length xs) 1
      ∙ ap pos (add-one (length xs));
}
