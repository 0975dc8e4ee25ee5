-- ===== src/Connections/Pool.antt =====
-- src/proxying.c: the list of connections and the pool of free entries together, as connections come
-- (`accepting_request`) and go (`do_proxying`, `clean_idle_connections`).
use native.Mathlib.Decide.{ℕ_discrete}
use tcp_proxy.Prelude.{
  ℕ, ◌+◌, ◌≡◌, ◌≢◌, refl, sym, ap, subst, ◌∙◌, false, Option, none, some, List, [], ◌∷◌, arith,
}
use tcp_proxy.Connections.{
  Node, Memory, set_next, set_in_chain, allocate_connection_info, free_connection_info,
  attach_connection_info_entry, detach_connection_info_entry,
}
use tcp_proxy.Connections.Segments.{Outside, Distinct, Segment-frame, Segment-cast}
use tcp_proxy.Connections.Removal.{remove, Outside-remove, Outside-remove_self}
use tcp_proxy.Connections.Attached.{Attached, apart, attach-Attached, attach_other, attach_pool}
use tcp_proxy.Connections.Detached.{detach-Detached}
use tcp_proxy.Connections.Links.{head_inside}

-- From `h` on the free entries `ps` are linked.
abbrev pub FreeList : (ℕ → Node) → Option ℕ → List ℕ → Type 0
FreeList node h [] = h ≡ none
FreeList node h (x ∷ ps) = (h ≡ some x) × FreeList node (node x).next ps

pub FreeList-frame :
    (node node' : ℕ → Node) (h h' : Option ℕ) (ps : List ℕ)
    → ((y : ℕ) → ¬ Outside y ps → node' y ≡ node y)
    → h' ≡ h
    → FreeList node h ps
    → FreeList node' h' ps
FreeList-frame node node' h h' [] same e f = e ∙ f
FreeList-frame node node' h h' (x ∷ ps) same e (head, rest) =
    let unchanged = same x (λ o. o.0 refl) in
    (
      e ∙ head,
      FreeList-frame node node' (node x).next (node' x).next ps
          (λ y inside. same y (λ o. inside o.1)) (ap (λ (n : Node). n.next) unchanged) rest,
    )

-- Every entry of the pool is outside of the list.
abbrev pub Disjoint : List ℕ → List ℕ → Type 0
Disjoint [] xs = Unit {0}
Disjoint (p ∷ ps) xs = Outside p xs × Disjoint ps xs

Disjoint-inside : (z : ℕ) (ps xs : List ℕ) → Disjoint ps xs → ¬ Outside z ps → Outside z xs
Disjoint-inside z [] xs d inside = absurd (inside tt)
Disjoint-inside z (p ∷ ps) xs d inside = elim (ℕ_discrete z p) [
  | yes same ↦ rw same d.0
  | no other ↦ Disjoint-inside z ps xs d.1 (λ o. inside (other, o))
]

Disjoint-cons : (x : ℕ) (ps xs : List ℕ) → Disjoint ps xs → Outside x ps → Disjoint ps (x ∷ xs)
Disjoint-cons x [] xs d o = tt
Disjoint-cons x (p ∷ ps) xs d o = (((λ e. o.0 (sym e)), d.0), Disjoint-cons x ps xs d.1 o.1)

Disjoint-remove : (x : ℕ) (ps xs : List ℕ) → Disjoint ps xs → Disjoint ps (remove x xs)
Disjoint-remove x [] xs d = tt
Disjoint-remove x (p ∷ ps) xs d = (Outside-remove p x xs d.0, Disjoint-remove x ps xs d.1)

Disjoint-Outside : (x : ℕ) (ps xs : List ℕ) → Disjoint ps xs → ¬ Outside x xs → Outside x ps
Disjoint-Outside x [] xs d inside = tt
Disjoint-Outside x (p ∷ ps) xs d inside =
    ((λ e. inside (subst (λ v. Outside v xs) (sym e) d.0)), Disjoint-Outside x ps xs d.1 inside)

-- The connections `xs` and the free entries `ps` partition the entries in memory.
pub record Partition (m : Memory) (xs ps : List ℕ) : Type 0 where
  pub attached : Attached m xs
  pub free : FreeList m.node m.pool ps
  pub distinct : Distinct ps
  pub disjoint : Disjoint ps xs

-- The calls of `accepting_request` for a new connection: an entry is allocated, `in_chain` is
-- cleared, and it is attached.
unfoldable pub open_connection : Memory → ℕ → ℕ × Memory
open_connection m fresh =
    let (x, m') = allocate_connection_info m fresh in
    (x, attach_connection_info_entry (set_in_chain m' x false) x)

-- What the end of a connection makes of the list and the pool: the entry is detached and freed.
unfoldable pub close_connection : Memory → ℕ → Option Memory
close_connection m x = elim (detach_connection_info_entry m x) [
  | none ↦ none
  | some m' ↦ some (free_connection_info m' x)
]

-- What does not touch the list keeps it.
keeps :
    (m m' : Memory) (xs : List ℕ)
    → Attached m xs
    → m'.node ≡ m.node
    → m'.infos ≡ m.infos
    → m'.number_of_entries ≡ m.number_of_entries
    → Attached m' xs
keeps m m' xs a n i c = record {
  linked = Segment-cast none (sym n) (sym i) refl a.linked;
  distinct = a.distinct;
  counted = c ∙ a.counted;
}

-- What an entry taken from the pool, or from `malloc`, leaves.
enter :
    (m : Memory) (xs ps : List ℕ) (x : ℕ)
    → Attached m xs
    → FreeList m.node m.pool ps
    → Distinct ps
    → Disjoint ps xs
    → Outside x xs
    → Outside x ps
    → Partition (attach_connection_info_entry (set_in_chain m x false) x) (x ∷ xs) ps
unfolding set_in_chain
enter m xs ps x a f d dis ox op =
    let marked = set_in_chain m x false in
    let marked_same : (z : ℕ) → z ≢ x → marked.node z ≡ m.node z = λ z ne. ground arith in
    let listed : Attached marked xs = record {
      linked =
          Segment-frame m.node marked.node none m.infos xs
            (λ z inside. marked_same z (apart x z xs ox inside)) a.linked;
      distinct = a.distinct;
      counted = a.counted;
    } in
    record {
      attached = attach-Attached marked x xs listed ox;
      free =
          FreeList-frame m.node _ m.pool _ ps
            (λ z inside.
              attach_other marked x z (apart x z ps op inside)
                (head_inside m.node none m.infos xs z a.linked (Disjoint-inside z ps xs dis inside))
              ∙ marked_same z (apart x z ps op inside))
            (attach_pool marked x) f;
      distinct = d;
      disjoint = Disjoint-cons x ps xs dis op;
    }

-- The entry that a new connection gets: the first of the pool, or a new one if the pool is empty.
abbrev pub taken : ℕ → List ℕ → ℕ
taken fresh [] = fresh
taken fresh (p ∷ ps) = p

abbrev pub left : List ℕ → List ℕ
left [] = []
left (p ∷ ps) = ps

open_empty :
    (m : Memory) (fresh : ℕ)
    → m.pool ≡ none
    → open_connection m fresh ≡ (
      fresh,
      attach_connection_info_entry
          (set_in_chain
            (record m { number_of_allocation = m.number_of_allocation + 1 })
            fresh
            false)
          fresh,
    )
unfolding open_connection allocate_connection_info
open_empty m fresh e = ground arith

open_pooled :
    (m : Memory) (fresh p : ℕ)
    → m.pool ≡ some p
    → open_connection m fresh ≡ (
      p,
      attach_connection_info_entry (set_in_chain (record m { pool = (m.node p).next }) p false) p,
    )
unfolding open_connection allocate_connection_info
open_pooled m fresh p e = ground arith

-- Where the connections and the free entries partition the entries and the address from `malloc` is
-- not in the list, to allocate and attach an entry moves the first free entry to the head of the
-- list, or adds the new address if the pool is empty.
pub open_connection-Partition :
    (m : Memory) (xs ps : List ℕ) (fresh : ℕ)
    → Partition m xs ps
    → Outside fresh xs
    → ((open_connection m fresh).0 ≡ taken fresh ps)
      × Partition (open_connection m fresh).1 (taken fresh ps ∷ xs) (left ps)
open_connection-Partition m xs [] fresh w o =
    let grown = record m { number_of_allocation = m.number_of_allocation + 1 } in
    rw (open_empty m fresh w.free)
      (refl, enter grown xs [] fresh (keeps m grown xs w.attached refl refl refl) w.free tt tt o tt)
open_connection-Partition m xs (p ∷ ps) fresh w o =
    let popped = record m { pool = (m.node p).next } in
    rw (open_pooled m fresh p w.free.0) (
      refl,
      enter popped xs ps p (keeps m popped xs w.attached refl refl refl) w.free.1 w.distinct.1
          w.disjoint.1 w.disjoint.0 w.distinct.0,
    )

-- Where the connections and the free entries partition the entries, to detach and free a connection
-- of the list returns with no fault and moves its entry from the list to the head of the pool.
pub close_connection-Partition :
    (m : Memory) (x : ℕ) (xs ps : List ℕ)
    → Partition m xs ps
    → ¬ Outside x xs
    → (m' : Memory) × (close_connection m x ≡ some m') × Partition m' (remove x xs) (x ∷ ps)
unfolding close_connection free_connection_info set_next
close_connection-Partition m x xs ps w inside =
    let (m', returned, gone) = detach-Detached m x xs w.attached inside in
    let freed = free_connection_info m' x in
    let other : (z : ℕ) → z ≢ x → freed.node z ≡ m'.node z = λ z ne. ground arith in
    let self : freed.node x ≡ record (m'.node x) { next = m'.pool } = ground arith in
    let x_free = Disjoint-Outside x ps xs w.disjoint inside in
    (
      freed,
      rw (returned, close_connection) refl,
      record {
        attached = record {
          linked =
              Segment-frame m'.node freed.node none m'.infos (remove x xs)
                (λ z among.
                  other z
                    (apart x z (remove x xs) (Outside-remove_self x xs w.attached.distinct) among))
                gone.attached.linked;
          distinct = gone.attached.distinct;
          counted = gone.attached.counted;
        };
        free = (
          refl,
          FreeList-frame m.node freed.node m.pool (freed.node x).next ps
              (λ z among.
                other z (apart x z ps x_free among)
                ∙ gone.outside z (Disjoint-inside z ps xs w.disjoint among))
              (ap (λ (n : Node). n.next) self ∙ gone.pool_is) w.free,
        );
        distinct = (x_free, w.distinct);
        disjoint =
            (Outside-remove_self x xs w.attached.distinct, Disjoint-remove x ps xs w.disjoint);
      },
    )
