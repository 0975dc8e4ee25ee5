-- ===== src/Events/Accounting.antt =====
-- src/events.c: the counters of the table against its slots, under `add_event` and `remove_event`.
use native.Mathlib.Decide.{dec_lt, ℕ_discrete}
use native.Mathlib.Numerals.{add-one}
use tcp_proxy.Prelude.{
  ℕ, ◌+◌, ◌≤◌, ◌<◌, ◌≡◌, ◌≢◌, refl, inl, inr, Bool, true, false, none, some, arith, Option-cases,
  subst, sym, ap,
}
use tcp_proxy.Prelude.Int.{
  pos_part, neg_part, ℤ, pos, negsuc, ◌+ℤ◌, ◌-ℤ◌, ◌≤ℤ◌, ◌<ℤ◌, eqb_ℤ, int_laws, +ℤ_pos,
}
use tcp_proxy.Prelude.Table.{update, sum_below, sum_below-eq_self, sum_below-le, sum_below_congr}
use tcp_proxy.Events.{
  EventLoop, max_table, free_fd, scan_free, trim, add_event, remove_event, count, new_event_loop,
}
use tcp_proxy.Events.Slots.{
  used, live, MarksOnly, IsTrimmed, scan_free-some, scan_free-none, live-fill, live-free,
  live-above, trim_lem,
}

module _ {ℓ} {H A : Type ℓ} where
  -- The counters agree with the slots, and no free slot stands at the end.
  pub record IsValid (s : EventLoop H A) : Type ℓ where
    pub bounded : s.max_events ≤ max_table
    pub counted : s.num_of_events ≡ pos (live s.fds s.max_events)
    pub marks : MarksOnly s.fds s.max_events
    pub trimmed : IsTrimmed s.fds s.max_events

  -- Slot `i` of `s` watches `fd`.
  pub record Watches (s : EventLoop H A) (i : ℕ) (fd : ℤ) (h : H) (a : A) : Type ℓ where
    pub below : i < s.max_events
    pub fd_is : s.fds i ≡ fd
    pub handler_is : s.handlers i ≡ some h
    pub arg_is : s.args i ≡ some a

  pub new_event_loop-IsValid : IsValid (new_event_loop {H = H} {A = A})
  unfolding new_event_loop sum_below
  new_event_loop-IsValid = record {
    bounded = omega arith;
    counted = refl;
    marks = λ k lt. absurd (omega arith);
    trimmed = λ k e. absurd (omega arith);
  }

  -- A descriptor fills a hole.
  fill_hole-IsValid :
      (s t : EventLoop H A) (i : ℕ) (fd : ℤ)
      → IsValid s
      → i < s.max_events
      → s.fds i ≡ free_fd
      → pos 0 ≤ℤ fd
      → t.fds ≡ update s.fds i fd
      → t.max_events ≡ s.max_events
      → t.num_of_events ≡ s.num_of_events +ℤ pos 1
      → IsValid t
  fill_hole-IsValid s t i fd v lt hole nonneg e m n = record {
    bounded = rw m v.bounded;
    counted =
        rw (n, e, m, v.counted)
          (omega (int_laws, live-fill s.fds s.max_events i fd lt hole (ground arith)));
    marks = rw (e, m) (λ k below neg. ground (arith, v.marks k));
    trimmed = rw (e, m) (λ k last. ground (arith, v.trimmed k));
  }

  -- A descriptor goes to a new slot at the end.
  extend-IsValid :
      (s t : EventLoop H A) (fd : ℤ)
      → IsValid s
      → s.max_events < max_table
      → pos 0 ≤ℤ fd
      → t.fds ≡ update s.fds s.max_events fd
      → t.max_events ≡ s.max_events + 1
      → t.num_of_events ≡ s.num_of_events +ℤ pos 1
      → IsValid t
  unfolding sum_below
  extend-IsValid s t fd v lt nonneg e m n = record {
    bounded = rw m (omega arith);
    counted =
        rw (n, e, m, v.counted, add-one)
          (ground (
            arith,
            +ℤ_pos (live s.fds s.max_events) 1,
            live-above s.fds s.max_events s.max_events fd (omega arith),
          ));
    marks = rw (e, m) (λ k below neg. ground (arith, v.marks k));
    trimmed = rw (e, m) (λ k last. ground arith);
  }

  -- With no free slot below the end, every slot is in use.
  live-full :
      (s : EventLoop H A)
      → scan_free s.fds s.max_events 0 ≡ none
      → live s.fds s.max_events ≡ s.max_events
  live-full s e =
      sum_below-eq_self s.max_events (used s.fds)
        (λ k lt. ground (arith, scan_free-none s.fds s.max_events 0 k e))

  -- `add_event` on each of its paths, with `epoll_ctl` in agreement.
  add_event-hole :
      (s : EventLoop H A) (i : ℕ) (fd : ℤ) (h : H) (a : A)
      → scan_free s.fds s.max_events 0 ≡ some i
      → add_event s true fd h a ≡ (
        record s {
          fds = update s.fds i fd;
          handlers = update s.handlers i (some h);
          args = update s.args i (some a);
          num_of_events = s.num_of_events +ℤ pos 1;
        },
        pos i,
      )
  unfolding add_event
  add_event-hole s i fd h a e = ground arith

  add_event-end :
      (s : EventLoop H A) (fd : ℤ) (h : H) (a : A)
      → scan_free s.fds s.max_events 0 ≡ none
      → s.max_events < max_table
      → add_event s true fd h a ≡ (
        record {
          fds = update s.fds s.max_events fd;
          handlers = update s.handlers s.max_events (some h);
          args = update s.args s.max_events (some a);
          max_events = s.max_events + 1;
          num_of_events = s.num_of_events +ℤ pos 1;
        },
        pos s.max_events,
      )
  unfolding add_event
  add_event-end s fd h a e lt = ground arith

  -- What a successful `add_event` leaves: the slot of the returned index watches the descriptor,
  -- and every earlier watch stays as it was.
  pub record Added (s : EventLoop H A) (fd : ℤ) (h : H) (a : A) (r : EventLoop H A × ℤ)
      : Type ℓ where
    pub index : ℕ
    pub returned : r.1 ≡ pos index
    pub valid : IsValid r.0
    pub watches : Watches r.0 index fd h a
    pub counted : r.0.num_of_events ≡ s.num_of_events +ℤ pos 1
    pub others :
        (k : ℕ) (fd' : ℤ) (h' : H) (a' : A)
        → Watches s k fd' h' a'
        → pos 0 ≤ℤ fd'
        → Watches r.0 k fd' h' a'

  -- In a valid table with fewer than 1024 events, `add_event` of a nonnegative descriptor that
  -- `epoll_ctl` accepts returns the index of a slot that watches it, leaves a valid table with one
  -- more event, and keeps every earlier watch of a nonnegative descriptor.
  pub add_event-Added :
      (s : EventLoop H A) (fd : ℤ) (h : H) (a : A)
      → IsValid s
      → pos 0 ≤ℤ fd
      → s.num_of_events <ℤ pos max_table
      → Added s fd h a (add_event s true fd h a)
  add_event-Added s fd h a v nonneg room = elim (Option-cases (scan_free s.fds s.max_events 0)) [
    | inr (i, e) ↦
        let (lo, hi, hole) = scan_free-some s.fds s.max_events 0 i e in
        rw (add_event-hole s i fd h a e) (record {
          index = i;
          returned = refl;
          valid = fill_hole-IsValid s _ i fd v (omega arith) hole nonneg refl refl refl;
          watches = record {
            below = omega arith;
            fd_is = ground arith;
            handler_is = ground arith;
            arg_is = ground arith;
          };
          counted = refl;
          others = λ k fd' h' a' w nonneg'.
              let apart : k ≢ i =
                λ p. ground (arith, subst (λ j. s.fds j ≡ free_fd) (sym p) hole) in
              record {
                below = w.below;
                fd_is = ground arith;
                handler_is = ground arith;
                arg_is = ground arith;
              };
        })
    | inl e ↦
        let full = live-full s e in
        let lt : s.max_events < max_table = ground (arith, v.counted, full) in
        rw (add_event-end s fd h a e lt) (record {
          index = s.max_events;
          returned = refl;
          valid = extend-IsValid s _ fd v lt nonneg refl refl refl;
          watches = record {
            below = omega arith;
            fd_is = ground arith;
            handler_is = ground arith;
            arg_is = ground arith;
          };
          counted = refl;
          others = λ k fd' h' a' w nonneg'. record {
            below = omega arith;
            fd_is = ground arith;
            handler_is = ground arith;
            arg_is = ground arith;
          };
        })
  ]

  full_has_no_hole :
      (s : EventLoop H A) (i : ℕ)
      → IsValid s
      → s.num_of_events ≡ pos max_table
      → scan_free s.fds s.max_events 0 ≢ some i
  full_has_no_hole s i v n e =
      let (lo, hi, hole) = scan_free-some s.fds s.max_events 0 i e in
      let more = live-fill s.fds s.max_events i (pos 0) (omega arith) hole refl in
      let few = sum_below-le s.max_events (used (update s.fds i (pos 0))) (λ k. ground arith) in
      ground (arith, v.counted, v.bounded, more, few)

  -- In a valid table with fewer than 1024 events, `add_event` of a descriptor that `epoll_ctl`
  -- refuses returns -1 and leaves the descriptors as they were, but counts one more event.
  pub add_event_refused :
      (s : EventLoop H A) (fd : ℤ) (h : H) (a : A)
      → IsValid s
      → s.num_of_events <ℤ pos max_table
      → ((add_event s false fd h a).1 ≡ negsuc 0)
        × ((add_event s false fd h a).0.fds ≡ s.fds)
        × (count (add_event s false fd h a).0 ≡ count s +ℤ pos 1)
  unfolding add_event count
  add_event_refused s fd h a v room = elim (Option-cases (scan_free s.fds s.max_events 0)) [
    | inl e ↦ ground (arith, v.counted, live-full s e)
    | inr (i, e) ↦ ground arith
  ]

  -- What `remove_event` leaves of a watched slot.
  pub record Removed (s : EventLoop H A) (i : ℕ) (r : EventLoop H A × Bool) : Type ℓ where
    pub returned : r.1 ≡ true
    pub valid : IsValid r.0
    pub counted : count r.0 +ℤ pos 1 ≡ count s
    pub freed : r.0.fds i ≡ free_fd
    pub others :
        (k : ℕ) (fd' : ℤ) (h' : H) (a' : A)
        → k ≢ i
        → Watches s k fd' h' a'
        → pos 0 ≤ℤ fd'
        → Watches r.0 k fd' h' a'

  remove_event-eq :
      (s : EventLoop H A) (i : ℕ)
      → i < s.max_events
      → remove_event s (pos i) ≡ (
        record s {
          fds = update s.fds i free_fd;
          num_of_events = s.num_of_events -ℤ pos 1;
          max_events = trim (update s.fds i free_fd) s.max_events;
        },
        true,
      )
  unfolding remove_event
  remove_event-eq s i lt = ground arith

  -- In a valid table, `remove_event` of a slot that watches a nonnegative descriptor returns true,
  -- frees the slot, leaves a valid table with one event less, and keeps every other watch of a
  -- nonnegative descriptor.
  pub remove_event-Removed :
      (s : EventLoop H A) (i : ℕ) (fd : ℤ) (h : H) (a : A)
      → IsValid s
      → Watches s i fd h a
      → pos 0 ≤ℤ fd
      → Removed s i (remove_event s (pos i))
  unfolding count
  remove_event-Removed s i fd h a v w nonneg =
      let freed = update s.fds i free_fd in
      let used_i : eqb_ℤ (s.fds i) free_fd ≡ false = rw w.fd_is (ground arith) in
      let fewer = live-free s.fds s.max_events i w.below used_i in
      let (shorter, same, fixed, gone) =
        trim_lem freed s.max_events (λ k lt neg. ground (arith, v.marks k)) in
      rw (remove_event-eq s i w.below) (record {
        returned = refl;
        valid = record {
          bounded = omega (arith, v.bounded);
          counted = rw (v.counted, same) (omega (int_laws, fewer));
          marks = λ k lt neg. ground (arith, v.marks k);
          trimmed = fixed;
        };
        counted = omega int_laws;
        freed = ground arith;
        others = λ k fd' h' a' ne wk nonneg'. record {
          below = elim (dec_lt k (trim freed s.max_events)) [
            | yes p ↦ p
            | no p ↦ absurd (ground (arith, gone k (omega arith) wk.below, wk.fd_is))
          ];
          fd_is = ground (arith, wk.fd_is);
          handler_is = wk.handler_is;
          arg_is = wk.arg_is;
        };
      })

  -- In a valid table, `remove_event` of a slot below the end that is free already returns true,
  -- counts one event less, and leaves a table that is not valid.
  pub remove_event_free :
      (s : EventLoop H A) (i : ℕ)
      → IsValid s
      → i < s.max_events
      → s.fds i ≡ free_fd
      → ((remove_event s (pos i)).1 ≡ true)
        × (count (remove_event s (pos i)).0 +ℤ pos 1 ≡ count s)
        × ¬ IsValid (remove_event s (pos i)).0
  unfolding count
  remove_event_free s i v lt hole =
      let freed = update s.fds i free_fd in
      let (shorter, same, fixed, gone) =
        trim_lem freed s.max_events (λ k below neg. ground (arith, v.marks k)) in
      let still =
        sum_below_congr s.max_events (used freed) (used s.fds) (λ k below. elim (ℕ_discrete k i) [
          | yes e ↦ rw e (ground arith)
          | no d ↦ ground arith
        ]) in
      rw (remove_event-eq s i lt) (
        refl,
        omega int_laws,
        λ u. omega (
          int_laws,
          same,
          still,
          ap pos_part v.counted,
          ap pos_part u.counted,
          ap neg_part v.counted,
          ap neg_part u.counted,
        ),
      )
