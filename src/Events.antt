-- ===== src/Events.antt =====
-- src/events.c: the table of watched file descriptors behind the epoll instance. The answers of
-- `epoll_ctl` and `epoll_wait` are arguments. The arrays are functions of the index; the statics
-- are zero at first, and all that is read lies below `max_events`.
pub mod Slots
pub mod Accounting
pub mod Dispatch
mod Tests
use tcp_proxy.Prelude.{
  ℕ, zero, suc, ◌+◌, ◌-◌, ◌≡◌, Bool, true, false, ◌&&◌, Option, none, some, List, [], ◌∷◌, arith,
  leb, ltb, if◌then◌else◌,
}
use tcp_proxy.Prelude.Int.{ℤ, pos, negsuc, ◌+ℤ◌, ◌-ℤ◌, eqb_ℤ, leb_ℤ, ltb_ℤ, pos_part}
use tcp_proxy.Prelude.Table.{update}

-- MAX_EVENTS
abbrev pub max_table : ℕ
max_table = 1024

-- The `fds` entry of a free slot.
abbrev pub free_fd : ℤ
free_fd = negsuc 0

-- `struct event_loop_data_t`, over the handlers `H` and their arguments `A`.
pub record EventLoop {ℓ} (H A : Type ℓ) : Type ℓ where
  pub fds : ℕ → ℤ
  pub handlers : ℕ → Option H
  pub args : ℕ → Option A
  pub max_events : ℕ
  pub num_of_events : ℤ

unfoldable pub new_event_loop {ℓ} : {H A : Type ℓ} → EventLoop H A
new_event_loop = record {
  fds = λ _. pos 0;
  handlers = λ _. none;
  args = λ _. none;
  max_events = 0;
  num_of_events = pos 0;
}

-- The search of `find_first_free`, with `n` slots left from `i` on.
unfoldable pub scan_free : (ℕ → ℤ) → ℕ → ℕ → Option ℕ
scan_free fds zero i = none
scan_free fds (suc n) i = if eqb_ℤ (fds i) free_fd then some i else scan_free fds n (i + 1)

-- `while (max_events > 0 && fds[max_events - 1] < 0) max_events--;`
unfoldable pub trim : (ℕ → ℤ) → ℕ → ℕ
trim fds zero = zero
trim fds (suc m) = if ltb_ℤ (fds m) (pos 0) then trim fds m else suc m

-- The index of the event whose descriptor is `fd`, among `n` slots from `i` on (`ev_looping`).
unfoldable pub find_fd : (ℕ → ℤ) → ℤ → ℕ → ℕ → Option ℕ
find_fd fds fd zero i = none
find_fd fds fd (suc n) i = if eqb_ℤ fd (fds i) then some i else find_fd fds fd n (i + 1)

module _ {ℓ} {H A : Type ℓ} where
  -- A result of -1 is `none`.
  unfoldable pub find_first_free : EventLoop H A → EventLoop H A × Option ℕ
  find_first_free s = elim (scan_free s.fds s.max_events 0) [
    | some i ↦ (record s { num_of_events = s.num_of_events +ℤ pos 1 }, some i)
    | none ↦
        if ltb s.max_events max_table
        then (
          record s { max_events = s.max_events + 1; num_of_events = s.num_of_events +ℤ pos 1 },
          some s.max_events,
        )
        else (s, none)
  ]

  -- `added` tells whether `epoll_ctl (…, EPOLL_CTL_ADD, …)` succeeds.
  unfoldable pub add_event : EventLoop H A → Bool → ℤ → H → A → EventLoop H A × ℤ
  unfolding find_first_free
  add_event s added fd handler arg =
      let (t, found) = find_first_free s in
      elim found [
        | none ↦ (t, negsuc 1)
        | some i ↦
            if added
            then (
              record t {
                fds = update t.fds i fd;
                handlers = update t.handlers i (some handler);
                args = update t.args i (some arg);
              },
              pos i,
            )
            else (t, negsuc 0)
      ]

  unfoldable pub remove_event : EventLoop H A → ℤ → EventLoop H A × Bool
  remove_event s index =
      let i = pos_part index in
      let freed = update s.fds i free_fd in
      if leb_ℤ (pos 0) index && ltb_ℤ index (pos s.max_events)
      then (
        record s {
          fds = freed;
          num_of_events = s.num_of_events -ℤ pos 1;
          max_events = trim freed s.max_events;
        },
        true,
      )
      else (s, false)

  unfoldable pub count : EventLoop H A → ℤ
  count s = s.num_of_events

  -- The call that one round of `ev_looping` makes, as the slot's index, descriptor, handler and
  -- argument, when `epoll_wait` reports the descriptors `ready`: only the first event that is in
  -- the table is handled. A failure of `epoll_wait` is the empty list.
  unfoldable pub looping : EventLoop H A → List ℤ → Option (ℕ × ℤ × Option H × Option A)
  looping s [] = none
  looping s (fd ∷ ready) = elim (find_fd s.fds fd s.max_events 0) [
    | some i ↦ some (i, s.fds i, s.handlers i, s.args i)
    | none ↦ looping s ready
  ]
