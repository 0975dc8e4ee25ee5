-- ===== src/Events/Tests.antt =====
-- src/events.c: runs of the table, and the theorems at concrete tables.
use tcp_proxy.Prelude.{ℕ, ◌+◌, ◌≡◌, refl, ap, sym, true, false, [], ◌∷◌, some, none, arith}
use tcp_proxy.Prelude.Int.{pos, negsuc, ◌+ℤ◌}
use tcp_proxy.Prelude.Table.{sum_below, sum_below-eq_self}
use tcp_proxy.Events.{
  EventLoop, new_event_loop, add_event, remove_event, count, looping, scan_free, trim, find_fd,
}
use tcp_proxy.Events.Accounting.{
  IsValid, Watches, Added, Removed, new_event_loop-IsValid, add_event-Added, add_event_refused,
  remove_event-Removed, remove_event_free,
}
use tcp_proxy.Events.Slots.{used}
use tcp_proxy.Events.Dispatch.{looping-first}

abbrev Loop : Type 0
Loop = EventLoop ℕ ℕ

-- The listener on descriptor 3, a client on 7 and a server on 8; handlers and arguments are numbers.
abbrev listening : Loop
listening = (add_event new_event_loop true (pos 3) 100 0).0

abbrev proxying : Loop
proxying = (add_event (add_event listening true (pos 7) 101 1).0 true (pos 8) 102 1).0

run_all : Unit {0}
unfolding new_event_loop add_event remove_event count looping scan_free trim find_fd ◌+ℤ◌ sum_below
run_all = tt

-- The first slot is freed and taken again; the last ones are given up from the end.
reuses : (add_event (remove_event proxying (pos 0)).0 true (pos 9) 103 2).1 ≡ pos 0
unfolding run_all
reuses = refl

gives_up : (remove_event (remove_event proxying (pos 1)).0 (pos 2)).0.max_events ≡ 1
unfolding run_all
gives_up = refl

dispatches : looping proxying (pos 5 ∷ pos 8 ∷ pos 7 ∷ []) ≡ some (2, pos 8, some 102, some 1)
unfolding run_all
dispatches = refl

fresh : Loop
unfolding new_event_loop
fresh = new_event_loop

listening-Added : Added fresh (pos 3) 100 0 (add_event fresh true (pos 3) 100 0)
unfolding fresh
listening-Added =
    add_event-Added fresh (pos 3) 100 0 new_event_loop-IsValid (omega arith) (omega arith)

listening-IsValid : IsValid listening
unfolding fresh
listening-IsValid = listening-Added.valid

add_event-Added_example : Added listening (pos 7) 101 1 (add_event listening true (pos 7) 101 1)
unfolding run_all
add_event-Added_example =
    add_event-Added listening (pos 7) 101 1 listening-IsValid (omega arith) (omega arith)

proxying-Added :
    Added
      (add_event listening true (pos 7) 101 1).0
      (pos 8)
      102
      1
      (add_event (add_event listening true (pos 7) 101 1).0 true (pos 8) 102 1)
unfolding run_all
proxying-Added =
    add_event-Added (add_event listening true (pos 7) 101 1).0 (pos 8) 102 1
      (add_event-Added listening (pos 7) 101 1 listening-IsValid (omega arith) (omega arith)).valid
      (omega arith) (omega arith)

client_slot : Watches proxying 1 (pos 7) 101 1
unfolding run_all
client_slot = record { below = omega arith; fd_is = refl; handler_is = refl; arg_is = refl }

remove_event-Removed_example : Removed proxying 1 (remove_event proxying (pos 1))
remove_event-Removed_example =
    remove_event-Removed proxying 1 (pos 7) 101 1 proxying-Added.valid client_slot (omega arith)

abbrev holed : Loop
holed = (remove_event proxying (pos 1)).0

holed-IsValid : IsValid holed
holed-IsValid =
    (remove_event-Removed proxying 1 (pos 7) 101 1 proxying-Added.valid client_slot
      (omega arith)).valid

-- The client's slot is removed a second time.
remove_event_free_example :
    ((remove_event holed (pos 1)).1 ≡ true)
    × (count (remove_event holed (pos 1)).0 +ℤ pos 1 ≡ count holed)
    × ¬ IsValid (remove_event holed (pos 1)).0
unfolding run_all
remove_event_free_example = remove_event_free holed 1 holed-IsValid (omega arith) refl

add_event_refused_example :
    ((add_event listening false (pos 7) 101 1).1 ≡ negsuc 0)
    × ((add_event listening false (pos 7) 101 1).0.fds ≡ listening.fds)
    × (count (add_event listening false (pos 7) 101 1).0 ≡ count listening +ℤ pos 1)
unfolding run_all
add_event_refused_example =
    add_event_refused listening (pos 7) 101 1 listening-IsValid (omega arith)

abbrev crowded : Loop
crowded = record {
  fds = λ k. pos (k + 3);
  handlers = λ _. some 101;
  args = λ _. none;
  max_events = 1024;
  num_of_events = pos 1024;
}

crowded-IsValid : IsValid crowded
unfolding sum_below
crowded-IsValid = record {
  bounded = omega arith;
  counted = ap pos (sym (sum_below-eq_self 1024 (used crowded.fds) (λ k lt. ground arith)));
  marks = λ k lt neg. ground arith;
  trimmed = λ k e. ground arith;
}

looping-first_example :
    looping proxying (pos 5 ∷ pos 8 ∷ pos 7 ∷ []) ≡ some (2, pos 8, some 102, some 1)
unfolding run_all
looping-first_example =
    looping-first proxying 2 (pos 8) 102 1 (pos 5 ∷ []) (pos 7 ∷ [])
      (record { below = omega arith; fd_is = refl; handler_is = refl; arg_is = refl })
      (λ k lt e. ground arith) ((λ k lt e. ground arith), tt)
