-- ===== src/Proxying/Ending.antt =====
-- src/proxying.c: the end of a connection: its entry, its two slots in the event loop, and the calls
-- made for it.
use tcp_proxy.Prelude.{
  ℕ, ◌≡◌, ◌≢◌, refl, sym, ap, subst, ◌∙◌, Bool, false, none, some, List, [], ◌∷◌, ◌++◌, arith,
}
use tcp_proxy.Prelude.Int.{ℤ, pos, ◌+ℤ◌, ◌≤ℤ◌, int_laws, eq_of_parts, pos_part, neg_part}
use tcp_proxy.Prelude.Table.{update}
use tcp_proxy.Blacklist.{to_int}
use tcp_proxy.Events.{EventLoop, remove_event, count, free_fd}
use tcp_proxy.Events.Accounting.{IsValid, Watches, remove_event-Removed}
use tcp_proxy.Connections.{Memory, detach_connection_info_entry, free_connection_info}
use tcp_proxy.Connections.Segments.{Outside}
use tcp_proxy.Connections.Removal.{remove}
use tcp_proxy.Connections.Detached.{detach-Detached}
use tcp_proxy.Connections.Pool.{Partition, close_connection, close_connection-Partition}
use tcp_proxy.Proxying.{
  ConnectionInfo, Effect, shutdown, close, release, done, Proxy, Handler, to_server, to_client,
  close_event, end_connection, report_close,
}

-- The report to the database on a connection with a request there: its identity, narrowed to an
-- `int`, the bytes received, the requests, and whether it timed out.
abbrev pub close_report : ConnectionInfo → Bool → List Effect
close_report i idle = elim i.request_in_db [
  | none ↦ []
  | some request ↦
      Effect.connection_close (to_int i.insert_id) i.bytes_received i.request_count idle ∷ []
]

-- The calls made at the end of a connection.
abbrev pub closing_calls : ConnectionInfo → ℕ → List Effect
closing_calls i x =
    (shutdown i.client_fd
      ∷ shutdown i.server_fd
      ∷ close i.client_fd
      ∷ close i.server_fd
      ∷ release x
      ∷ [])
    ++ (close_report i false ++ (done ∷ []))

-- What the end of connection `x` leaves.
pub record Ended (s : Proxy) (x : ℕ) (xs ps : List ℕ) (s' : Proxy) : Type 0 where
  pub partition : Partition s'.memory (remove x xs) (x ∷ ps)
  pub unwatched :
      s'.ev
      ≡ (remove_event (remove_event s.ev (s.info x).server_handle).0 (s.info x).client_handle).0
  pub calls : s'.trace ≡ s.trace ++ closing_calls (s.info x) x
  pub others : (z : ℕ) → z ≢ x → s'.info z ≡ s.info z
  pub request_gone : (s'.info x).request_in_db ≡ none

freed :
    (m m' m'' : Memory) (x : ℕ)
    → detach_connection_info_entry m x ≡ some m'
    → close_connection m x ≡ some m''
    → free_connection_info m' x ≡ m''
unfolding close_connection
freed m m' m'' x d c = ground arith

-- The state after `close_event`, for a connection that is out of the list.
abbrev closed : Proxy → ℕ → Proxy
closed s x = record s {
  ev = (remove_event (remove_event s.ev (s.info x).server_handle).0 (s.info x).client_handle).0;
  info = update s.info x (record (s.info x) { request_in_db = none });
  trace = s.trace ++ closing_calls (s.info x) x;
}

close_event_out :
    (s : Proxy) (x : ℕ) → (s.memory.node x).in_chain ≡ false → close_event s x false ≡ closed s x
unfolding close_event report_close
close_event_out s x out = rw out refl

end_connection-eq :
    (s : Proxy) (m : Memory) (x : ℕ)
    → detach_connection_info_entry s.memory x ≡ some m
    → (m.node x).in_chain ≡ false
    → end_connection s x
      ≡ some (record (closed (record s { memory = m }) x) { memory = free_connection_info m x })
unfolding end_connection
end_connection-eq s m x d out =
    ground (arith, d, out, close_event_out (record s { memory = m }) x out)

-- A connection of the list ends with no fault.
pub end_connection-Ended :
    (s : Proxy) (x : ℕ) (xs ps : List ℕ)
    → Partition s.memory xs ps
    → ¬ Outside x xs
    → (s' : Proxy) × (end_connection s x ≡ some s') × Ended s x xs ps s'
end_connection-Ended s x xs ps w inside =
    let (m, returned, gone) = detach-Detached s.memory x xs w.attached inside in
    let (m', closed, w') = close_connection-Partition s.memory x xs ps w inside in
    (
      _,
      end_connection-eq s m x returned gone.unchained,
      record {
        partition =
            subst (λ v. Partition v (remove x xs) (x ∷ ps))
              (sym (freed s.memory m m' x returned closed)) w';
        unwatched = refl;
        calls = refl;
        others = λ z ne. ground arith;
        request_gone = ground arith;
      },
    )

-- The event loop watches both ends of connection `x`, in the slots that its handles name.
pub record BothWatched (s : Proxy) (x i j : ℕ) : Type 0 where
  pub client_at : (s.info x).client_handle ≡ pos i
  pub server_at : (s.info x).server_handle ≡ pos j
  pub client : Watches s.ev i (s.info x).client_fd to_server x
  pub server : Watches s.ev j (s.info x).server_fd to_client x
  pub apart : i ≢ j
  pub client_fd_valid : pos 0 ≤ℤ (s.info x).client_fd
  pub server_fd_valid : pos 0 ≤ℤ (s.info x).server_fd

-- At the end of a connection, both of its slots are free, the count is down by two, and every other
-- watched descriptor stays.
pub record Unwatched (before after : EventLoop Handler ℕ) (i j : ℕ) : Type 0 where
  pub valid : IsValid after
  pub counted : count after +ℤ pos 2 ≡ count before
  pub client_free : after.fds i ≡ free_fd
  pub others :
      (k : ℕ) (fd : ℤ) (h : Handler) (a : ℕ)
      → k ≢ i
      → k ≢ j
      → Watches before k fd h a
      → pos 0 ≤ℤ fd
      → Watches after k fd h a

removed_twice :
    (ev : EventLoop Handler ℕ) (i j : ℕ) (fi fj : ℤ) (hi hj : Handler) (x : ℕ)
    → IsValid ev
    → Watches ev i fi hi x
    → Watches ev j fj hj x
    → pos 0 ≤ℤ fi
    → pos 0 ≤ℤ fj
    → i ≢ j
    → Unwatched ev (remove_event (remove_event ev (pos j)).0 (pos i)).0 i j
unfolding count
removed_twice ev i j fi fj hi hj x v wi wj pi pj ne =
    let first = remove_event-Removed ev j fj hj x v wj pj in
    let still = first.others i fi hi x ne wi pi in
    let second = remove_event-Removed (remove_event ev (pos j)).0 i fi hi x first.valid still pi in
    record {
      valid = second.valid;
      counted = eq_of_parts _ _ (
          omega (
            int_laws,
            ap pos_part first.counted,
            ap neg_part first.counted,
            ap pos_part second.counted,
            ap neg_part second.counted,
          ));
      client_free = second.freed;
      others = λ k fd h a ki kj w p. second.others k fd h a ki (first.others k fd h a kj w p) p;
    }

-- For a connection of the list whose two descriptors are watched in distinct slots of a valid event
-- loop, named by its handles, the end of the connection returns with no fault, moves the entry to
-- the pool, makes the calls that close it, forgets its request, leaves the event loop valid with two
-- events less and the client's slot free, and keeps every other watch of a nonnegative descriptor.
pub end_connection-Unwatched :
    (s : Proxy) (x i j : ℕ) (xs ps : List ℕ)
    → Partition s.memory xs ps
    → ¬ Outside x xs
    → IsValid s.ev
    → BothWatched s x i j
    → (s' : Proxy) × (end_connection s x ≡ some s') × Ended s x xs ps s' × Unwatched s.ev s'.ev i j
end_connection-Unwatched s x i j xs ps w inside v b =
    let (s', run, e) = end_connection-Ended s x xs ps w inside in
    let twice =
      removed_twice s.ev i j (s.info x).client_fd (s.info x).server_fd to_server to_client x v
        b.client b.server b.client_fd_valid b.server_fd_valid b.apart in
    let by_handles : s'.ev ≡ (remove_event (remove_event s.ev (pos j)).0 (pos i)).0 =
      e.unwatched
      ∙ ap (λ h. (remove_event (remove_event s.ev h).0 (s.info x).client_handle).0) b.server_at
      ∙ ap (λ h. (remove_event (remove_event s.ev (pos j)).0 h).0) b.client_at in
    (s', run, e, subst (λ ev. Unwatched s.ev ev i j) (sym by_handles) twice)
