-- ===== src/Proxying/Sweep.antt =====
-- src/proxying.c: `clean_idle_connections` with all that it does to a connection. The worker mutex is
-- held for one entry after the other; here no handler runs in between.
use tcp_proxy.Prelude.{
  ℕ, suc, ◌≡◌, refl, sym, subst, inl, inr, Bool, true, false, none, some, Option, List, [], ◌∷◌,
  ◌++◌, arith, if◌then◌else◌, Option-cases,
}
use tcp_proxy.Prelude.Int.{ℤ, pos, negsuc, ◌+ℤ◌, ◌-ℤ◌, ltb_ℤ}
use tcp_proxy.Prelude.Table.{update}
use tcp_proxy.Events.{EventLoop, remove_event}
use tcp_proxy.Connections.{Memory, detach_connection_info_entry, free_connection_info}
use tcp_proxy.Connections.Segments.{Outside}
use tcp_proxy.Connections.Removal.{remove}
use tcp_proxy.Connections.Detached.{detach-Detached}
use tcp_proxy.Connections.Pool.{Partition, close_connection, close_connection-Partition}
use tcp_proxy.Connections.Snapshot.{snapshot}
use tcp_proxy.Proxying.Ending.{close_report}
use tcp_proxy.Proxying.{
  Proxy, ConnectionInfo, Handler, Effect, shutdown, close, release, done, close_event, report_close,
}

-- `duration > timeout`, for times in microseconds.
unfoldable pub is_expired : ℕ → ℤ → ConnectionInfo → Bool
is_expired tv timeout i = ltb_ℤ timeout (pos tv -ℤ pos i.recent)

-- The body of the loop for an idle connection.
unfoldable pub expire : Proxy → ℕ → Option Proxy
unfolding close_event
expire s x = elim (detach_connection_info_entry s.memory x) [
  | none ↦ none
  | some m ↦
      let t = close_event (record s { memory = m }) x true in
      some (record t { memory = free_connection_info t.memory x })
]

-- The loop over the snapshot, with `counter`.
unfoldable pub expire_from : ℕ → ℤ → Proxy → List ℕ → Option (Proxy × ℕ)
unfolding is_expired expire
expire_from tv timeout s [] = some (s, 0)
expire_from tv timeout s (x ∷ xs) =
    let kept = expire_from tv timeout s xs in
    elim (expire s x) [
      | none ↦ if is_expired tv timeout (s.info x) then none else kept
      | some s' ↦
          let rest = expire_from tv timeout s' xs in
          if is_expired tv timeout (s.info x)
          then elim rest [ none ↦ none | some (t, counter) ↦ some (t, suc counter) ]
          else kept
    ]

unfoldable pub clean_idle : ℕ → ℤ → Proxy → Option (Proxy × ℕ)
unfolding expire_from
clean_idle tv timeout s = expire_from tv timeout s (snapshot s.memory)

-- A connection is idle if its last use and the timeout lie before the present time.
abbrev pub idle_at : ℕ → ℤ → Proxy → ℕ → Bool
idle_at tv timeout s k = ltb_ℤ (pos (s.info k).recent +ℤ timeout) (pos tv)

pub is_expired-idle_at :
    (tv : ℕ) (timeout : ℤ) (s : Proxy) (k : ℕ)
    → is_expired tv timeout (s.info k) ≡ idle_at tv timeout s k
unfolding is_expired ◌+ℤ◌ ◌-ℤ◌
is_expired-idle_at tv (pos n) s k = ground arith
is_expired-idle_at tv (negsuc n) s k = ground arith

-- The calls made for a connection that timed out.
abbrev pub timeout_calls : ConnectionInfo → ℕ → List Effect
timeout_calls i x =
    (shutdown i.client_fd
      ∷ shutdown i.server_fd
      ∷ close i.client_fd
      ∷ close i.server_fd
      ∷ release x
      ∷ [])
    ++ (close_report i true ++ (done ∷ []))

-- The calls for the idle connections of a list, in its order.
unfoldable pub swept_calls : (ℕ → Bool) → (ℕ → ConnectionInfo) → List ℕ → List Effect
swept_calls idle info [] = []
swept_calls idle info (x ∷ xs) =
    if idle x
    then timeout_calls (info x) x ++ swept_calls idle info xs
    else swept_calls idle info xs

-- The event loop without both events of each idle connection of a list.
unfoldable pub swept_events :
    (ℕ → Bool) → (ℕ → ConnectionInfo) → List ℕ → EventLoop Handler ℕ → EventLoop Handler ℕ
swept_events idle info [] ev = ev
swept_events idle info (x ∷ xs) ev =
    if idle x
    then swept_events idle info xs
        (remove_event (remove_event ev (info x).server_handle).0 (info x).client_handle).0
    else swept_events idle info xs ev

-- The state after an idle connection was expired; `m` is the memory without it in the list.
abbrev pub expired : Proxy → Memory → ℕ → Proxy
expired s m x = record s {
  memory = free_connection_info m x;
  ev = (remove_event (remove_event s.ev (s.info x).server_handle).0 (s.info x).client_handle).0;
  info = update s.info x (record (s.info x) { request_in_db = none });
  trace = s.trace ++ timeout_calls (s.info x) x;
}

close_event_idle :
    (s : Proxy) (x : ℕ)
    → (s.memory.node x).in_chain ≡ false
    → close_event s x true ≡ record s {
      ev = (remove_event (remove_event s.ev (s.info x).server_handle).0 (s.info x).client_handle).0;
      info = update s.info x (record (s.info x) { request_in_db = none });
      trace = s.trace ++ timeout_calls (s.info x) x;
    }
unfolding close_event report_close
close_event_idle s x out = rw out refl

expire-eq :
    (s : Proxy) (m : Memory) (x : ℕ)
    → detach_connection_info_entry s.memory x ≡ some m
    → (m.node x).in_chain ≡ false
    → expire s x ≡ some (expired s m x)
unfolding expire
expire-eq s m x d out = ground (arith, d, out, close_event_idle (record s { memory = m }) x out)

freed :
    (m m' m'' : Memory) (x : ℕ)
    → detach_connection_info_entry m x ≡ some m'
    → close_connection m x ≡ some m''
    → free_connection_info m' x ≡ m''
unfolding close_connection
freed m m' m'' x d c = ground arith

pub expire-expired :
    (s : Proxy) (x : ℕ) (xs ps : List ℕ)
    → Partition s.memory xs ps
    → ¬ Outside x xs
    → (m : Memory) × (expire s x ≡ some (expired s m x))
      × Partition (free_connection_info m x) (remove x xs) (x ∷ ps)
expire-expired s x xs ps w inside =
    let (m, returned, gone) = detach-Detached s.memory x xs w.attached inside in
    let (m', closed, w') = close_connection-Partition s.memory x xs ps w inside in
    (
      m,
      expire-eq s m x returned gone.unchained,
      subst (λ v. Partition v (remove x xs) (x ∷ ps)) (sym (freed s.memory m m' x returned closed))
          w',
    )

pub expired-recent :
    (s : Proxy) (m : Memory) (x k : ℕ) → ((expired s m x).info k).recent ≡ (s.info k).recent
expired-recent s m x k = ground arith

-- The paths through an entry of the loop.
module _ (tv : ℕ) (timeout : ℤ) (s : Proxy) (x : ℕ) (xs : List ℕ) where
  pub expire_from-kept :
      is_expired tv timeout (s.info x) ≡ false
      → expire_from tv timeout s (x ∷ xs) ≡ expire_from tv timeout s xs
  unfolding expire_from
  expire_from-kept fresh = elim (Option-cases (expire s x)) [
    | inl e ↦ rw (expire_from, e, fresh) refl
    | inr (s', e) ↦ rw (expire_from, e, fresh) refl
  ]

  pub expire_from-next :
      (s' t : Proxy) (n : ℕ)
      → is_expired tv timeout (s.info x) ≡ true
      → expire s x ≡ some s'
      → expire_from tv timeout s' xs ≡ some (t, n)
      → expire_from tv timeout s (x ∷ xs) ≡ some (t, suc n)
  unfolding expire_from
  expire_from-next s' t n idle e r = rw (expire_from, e, idle, r) refl
