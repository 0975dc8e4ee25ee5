-- ===== src/Proxying/Admission/Lifecycle.antt =====
-- src/proxying.c: what a call of `accepting_request` comes to.
use tcp_proxy.Prelude.{
  ℕ, ◌≡◌, ◌≢◌, refl, sym, ap, subst, ◌∙◌, Bool, true, Option, none, some, List, ◌∷◌, arith,
}
use tcp_proxy.Prelude.Int.{ℤ, pos, ◌+ℤ◌, ◌≤ℤ◌, ◌<ℤ◌, pos_part, neg_part, int_laws, eq_of_parts}
use tcp_proxy.Prelude.Table.{update}
use tcp_proxy.Events.{EventLoop, add_event, max_table, count}
use tcp_proxy.Events.Accounting.{IsValid, Added, add_event-Added}
use tcp_proxy.Connections.Segments.{Outside}
use tcp_proxy.Connections.Removal.{remove_hit}
use tcp_proxy.Connections.Pool.{Partition, open_connection, open_connection-Partition, taken, left}
use tcp_proxy.Proxying.{
  ProxyRequest, ConnectionInfo, Proxy, to_server, to_client, end_connection, Handler,
}
use tcp_proxy.Proxying.Ending.{BothWatched, end_connection-Unwatched}
use tcp_proxy.Proxying.Admission.Arrival.{Answers, establish}

-- What a new connection leaves.
pub record Established (s : Proxy) (client_fd server_fd : ℤ) (x : ℕ) (xs ps : List ℕ) (s' : Proxy)
    : Type 0 where
  pub partition : Partition s'.memory (x ∷ xs) ps
  pub client_fd_is : (s'.info x).client_fd ≡ client_fd
  pub server_fd_is : (s'.info x).server_fd ≡ server_fd
  pub unused : (s'.info x).request_count ≡ 0
  pub others : (z : ℕ) → z ≢ x → s'.info z ≡ s.info z

establish_memory :
    (s : Proxy) (answers : Answers) (client_fd server_fd : ℤ) (remote_ip : List ℕ)
    (request : Option ProxyRequest) (counter : ℤ) (now : ℕ)
    → (establish s answers client_fd server_fd remote_ip request counter now).memory
      ≡ (open_connection s.memory answers.fresh).1
unfolding establish
establish_memory s answers client_fd server_fd remote_ip none counter now = refl
establish_memory s answers client_fd server_fd remote_ip (some r) counter now = refl

-- What `establish` writes for the entry `x` that it takes.
record Placed (s : Proxy) (answers : Answers) (client_fd server_fd : ℤ) (x : ℕ) (s' : Proxy)
    : Type 0 where
  others : (z : ℕ) → z ≢ x → s'.info z ≡ s.info z
  client_fd_is : (s'.info x).client_fd ≡ client_fd
  server_fd_is : (s'.info x).server_fd ≡ server_fd
  unused : (s'.info x).request_count ≡ 0
  client_handle_is :
      (s'.info x).client_handle ≡ (add_event s.ev answers.client_added client_fd to_server x).1
  server_handle_is :
      (let ev = (add_event s.ev answers.client_added client_fd to_server x).0 in
        (s'.info x).server_handle ≡ (add_event ev answers.server_added server_fd to_client x).1)
  ev_is :
      (let ev = (add_event s.ev answers.client_added client_fd to_server x).0 in
        s'.ev ≡ (add_event ev answers.server_added server_fd to_client x).0)

update_hit {ℓ} : {A : Type ℓ} (f : ℕ → A) (x : ℕ) (v : A) → update f x v x ≡ v
update_hit f x v = ground arith

establish-Placed :
    (s : Proxy) (answers : Answers) (client_fd server_fd : ℤ) (remote_ip : List ℕ)
    (request : Option ProxyRequest) (counter : ℤ) (now : ℕ)
    → Placed s answers client_fd server_fd
        (open_connection s.memory answers.fresh).0
        (establish s answers client_fd server_fd remote_ip request counter now)
unfolding establish
establish-Placed s answers client_fd server_fd remote_ip none counter now =
    let x = (open_connection s.memory answers.fresh).0 in
    let hit = update_hit s.info x _ in
    record {
      others = λ z ne. ground arith;
      client_fd_is = ap (λ (i : ConnectionInfo). i.client_fd) hit;
      server_fd_is = ap (λ (i : ConnectionInfo). i.server_fd) hit;
      unused = ap (λ (i : ConnectionInfo). i.request_count) hit;
      client_handle_is = ap (λ (i : ConnectionInfo). i.client_handle) hit;
      server_handle_is = ap (λ (i : ConnectionInfo). i.server_handle) hit;
      ev_is = refl;
    }
establish-Placed s answers client_fd server_fd remote_ip (some r) counter now =
    let x = (open_connection s.memory answers.fresh).0 in
    let hit = update_hit s.info x _ in
    record {
      others = λ z ne. ground arith;
      client_fd_is = ap (λ (i : ConnectionInfo). i.client_fd) hit;
      server_fd_is = ap (λ (i : ConnectionInfo). i.server_fd) hit;
      unused = ap (λ (i : ConnectionInfo). i.request_count) hit;
      client_handle_is = ap (λ (i : ConnectionInfo). i.client_handle) hit;
      server_handle_is = ap (λ (i : ConnectionInfo). i.server_handle) hit;
      ev_is = refl;
    }

pub establish-Established :
    (s : Proxy) (answers : Answers) (client_fd server_fd : ℤ) (remote_ip : List ℕ)
    (request : Option ProxyRequest) (counter : ℤ) (now : ℕ) (xs ps : List ℕ)
    → Partition s.memory xs ps
    → Outside answers.fresh xs
    → Established s client_fd server_fd
        (taken answers.fresh ps)
        xs
        (left ps)
        (establish s answers client_fd server_fd remote_ip request counter now)
establish-Established s answers client_fd server_fd remote_ip request counter now xs ps w o =
    let s' = establish s answers client_fd server_fd remote_ip request counter now in
    let (address, w') = open_connection-Partition s.memory xs ps answers.fresh w o in
    let placed =
      subst (λ x. Placed s answers client_fd server_fd x s') address
        (establish-Placed s answers client_fd server_fd remote_ip request counter now) in
    record {
      partition =
          subst (λ m. Partition m (taken answers.fresh ps ∷ xs) (left ps))
            (sym (establish_memory s answers client_fd server_fd remote_ip request counter now)) w';
      client_fd_is = placed.client_fd_is;
      server_fd_is = placed.server_fd_is;
      unused = placed.unused;
      others = placed.others;
    }

distinct_handlers :
    (ev : EventLoop Handler ℕ) (i j : ℕ)
    → ev.handlers i ≡ some to_server
    → ev.handlers j ≡ some to_client
    → i ≢ j
distinct_handlers ev i j hi hj same = absurd (ground (arith, hi, hj, same))

-- Both ends of a new connection are watched, in slots that its handles name.
pub record Watched (s s' : Proxy) (x : ℕ) : Type 0 where
  pub client_slot : ℕ
  pub server_slot : ℕ
  pub both : BothWatched s' x client_slot server_slot
  pub valid : IsValid s'.ev
  pub counted : count s'.ev ≡ count s.ev +ℤ pos 2

added :
    (ev : EventLoop Handler ℕ) (answer : Bool) (fd : ℤ) (h : Handler) (x : ℕ)
    → IsValid ev
    → ev.num_of_events <ℤ pos max_table
    → pos 0 ≤ℤ fd
    → answer ≡ true
    → Added ev fd h x (add_event ev answer fd h x)
added ev answer fd h x v room nonneg yes' = rw yes' (add_event-Added ev fd h x v nonneg room)

-- With room for two more events, both ends of a new connection are watched.
pub establish-Watched :
    (s : Proxy) (answers : Answers) (client_fd server_fd : ℤ) (remote_ip : List ℕ)
    (request : Option ProxyRequest) (counter : ℤ) (now : ℕ)
    → IsValid s.ev
    → s.ev.num_of_events +ℤ pos 1 <ℤ pos max_table
    → pos 0 ≤ℤ client_fd
    → pos 0 ≤ℤ server_fd
    → answers.client_added ≡ true
    → answers.server_added ≡ true
    → Watched s
        (establish s answers client_fd server_fd remote_ip request counter now)
        (open_connection s.memory answers.fresh).0
unfolding count
establish-Watched s answers client_fd server_fd remote_ip request counter now v room nc ns ac as' =
    let x = (open_connection s.memory answers.fresh).0 in
    let s' = establish s answers client_fd server_fd remote_ip request counter now in
    let placed = establish-Placed s answers client_fd server_fd remote_ip request counter now in
    let first = added s.ev answers.client_added client_fd to_server x v (omega int_laws) nc ac in
    let ev = (add_event s.ev answers.client_added client_fd to_server x).0 in
    let more : ev.num_of_events <ℤ pos max_table =
      subst (λ n. n <ℤ pos max_table) (sym first.counted) room in
    let second = added ev answers.server_added server_fd to_client x first.valid more ns as' in
    let kept = second.others first.index client_fd to_server x first.watches nc in
    record {
      client_slot = first.index;
      server_slot = second.index;
      both = record {
        client_at = placed.client_handle_is ∙ first.returned;
        server_at = placed.server_handle_is ∙ second.returned;
        client = rw (placed.ev_is, placed.client_fd_is) kept;
        server = rw (placed.ev_is, placed.server_fd_is) second.watches;
        apart =
            distinct_handlers (add_event ev answers.server_added server_fd to_client x).0
              first.index second.index kept.handler_is second.watches.handler_is;
        client_fd_valid = rw placed.client_fd_is nc;
        server_fd_valid = rw placed.server_fd_is ns;
      };
      valid = rw placed.ev_is second.valid;
      counted =
          ap (λ (l : EventLoop Handler ℕ). l.num_of_events) placed.ev_is
          ∙ eq_of_parts _ _ (
              omega (
                int_laws,
                ap pos_part first.counted,
                ap neg_part first.counted,
                ap pos_part second.counted,
                ap neg_part second.counted,
              ));
    }

inside_cons : (x : ℕ) (xs : List ℕ) → ¬ Outside x (x ∷ xs)
inside_cons x xs o = o.0 refl

-- In a valid event loop with room for two more events, with `epoll_ctl` in agreement, nonnegative
-- descriptors, a partition of the entries and a fresh address, a connection that is established and
-- then ends with no fault leaves the list as it was, its entry at the head of the pool, and a valid
-- event loop with as many events as before.
pub end_connection-establish :
    (s : Proxy) (answers : Answers) (client_fd server_fd : ℤ) (remote_ip : List ℕ)
    (request : Option ProxyRequest) (counter : ℤ) (now : ℕ) (xs ps : List ℕ)
    → Partition s.memory xs ps
    → Outside answers.fresh xs
    → IsValid s.ev
    → s.ev.num_of_events +ℤ pos 1 <ℤ pos max_table
    → pos 0 ≤ℤ client_fd
    → pos 0 ≤ℤ server_fd
    → answers.client_added ≡ true
    → answers.server_added ≡ true
    → (s' : Proxy) × (end_connection
          (establish s answers client_fd server_fd remote_ip request counter now)
          (taken answers.fresh ps)
        ≡ some s')
      × Partition s'.memory xs (taken answers.fresh ps ∷ left ps)
      × IsValid s'.ev
      × (count s'.ev ≡ count s.ev)
unfolding count
end_connection-establish s answers client_fd server_fd remote_ip request counter now xs ps w o v
      room nc ns ac as' =
    let x = taken answers.fresh ps in
    let opened = establish s answers client_fd server_fd remote_ip request counter now in
    let established =
      establish-Established s answers client_fd server_fd remote_ip request counter now xs ps w o in
    let watched =
      subst (λ y. Watched s opened y) (open_connection-Partition s.memory xs ps answers.fresh w o).0
        (establish-Watched s answers client_fd server_fd remote_ip request counter now v room nc ns
          ac as') in
    let (s', run, ended, unwatched) =
      end_connection-Unwatched opened x watched.client_slot watched.server_slot (x ∷ xs) (left ps)
        established.partition (inside_cons x xs) watched.valid watched.both in
    (
      s',
      run,
      subst (λ ys. Partition s'.memory ys (x ∷ left ps)) (remove_hit x x xs refl) ended.partition,
      unwatched.valid,
      eq_of_parts _ _ (
          omega (
            int_laws,
            ap pos_part unwatched.counted,
            ap neg_part unwatched.counted,
            ap pos_part watched.counted,
            ap neg_part watched.counted,
          )),
    )
