-- ===== src/Proxying/Swept.antt =====
-- src/proxying.c: what `clean_idle_connections` leaves, when no handler runs in between.
use native.Mathlib.Decide.{ℕ_discrete}
use tcp_proxy.Prelude.{
  ℕ, ◌≡◌, ◌≢◌, refl, sym, ap, subst, ◌∙◌, ◌⊎◌, inl, inr, Bool, true, false, none, some, List, [],
  ◌∷◌, ◌++◌, arith, Bool-cases,
}
use tcp_proxy.Prelude.Int.{ℤ, pos, ◌-ℤ◌, ltb_ℤ}
use tcp_proxy.Prelude.Table.{update}
use tcp_proxy.Events.{remove_event}
use tcp_proxy.Connections.{Memory, free_connection_info}
use tcp_proxy.Connections.Segments.{Outside}
use tcp_proxy.Connections.Pool.{Partition}
use tcp_proxy.Connections.Snapshot.{snapshot-Attached}
use tcp_proxy.Connections.Idle.{
  survivors, released, count_idle, inside_suffix, Outside-suffix, remove-prefix, append_one,
}
use tcp_proxy.Proxying.{Proxy, ConnectionInfo, Effect}
use tcp_proxy.Proxying.Sweep.{
  is_expired, expire, expire_from, clean_idle, idle_at, is_expired-idle_at, timeout_calls,
  swept_calls, swept_events, expired, expire-expired, expired-recent, expire_from-kept,
  expire_from-next,
}

append_assoc : (xs bs cs : List Effect) → (xs ++ bs) ++ cs ≡ xs ++ (bs ++ cs)
append_assoc [] bs cs = refl
append_assoc (a ∷ xs) bs cs = ap (λ l. a ∷ l) (append_assoc xs bs cs)

append_nil : (xs : List Effect) → xs ++ [] ≡ xs
append_nil [] = refl
append_nil (a ∷ xs) = ap (λ l. a ∷ l) (append_nil xs)

-- The entries of a list carry what `info₀` says.
abbrev Agree : (ℕ → ConnectionInfo) → (ℕ → ConnectionInfo) → List ℕ → Type 0
Agree info info₀ [] = Unit
Agree info info₀ (x ∷ xs) = (info x ≡ info₀ x) × Agree info info₀ xs

Agree-refl : (info : ℕ → ConnectionInfo) (xs : List ℕ) → Agree info info xs
Agree-refl info [] = tt
Agree-refl info (x ∷ xs) = (refl, Agree-refl info xs)

update_other :
    (info : ℕ → ConnectionInfo) (x k : ℕ) (v : ConnectionInfo) → k ≢ x → update info x v k ≡ info k
update_other info x k v ne = ground (arith, ne)

Agree-update :
    (info info₀ : ℕ → ConnectionInfo) (x : ℕ) (v : ConnectionInfo) (xs : List ℕ)
    → Outside x xs
    → Agree info info₀ xs
    → Agree (update info x v) info₀ xs
Agree-update info info₀ x v [] out a = tt
Agree-update info info₀ x v (y ∷ xs) out a =
    (update_other info x y v (λ e. out.0 (sym e)) ∙ a.0, Agree-update info info₀ x v xs out.1 a.1)

-- What the sweep of the connections `zs` leaves, after it has spared `ks`.
pub record Swept (idle : ℕ → Bool) (info₀ : ℕ → ConnectionInfo) (s : Proxy) (ks zs ps : List ℕ)
    (t : Proxy) : Type 0 where
  pub partition : Partition t.memory (ks ++ survivors idle zs) (released idle zs ps)
  pub unwatched : t.ev ≡ swept_events idle info₀ zs s.ev
  pub calls : t.trace ≡ s.trace ++ swept_calls idle info₀ zs
  pub others : (k : ℕ) → (idle k ≡ false) ⊎ Outside k zs → t.info k ≡ s.info k
  pub requests_gone : (k : ℕ) → ¬ Outside k zs → idle k ≡ true → (t.info k).request_in_db ≡ none

module _ (tv : ℕ) (timeout : ℤ) (idle : ℕ → Bool) (info₀ : ℕ → ConnectionInfo) where
  abbrev Sweeps : Proxy → List ℕ → List ℕ → List ℕ → Type 0
  Sweeps s ks zs ps =
      (t : Proxy) × (expire_from tv timeout s zs ≡ some (t, count_idle idle zs))
      × Swept idle info₀ s ks zs ps t

  sweep_idle :
      (s : Proxy) (m : Memory) (x : ℕ) (ks zs ps : List ℕ)
      → idle x ≡ true
      → is_expired tv timeout (s.info x) ≡ true
      → s.info x ≡ info₀ x
      → Outside x zs
      → expire s x ≡ some (expired s m x)
      → Sweeps (expired s m x) ks zs (x ∷ ps)
      → Sweeps s ks (x ∷ zs) ps
  unfolding survivors released count_idle swept_events swept_calls
  sweep_idle s m x ks zs ps e late same out run (t, returned, w) = (
    t,
    rw e (
        expire_from-next tv timeout s x zs (expired s m x) t (count_idle idle zs) late run
          returned),
    record {
      partition = rw e w.partition;
      unwatched = rw e (
          w.unwatched
          ∙ ap
              (λ i.
                swept_events idle info₀ zs
                  (remove_event (remove_event s.ev i.server_handle).0 i.client_handle).0)
              same);
      calls = rw e (
          w.calls
          ∙ append_assoc s.trace (timeout_calls (s.info x) x) (swept_calls idle info₀ zs)
          ∙ ap (λ i. s.trace ++ (timeout_calls i x ++ swept_calls idle info₀ zs)) same);
      others = λ k c. elim c [
        | inl fresh ↦
            w.others k (inl fresh)
            ∙ update_other s.info x k _ (λ q. absurd (ground (arith, e, fresh, ap idle q)))
        | inr away ↦ w.others k (inr away.1) ∙ update_other s.info x k _ away.0
      ];
      requests_gone = λ k inside late'. elim (ℕ_discrete k x) [
        | yes q ↦
            ap (λ i. i.request_in_db) (w.others k (inr (subst (λ j. Outside j zs) (sym q) out)))
            ∙ ground (arith, q)
        | no ne ↦ w.requests_gone k (λ o. inside (ne, o)) late'
      ];
    },
  )

  sweep_fresh :
      (s : Proxy) (x : ℕ) (ks zs ps : List ℕ)
      → idle x ≡ false
      → is_expired tv timeout (s.info x) ≡ false
      → Sweeps s (ks ++ x ∷ []) zs ps
      → Sweeps s ks (x ∷ zs) ps
  unfolding survivors released count_idle swept_events swept_calls
  sweep_fresh s x ks zs ps e late (t, returned, w) = (
    t,
    rw e (expire_from-kept tv timeout s x zs late ∙ returned),
    record {
      partition = rw e (
          subst (λ ys. Partition t.memory ys (released idle zs ps))
            (append_one x ks (survivors idle zs)) w.partition);
      unwatched = rw e w.unwatched;
      calls = rw e w.calls;
      others =
          λ k c. elim c [ inl fresh ↦ w.others k (inl fresh) | inr away ↦ w.others k (inr away.1) ];
      requests_gone = λ k inside late'. elim (ℕ_discrete k x) [
        | yes q ↦ absurd (ground (arith, e, late', ap idle q))
        | no ne ↦ w.requests_gone k (λ o. inside (ne, o)) late'
      ];
    },
  )

  sweep :
      (zs : List ℕ) (s : Proxy) (ks ps : List ℕ)
      → Partition s.memory (ks ++ zs) ps
      → ((k : ℕ) → is_expired tv timeout (s.info k) ≡ idle k)
      → Agree s.info info₀ zs
      → Sweeps s ks zs ps
  unfolding survivors released count_idle swept_events swept_calls expire_from is_expired
  sweep [] s ks ps w same a = (
    s,
    refl,
    record {
      partition = w;
      unwatched = refl;
      calls = sym (append_nil s.trace);
      others = λ k out. refl;
      requests_gone = λ k inside late. absurd (inside tt);
    },
  )
  sweep (x ∷ zs) s ks ps w same a = elim (Bool-cases (idle x)) [
    | inl e ↦
        let (m, run, w') = expire-expired s x (ks ++ x ∷ zs) ps w (inside_suffix x ks zs) in
        let out = Outside-suffix x ks zs w.attached.distinct in
        sweep_idle s m x ks zs ps e (same x ∙ e) a.0 out run (
          sweep zs (expired s m x) ks (x ∷ ps)
            (subst (λ ys. Partition (free_connection_info m x) ys (x ∷ ps))
              (remove-prefix x ks zs w.attached.distinct) w')
            (λ k. ap (λ r. ltb_ℤ timeout (pos tv -ℤ pos r)) (expired-recent s m x k) ∙ same k)
            (Agree-update s.info info₀ x _ zs out a.1))
    | inr e ↦ sweep_fresh s x ks zs ps e (same x ∙ e) (
        sweep zs s (ks ++ x ∷ []) ps
          (subst (λ ys. Partition s.memory ys ps) (sym (append_one x ks zs)) w) same a.1)
  ]

-- If the connections of the list and the free entries partition the entries and no handler runs
-- meanwhile, `clean_idle_connections` with any timeout, also a negative one, returns with no fault:
-- of exactly the connections of the list whose last use is longer ago than the timeout it removes
-- both events, makes the calls that close them, in the order of the list, forgets the requests,
-- moves the entries to the pool in that order, and counts them; the others stay in the list in their
-- order, and their contents stay as they were.
pub clean_idle-Partition :
    (tv : ℕ) (timeout : ℤ) (s : Proxy) (xs ps : List ℕ)
    → Partition s.memory xs ps
    → (t : Proxy) × (clean_idle tv timeout s ≡ some (t, count_idle (idle_at tv timeout s) xs))
      × Swept (idle_at tv timeout s) s.info s [] xs ps t
unfolding clean_idle
clean_idle-Partition tv timeout s xs ps w =
    let idle = idle_at tv timeout s in
    let (t, returned, swept) =
      sweep tv timeout idle s.info xs s [] ps w (is_expired-idle_at tv timeout s)
        (Agree-refl s.info xs) in
    (t, ap (expire_from tv timeout s) (snapshot-Attached s.memory xs w.attached) ∙ returned, swept)
