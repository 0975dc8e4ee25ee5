-- ===== src/Database/Retries.antt =====
-- src/db_service.c: how often a lost connection is tried again.
use tcp_proxy.Prelude.{
  ℕ, zero, suc, ◌+◌, ◌*◌, ◌≤◌, ◌<◌, ◌≡◌, refl, sym, subst, ◌∙◌, ap, inl, inr, true, false, some,
  arith, if◌then◌else◌, Bool-cases,
}
use tcp_proxy.Database.{
  Driver, Link, try_connect, touch, connect_to_database, disconnect, reconnect_to_database,
  safe_reconnect_from, try_reconnect, create_from, create_statement,
}

module _ (d : Driver) where
  connect_to_database-calls :
      (l : Link)
      → ((connect_to_database d l).connect_calls ≤ suc l.connect_calls)
        × ((connect_to_database d l).create_calls ≡ l.create_calls)
  unfolding connect_to_database try_connect touch
  connect_to_database-calls l = ground arith

  reconnect_to_database-calls :
      (l : Link)
      → ((reconnect_to_database d l).connect_calls ≤ suc l.connect_calls)
        × ((reconnect_to_database d l).create_calls ≡ l.create_calls)
  unfolding reconnect_to_database disconnect
  reconnect_to_database-calls l = connect_to_database-calls (disconnect l)

  -- The paths through an attempt.
  pub reconnect_hit :
      (n : ℕ) (l : Link)
      → (reconnect_to_database d l).connected ≡ true
      → safe_reconnect_from (suc n) d l ≡ reconnect_to_database d l
  unfolding safe_reconnect_from
  reconnect_hit n l e =
      let l' = reconnect_to_database d l in ap (λ b. if b then l' else safe_reconnect_from n d l') e

  pub reconnect_miss :
      (n : ℕ) (l : Link)
      → (reconnect_to_database d l).connected ≡ false
      → safe_reconnect_from (suc n) d l ≡ safe_reconnect_from n d (reconnect_to_database d l)
  unfolding safe_reconnect_from
  reconnect_miss n l e =
      let l' = reconnect_to_database d l in ap (λ b. if b then l' else safe_reconnect_from n d l') e

  safe_reconnect_from-calls :
      (n : ℕ) (l : Link)
      → ((safe_reconnect_from n d l).connect_calls ≤ n + l.connect_calls)
        × ((safe_reconnect_from n d l).create_calls ≡ l.create_calls)
  unfolding safe_reconnect_from
  safe_reconnect_from-calls zero l = (omega arith, refl)
  safe_reconnect_from-calls (suc n) l =
      let l' = reconnect_to_database d l in
      let once = reconnect_to_database-calls l in
      let more = safe_reconnect_from-calls n l' in
      elim (Bool-cases l'.connected) [
        | inl e ↦
            subst
              (λ z. (z.connect_calls ≤ suc n + l.connect_calls) × (z.create_calls ≡ l.create_calls))
              (sym (reconnect_hit n l e)) (omega (arith, once.0), once.1)
        | inr e ↦
            subst
              (λ z. (z.connect_calls ≤ suc n + l.connect_calls) × (z.create_calls ≡ l.create_calls))
              (sym (reconnect_miss n l e)) (omega (arith, once.0, more.0), more.1 ∙ once.1)
      ]

  create_from-calls :
      (n : ℕ) (l : Link)
      → ((create_from n d l).0.connect_calls ≤ n * 21 + l.connect_calls)
        × ((create_from n d l).0.create_calls ≤ n + l.create_calls)
  unfolding create_from try_reconnect
  create_from-calls zero l = (omega arith, omega arith)
  create_from-calls (suc n) l =
      let l' : Link = record l { create_calls = suc l.create_calls } in
      let once = safe_reconnect_from-calls 21 l' in
      let more = create_from-calls n (try_reconnect d l') in
      elim (Bool-cases (d.creates l.create_calls)) [
        | inl e ↦ rw (create_from, e) (omega arith, omega arith)
        | inr e ↦ rw (create_from, e) (omega (arith, once.0, more.0), omega (arith, once.1, more.1))
      ]

-- `create_statement` calls `createStatement` at most 60 times and `connect` at most 1260 times.
pub create_statement-calls :
    (d : Driver) (l : Link)
    → ((create_statement d l).0.connect_calls ≤ 1260 + l.connect_calls)
      × ((create_statement d l).0.create_calls ≤ 60 + l.create_calls)
unfolding create_statement
create_statement-calls d l = create_from-calls d 60 l

module _ (d : Driver) where
  -- The paths through an attempt to create a statement.
  abbrev called : Link → Link
  called l = record l { create_calls = suc l.create_calls }

  create_hit :
      (n : ℕ) (l : Link)
      → d.creates l.create_calls ≡ true
      → create_from (suc n) d l ≡ (called l, some l.session)
  unfolding create_from
  create_hit n l e =
      ap
        (λ b.
          if b then (called l, some l.session) else create_from n d (try_reconnect d (called l)))
        e

  create_miss :
      (n : ℕ) (l : Link)
      → d.creates l.create_calls ≡ false
      → create_from (suc n) d l ≡ create_from n d (try_reconnect d (called l))
  unfolding create_from
  create_miss n l e =
      ap
        (λ b.
          if b then (called l, some l.session) else create_from n d (try_reconnect d (called l)))
        e

  create_from-some :
      (n k : ℕ) (l : Link)
      → suc k ≤ n
      → d.creates (k + l.create_calls) ≡ true
      → (create_from n d l).1 ≡ some (create_from n d l).0.session
  unfolding try_reconnect
  create_from-some zero k l lt hit = absurd (omega arith)
  create_from-some (suc n) zero l lt hit =
      let at : 0 + l.create_calls ≡ l.create_calls = omega arith in
      let e = subst (λ c. d.creates c ≡ true) at hit in
      subst (λ r. r.1 ≡ some r.0.session) (sym (create_hit n l e)) refl
  create_from-some (suc n) (suc k) l lt hit = elim (Bool-cases (d.creates l.create_calls)) [
    | inl e ↦ subst (λ r. r.1 ≡ some r.0.session) (sym (create_hit n l e)) refl
    | inr e ↦
        let l' = try_reconnect d (called l) in
        let same : l'.create_calls ≡ suc l.create_calls =
          (safe_reconnect_from-calls d 21 (called l)).1 in
        let at : suc k + l.create_calls ≡ k + l'.create_calls = omega (arith, same) in
        subst (λ r. r.1 ≡ some r.0.session) (sym (create_miss n l e))
          (create_from-some n k l' (omega arith) (subst (λ c. d.creates c ≡ true) at hit))
  ]

-- If one of the first 60 calls of `createStatement` from now on returns a statement,
-- `create_statement` returns one, which belongs to the session of the connection as it leaves it.
pub create_statement-some :
    (d : Driver) (l : Link) (k : ℕ)
    → k < 60
    → d.creates (k + l.create_calls) ≡ true
    → (create_statement d l).1 ≡ some (create_statement d l).0.session
unfolding create_statement
create_statement-some d l k lt hit = create_from-some d 60 k l (omega arith) hit

pub create_statement_first :
    (d : Driver) (l : Link)
    → d.creates l.create_calls ≡ true
    → create_statement d l ≡ (record l { create_calls = suc l.create_calls }, some l.session)
unfolding create_statement
create_statement_first d l e = create_hit d 59 l e
