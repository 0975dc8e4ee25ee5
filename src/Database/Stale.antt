-- ===== src/Database/Stale.antt =====
-- src/db_service.c: the prepared statements after a query has failed and the connection was made again.
use tcp_proxy.Prelude.{
  ℕ, zero, suc, ◌≤◌, ◌<◌, ◌≡◌, refl, sym, ap, subst, ◌∙◌, inl, inr, Bool, true, false, Option, some,
  none, List, [], ◌∷◌, arith, ◌==◌, if◌then◌else◌, Bool-cases, Option-cases,
}
use tcp_proxy.Database.{
  Driver, Link, Holder, Service, try_connect, touch, connect_to_database, disconnect, prepare,
  prepare_as, retrieve_from, retrieve_statement, statement_for, reconnect_to_database,
  safe_reconnect_from, try_reconnect, sql_check_available,
}
use tcp_proxy.Database.Operations.{check_available, failed, read_request}
use tcp_proxy.Database.Retries.{reconnect_hit, reconnect_miss}
use tcp_proxy.Database.Sessions.{IsOf, AllOf, AllCurrent}

-- A statement, if there is one, belongs to an earlier session.
abbrev IsBefore : ℕ → Option ℕ → Type 0
IsBefore session none = Unit
IsBefore session (some k) = k < session

abbrev AllBefore : ℕ → List Holder → Type 0
AllBefore session [] = Unit
AllBefore session (h ∷ holders) = IsBefore session h.stmt × AllBefore session holders

unfoldable pub AllEarlier : Service → Type 0
AllEarlier s = AllBefore s.link.session s.stmt_holder

IsOf→IsBefore : (old new : ℕ) (stmt : Option ℕ) → old < new → IsOf old stmt → IsBefore new stmt
IsOf→IsBefore old new none lt of = tt
IsOf→IsBefore old new (some k) lt of = omega (arith, lt, of)

AllOf→AllBefore :
    (old new : ℕ) (holders : List Holder) → old < new → AllOf old holders → AllBefore new holders
AllOf→AllBefore old new [] lt of = tt
AllOf→AllBefore old new (h ∷ holders) lt of =
    (IsOf→IsBefore old new h.stmt lt of.0, AllOf→AllBefore old new holders lt of.1)

reconnect-session : (d : Driver) (l : Link) → (reconnect_to_database d l).session ≡ suc l.session
unfolding reconnect_to_database connect_to_database try_connect touch disconnect
reconnect-session d l = ground arith

safe_reconnect_from-session :
    (n : ℕ) (d : Driver) (l : Link) → l.session ≤ (safe_reconnect_from n d l).session
unfolding safe_reconnect_from
safe_reconnect_from-session zero d l = omega arith
safe_reconnect_from-session (suc n) d l =
    let l' = reconnect_to_database d l in
    let once = reconnect-session d l in
    elim (Bool-cases l'.connected) [
      | inl e ↦
          subst (λ z. l.session ≤ z.session) (sym (reconnect_hit d n l e)) (omega (arith, once))
      | inr e ↦
          subst (λ z. l.session ≤ z.session) (sym (reconnect_miss d n l e))
            (omega (arith, once, safe_reconnect_from-session n d l'))
    ]

try_reconnect-session : (d : Driver) (l : Link) → l.session < (try_reconnect d l).session
unfolding try_reconnect
try_reconnect-session d l =
    let l' = reconnect_to_database d l in
    let once = reconnect-session d l in
    elim (Bool-cases l'.connected) [
      | inl e ↦
          subst (λ z. l.session < z.session) (sym (reconnect_hit d 20 l e)) (omega (arith, once))
      | inr e ↦
          subst (λ z. l.session < z.session) (sym (reconnect_miss d 20 l e))
            (omega (arith, once, safe_reconnect_from-session 20 d l'))
    ]

-- The holder of a statement keeps it: a later call answers it again, whatever the connection is.
prepare-index : (d : Driver) (h : Holder) (l : Link) → (prepare d h l).0.index ≡ h.index
unfolding prepare
prepare-index d h l = elim (Option-cases h.stmt) [
  | inr (k, e) ↦ ap (λ o. (prepare_as d o h.query h l).0.index) e
  | inl e ↦ ap (λ o. (prepare_as d o h.query h l).0.index) e ∙ elim (Option-cases h.query) [
    | inl q ↦ ap (λ o. (prepare_as d none o h l).0.index) q
    | inr (text, q) ↦ ap (λ o. (prepare_as d none o h l).0.index) q
  ]
]

retrieve_from-again :
    (d : Driver) (name k : ℕ) (holders : List Holder) (l l' : Link)
    → (retrieve_from d name holders l).2 ≡ some k
    → (retrieve_from d name (retrieve_from d name holders l).0 l').2 ≡ some k
unfolding retrieve_from
retrieve_from-again d name k [] l l' e = absurd (ground (arith, e))
retrieve_from-again d name k (h ∷ holders) l l' e = elim (Bool-cases (h.index == name)) [
  | inl hit ↦
      let h' = (prepare d h l).0 in
      let path : retrieve_from d name (h ∷ holders) l ≡ (h' ∷ holders, (prepare d h l).1, h'.stmt) =
        rw (retrieve_from, hit) refl in
      let has : h'.stmt ≡ some k = sym (ap (λ r. r.2) path) ∙ e in
      let hit' : (h'.index == name) ≡ true = ap (λ i. i == name) (prepare-index d h l) ∙ hit in
      let again : (retrieve_from d name (h' ∷ holders) l').2 ≡ (prepare d h' l').0.stmt =
        rw (retrieve_from, hit') refl in
      ap (λ r. (retrieve_from d name r.0 l').2) path
      ∙ again
      ∙ ap (λ o. (prepare_as d o h'.query h' l').0.stmt) has
      ∙ has
  | inr miss ↦
      let r = retrieve_from d name holders l in
      let path : retrieve_from d name (h ∷ holders) l ≡ (h ∷ r.0, r.1, r.2) =
        rw (retrieve_from, miss) refl in
      let again : (retrieve_from d name (h ∷ r.0) l').2 ≡ (retrieve_from d name r.0 l').2 =
        rw (retrieve_from, miss) refl in
      ap (λ q. (retrieve_from d name q.0 l').2) path
      ∙ again
      ∙ retrieve_from-again d name k holders l l' (sym (ap (λ q. q.2) path) ∙ e)
]

retrieve_from-found :
    (d : Driver) (name k session : ℕ) (holders : List Holder) (l : Link)
    → (retrieve_from d name holders l).2 ≡ some k
    → AllOf session (retrieve_from d name holders l).0
    → k ≡ session
unfolding retrieve_from
retrieve_from-found d name k session [] l e of = absurd (ground (arith, e))
retrieve_from-found d name k session (h ∷ holders) l e of = elim (Bool-cases (h.index == name)) [
  | inl hit ↦
      let h' = (prepare d h l).0 in
      let path : retrieve_from d name (h ∷ holders) l ≡ (h' ∷ holders, (prepare d h l).1, h'.stmt) =
        rw (retrieve_from, hit) refl in
      let here = subst (λ r. AllOf session r.0) path of in
      subst (IsOf session) (sym (ap (λ r. r.2) path) ∙ e) here.0
  | inr miss ↦
      let r = retrieve_from d name holders l in
      let path : retrieve_from d name (h ∷ holders) l ≡ (h ∷ r.0, r.1, r.2) =
        rw (retrieve_from, miss) refl in
      let there = subst (λ q. AllOf session q.0) path of in
      retrieve_from-found d name k session holders l (sym (ap (λ q. q.2) path) ∙ e) there.1
]

-- An operation that gets a statement has a connection.
statement_for-some :
    (d : Driver) (name k : ℕ) (s : Service)
    → (statement_for d name s).1 ≡ some k
    → (s' : Service) × (statement_for d name s ≡ retrieve_statement d name s')
unfolding statement_for
statement_for-some d name k s e =
    let s' : Service = record s { link = connect_to_database d s.link } in
    let path : (b : Bool)
        → s'.link.connected ≡ b
        → statement_for d name s ≡ (if b then retrieve_statement d name s' else (s', none)) =
      λ b c. ap (λ z. if z then retrieve_statement d name s' else (s', none)) c in
    elim (Bool-cases s'.link.connected) [
      | inl c ↦ (s', path true c)
      | inr c ↦ absurd (ground (arith, sym e ∙ ap (λ r. r.1) (path false c)))
    ]

-- If `check_available` gets a statement, every statement of the table then belongs to the present
-- session, and the query fails, then it leaves the table with the same statements, all of earlier
-- sessions of the connection, and the next retrieval of its statement answers that same statement,
-- of an earlier session than the present one.
pub check_available-AllEarlier :
    (d : Driver) (s : Service) (remote_ip : List ℕ) (k : ℕ)
    → AllCurrent (statement_for d sql_check_available s).0
    → (statement_for d sql_check_available s).1 ≡ some k
    → ((check_available d remote_ip failed s).0.stmt_holder
        ≡ (statement_for d sql_check_available s).0.stmt_holder)
      × AllEarlier (check_available d remote_ip failed s).0
      × (k < (check_available d remote_ip failed s).0.link.session)
      × ((retrieve_statement d sql_check_available (check_available d remote_ip failed s).0).1
          ≡ some k)
unfolding check_available AllCurrent AllEarlier read_request retrieve_statement
check_available-AllEarlier d s remote_ip k of e =
    let t = (statement_for d sql_check_available s).0 in
    let after : Service = record t { link = try_reconnect d t.link } in
    let path : (check_available d remote_ip failed s).0 ≡ after = rw (check_available, e) refl in
    let later = try_reconnect-session d t.link in
    let (s', there) = statement_for-some d sql_check_available k s e in
    let found : (retrieve_from d sql_check_available s'.stmt_holder s'.link).2 ≡ some k =
      sym (ap (λ r. r.1) there) ∙ e in
    let table : t.stmt_holder ≡ (retrieve_from d sql_check_available s'.stmt_holder s'.link).0 =
      ap (λ r. r.0.stmt_holder) there in
    let owner : k ≡ t.link.session =
      retrieve_from-found d sql_check_available k t.link.session s'.stmt_holder s'.link found
        (subst (AllOf t.link.session) table of) in
    (
      ap (λ z. z.stmt_holder) path,
      subst (λ z. AllBefore z.link.session z.stmt_holder) (sym path)
          (AllOf→AllBefore t.link.session after.link.session t.stmt_holder later of),
      subst (λ z. k < z.link.session) (sym path) (omega (arith, owner, later)),
      ap (λ z. (retrieve_from d sql_check_available z.stmt_holder z.link).2) path
          ∙ ap (λ holders. (retrieve_from d sql_check_available holders after.link).2) table
          ∙ retrieve_from-again d sql_check_available k s'.stmt_holder s'.link after.link found,
    )
