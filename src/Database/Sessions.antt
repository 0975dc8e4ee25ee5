-- ===== src/Database/Sessions.antt =====
-- src/db_service.c: the sessions that the prepared statements belong to.
use tcp_proxy.Prelude.{
  ℕ, suc, ◌≡◌, refl, sym, ap, subst, ◌∙◌, inl, inr, Bool, true, false, Option, some, none, List, [],
  ◌∷◌, map, arith, ◌==◌, if◌then◌else◌, Bool-cases, Option-cases,
}
use tcp_proxy.Prelude.Int.{ℤ}
use tcp_proxy.Database.{
  Param, update_rows, Driver, Link, Holder, Service, try_connect, touch, connect_to_database,
  disconnect, prepare, prepare_as, retrieve_from, retrieve_statement, statement_for,
  sql_check_available,
}
use tcp_proxy.Database.Operations.{DbRequest, check_available, result, read_request}
use tcp_proxy.Database.Closing.{
  new_holder, new_database_service, stmt_indices, close_statement, close_all_statements, give_up,
  close_idle, db_service_done,
}
use tcp_proxy.Database.Retries.{create_statement_first}

-- A statement, if there is one, belongs to the session.
abbrev pub IsOf : ℕ → Option ℕ → Type 0
IsOf session none = Unit
IsOf session (some k) = k ≡ session

abbrev pub AllOf : ℕ → List Holder → Type 0
AllOf session [] = Unit
AllOf session (h ∷ holders) = IsOf session h.stmt × AllOf session holders

-- Every statement of the table belongs to the present session.
unfoldable pub AllCurrent : Service → Type 0
AllCurrent s = AllOf s.link.session s.stmt_holder

module _ (d : Driver) (all : (n : ℕ) → d.creates n ≡ true) where
  prepare_kept : (h : Holder) (l : Link) (k : ℕ) → h.stmt ≡ some k → prepare d h l ≡ (h, l)
  unfolding prepare
  prepare_kept h l k e = ap (λ o. prepare_as d o h.query h l) e

  prepare_bare : (h : Holder) (l : Link) → h.stmt ≡ none → h.query ≡ none → prepare d h l ≡ (h, l)
  unfolding prepare
  prepare_bare h l e q =
      ap (λ o. prepare_as d o h.query h l) e ∙ ap (λ o. prepare_as d none o h l) q

  prepare_new :
      (h : Holder) (l : Link) (text : List ℕ)
      → h.stmt ≡ none
      → h.query ≡ some text
      → prepare d h l
        ≡ (record h { stmt = some l.session }, record l { create_calls = suc l.create_calls })
  unfolding prepare
  prepare_new h l text e q =
      ap (λ o. prepare_as d o h.query h l) e
      ∙ ap (λ o. prepare_as d none o h l) q
      ∙ ap (λ r. (record h { stmt = r.1 }, r.0)) (create_statement_first d l (all l.create_calls))

  abbrev Prepared : Link → Holder × Link → Type 0
  Prepared l r = (r.1.session ≡ l.session) × IsOf l.session r.0.stmt

  prepare-IsOf : (h : Holder) (l : Link) → IsOf l.session h.stmt → Prepared l (prepare d h l)
  prepare-IsOf h l of = elim (Option-cases h.stmt) [
    | inr (k, e) ↦ subst (Prepared l) (sym (prepare_kept h l k e)) (refl, of)
    | inl e ↦ elim (Option-cases h.query) [
      | inl q ↦ subst (Prepared l) (sym (prepare_bare h l e q)) (refl, of)
      | inr (text, q) ↦ subst (Prepared l) (sym (prepare_new h l text e q)) (refl, refl)
    ]
  ]

  abbrev Retrieved : ℕ → List Holder × Link × Option ℕ → Type 0
  Retrieved session r = (r.1.session ≡ session) × AllOf session r.0 × IsOf session r.2

  retrieve_from-AllOf :
      (name : ℕ) (holders : List Holder) (l : Link)
      → AllOf l.session holders
      → Retrieved l.session (retrieve_from d name holders l)
  unfolding retrieve_from
  retrieve_from-AllOf name [] l of = (refl, tt, tt)
  retrieve_from-AllOf name (h ∷ holders) l of =
      let (same, here) = prepare-IsOf h l of.0 in
      let (same', others, there) = retrieve_from-AllOf name holders l of.1 in
      elim (Bool-cases (h.index == name)) [
        | inl e ↦ rw e (same, (here, of.1), here)
        | inr e ↦ rw e (same', (of.0, others), there)
      ]

  abbrev Answered : Service × Option ℕ → Type 0
  Answered r = AllCurrent r.0 × IsOf r.0.link.session r.1

  retrieve_statement-Answered :
      (name : ℕ) (s : Service) → AllCurrent s → Answered (retrieve_statement d name s)
  unfolding retrieve_statement AllCurrent
  retrieve_statement-Answered name s of =
      let (same, others, here) = retrieve_from-AllOf name s.stmt_holder s.link of in
      let r = retrieve_from d name s.stmt_holder s.link in
      subst (λ k. AllOf k r.0 × IsOf k r.2) (sym same) (others, here)

  touched : Service → Service
  touched s = record s { link = connect_to_database d s.link }

  touched-AllCurrent : (s : Service) → AllCurrent s → AllCurrent (touched s)
  unfolding touched AllCurrent connect_to_database try_connect touch
  touched-AllCurrent s of =
      let same : (connect_to_database d s.link).session ≡ s.link.session = ground arith in
      subst (λ k. AllOf k s.stmt_holder) (sym same) of

  statement_for-Answered :
      (name : ℕ) (s : Service) → AllCurrent s → Answered (statement_for d name s)
  unfolding statement_for touched
  statement_for-Answered name s of =
      let s' = touched s in
      let of' = touched-AllCurrent s of in
      let path : (b : Bool)
          → s'.link.connected ≡ b
          → statement_for d name s ≡ (if b then retrieve_statement d name s' else (s', none)) =
        λ b e. ap (λ c. if c then retrieve_statement d name s' else (s', none)) e in
      elim (Bool-cases s'.link.connected) [
        | inl e ↦ subst Answered (sym (path true e)) (retrieve_statement-Answered name s' of')
        | inr e ↦ subst Answered (sym (path false e)) (of', tt)
      ]

AllOf-closed : (session : ℕ) (holders : List Holder) → AllOf session (map close_statement holders)
unfolding close_statement
AllOf-closed session [] = tt
AllOf-closed session (h ∷ holders) = (tt, AllOf-closed session holders)

give_up-AllCurrent : (s : Service) → AllCurrent (give_up s)
unfolding give_up close_all_statements AllCurrent disconnect
give_up-AllCurrent s = AllOf-closed (suc s.link.session) s.stmt_holder

if-AllCurrent : (b : Bool) (s : Service) → AllCurrent s → AllCurrent (if b then give_up s else s)
if-AllCurrent true s of = give_up-AllCurrent s
if-AllCurrent false s of = of

-- What the program does with a server whose queries succeed: operations ask for statements, send
-- updates, and read a request; the connection is closed when it is idle or old.
pub data Steps (d : Driver) : Service → Service → Type 0 where
  none_left : {s : Service} → Steps d s s
  operation : {s t : Service} (name : ℕ) → Steps d (statement_for d name s).0 t → Steps d s t
  further : {s t : Service} (name : ℕ) → Steps d (retrieve_statement d name s).0 t → Steps d s t
  update_sent :
      {s t : Service} (name : ℕ) (params : List Param) (rows : ℤ)
      → Steps d (update_rows d name params rows s).0 t
      → Steps d s t
  request_read :
      {s t : Service} (remote_ip : List ℕ) (row : Option DbRequest)
      → Steps d (check_available d remote_ip (result row false) s).0 t
      → Steps d s t
  idle_check : {s t : Service} (tv : ℕ) → Steps d (close_idle tv s) t → Steps d s t
  age_check : {s t : Service} (max tv : ℕ) → Steps d (db_service_done max tv s) t → Steps d s t

-- Without an error in the query, `check_available` only asks for the statement.
check_available_read :
    (d : Driver) (remote_ip : List ℕ) (row : Option DbRequest) (s : Service)
    → (check_available d remote_ip (result row false) s).0
      ≡ (statement_for d sql_check_available s).0
unfolding check_available read_request
check_available_read d remote_ip row s =
    elim (Option-cases (statement_for d sql_check_available s).1) [
      | inl e ↦ rw (check_available, e) refl
      | inr (k, e) ↦ rw (check_available, e) refl
    ]

Steps-AllCurrent :
    {d : Driver} {s t : Service}
    → ((n : ℕ) → d.creates n ≡ true)
    → AllCurrent s
    → Steps d s t
    → AllCurrent t
unfolding close_idle db_service_done update_rows
Steps-AllCurrent all of none_left = of
Steps-AllCurrent {d} {s} all of (operation name steps) =
    Steps-AllCurrent all (statement_for-Answered d all name s of).0 steps
Steps-AllCurrent {d} {s} all of (further name steps) =
    Steps-AllCurrent all (retrieve_statement-Answered d all name s of).0 steps
Steps-AllCurrent {d} {s} all of (update_sent name params rows steps) =
    Steps-AllCurrent all (statement_for-Answered d all name s of).0 steps
Steps-AllCurrent {d} {s} all of (request_read remote_ip row steps) =
    Steps-AllCurrent all
      (subst AllCurrent (sym (check_available_read d remote_ip row s))
        (statement_for-Answered d all sql_check_available s of).0)
      steps
Steps-AllCurrent {d} {s} all of (idle_check tv steps) =
    Steps-AllCurrent all (if-AllCurrent _ s of) steps
Steps-AllCurrent {d} {s} all of (age_check max tv steps) =
    Steps-AllCurrent all (if-AllCurrent _ s of) steps

-- If every call of `createStatement` returns a statement and every statement of the table belongs to
-- the present session of the connection, then after any requests for statements, updates, calls of
-- `check_available` whose query raises no error, closings of an idle connection and closings of an
-- old one, a statement that an operation gets belongs to the session it is executed on.
pub statement_for-Current :
    (d : Driver) (s t : Service) (name k : ℕ)
    → ((n : ℕ) → d.creates n ≡ true)
    → AllCurrent s
    → Steps d s t
    → (statement_for d name t).1 ≡ some k
    → k ≡ (statement_for d name t).0.link.session
statement_for-Current d s t name k all of steps e =
    let (_, here) = statement_for-Answered d all name t (Steps-AllCurrent all of steps) in
    subst (IsOf (statement_for d name t).0.link.session) e here

AllOf-new :
    (session : ℕ) (enabled : Bool) (queries : ℕ → Option (List ℕ)) (indices : List ℕ)
    → AllOf session (map (new_holder enabled queries) indices)
unfolding new_holder
AllOf-new session enabled queries [] = tt
AllOf-new session enabled queries (i ∷ indices) = (tt, AllOf-new session enabled queries indices)

pub new_database_service-AllCurrent :
    (enable : ℤ) (queries : ℕ → Option (List ℕ)) → AllCurrent (new_database_service enable queries)
unfolding new_database_service AllCurrent
new_database_service-AllCurrent enable queries =
    AllOf-new 0 (new_database_service enable queries).link.enabled queries stmt_indices
