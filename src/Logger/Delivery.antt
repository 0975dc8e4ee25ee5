-- ===== src/Logger/Delivery.antt =====
-- src/common_logger.c: which appender gets which messages.
use tcp_proxy.Prelude.{
  ℕ, suc, ◌≡◌, refl, ap, ◌∙◌, inl, inr, true, false, List, [], ◌∷◌, ◌++◌, arith, ltb, ◌==◌,
  if◌then◌else◌, Bool-cases,
}
use tcp_proxy.Logger.{Logger, Written, con_dolog, write_all}

-- The messages of a list in order, with the calls of appenders.
unfoldable pub log_all : ℕ → Logger → List (ℕ × List ℕ) → List Written
unfolding con_dolog
log_all stderr_appender l [] = []
log_all stderr_appender l ((p, text) ∷ messages) =
    let (l', calls) = con_dolog stderr_appender true l p text in
    calls ++ log_all stderr_appender l' messages

-- How often an appender is in the list.
unfoldable pub times : ℕ → List ℕ → ℕ
times a [] = 0
times a (b ∷ bs) = if b == a then suc (times a bs) else times a bs

-- The messages that appender `a` got.
unfoldable pub received : ℕ → List Written → List (ℕ × List ℕ)
received a [] = []
received a (w ∷ ws) =
    if w.appender == a then (w.priority, w.text) ∷ received a ws else received a ws

-- The messages up to a priority.
unfoldable pub enabled : ℕ → List (ℕ × List ℕ) → List (ℕ × List ℕ)
enabled priority [] = []
enabled priority ((p, text) ∷ messages) =
    if ltb priority p then enabled priority messages else (p, text) ∷ enabled priority messages

received-append :
    (a : ℕ) (xs ys : List Written) → received a (xs ++ ys) ≡ received a xs ++ received a ys
unfolding received
received-append a [] ys = refl
received-append a (w ∷ ws) ys = elim (Bool-cases (w.appender == a)) [
  | inl e ↦ rw e (ap (λ r. (w.priority, w.text) ∷ r) (received-append a ws ys))
  | inr e ↦ rw e (received-append a ws ys)
]

received-none :
    (a p : ℕ) (text : List ℕ) (as' : List ℕ)
    → times a as' ≡ 0
    → received a (write_all p text as') ≡ []
unfolding received write_all times
received-none a p text [] e = refl
received-none a p text (b ∷ bs) e = elim (Bool-cases (b == a)) [
  | inl h ↦ absurd (ground (arith, e, h))
  | inr h ↦ rw h (received-none a p text bs (ground (arith, e, h)))
]

received-once :
    (a p : ℕ) (text : List ℕ) (as' : List ℕ)
    → times a as' ≡ 1
    → received a (write_all p text as') ≡ (p, text) ∷ []
unfolding received write_all times
received-once a p text [] e = absurd (omega arith)
received-once a p text (b ∷ bs) e = elim (Bool-cases (b == a)) [
  | inl h ↦ rw h (ap (λ r. (p, text) ∷ r) (received-none a p text bs (ground (arith, e, h))))
  | inr h ↦ rw h (received-once a p text bs (ground (arith, e, h)))
]

con_dolog_on :
    (stderr_appender p : ℕ) (l : Logger) (text : List ℕ)
    → l.have_initialized ≡ true
    → ltb l.priority p ≡ false
    → con_dolog stderr_appender true l p text ≡ (l, write_all p text l.appender_list)
unfolding con_dolog
con_dolog_on stderr_appender p l text ready e = ground (arith, ready, e)

con_dolog_off :
    (stderr_appender p : ℕ) (l : Logger) (text : List ℕ)
    → ltb l.priority p ≡ true
    → con_dolog stderr_appender true l p text ≡ (l, [])
unfolding con_dolog
con_dolog_off stderr_appender p l text e = ground (arith, e)

log_all_on :
    (stderr_appender p : ℕ) (l : Logger) (text : List ℕ) (messages : List (ℕ × List ℕ))
    → l.have_initialized ≡ true
    → ltb l.priority p ≡ false
    → log_all stderr_appender l ((p, text) ∷ messages)
      ≡ write_all p text l.appender_list ++ log_all stderr_appender l messages
unfolding log_all
log_all_on stderr_appender p l text messages ready e =
    rw (con_dolog_on stderr_appender p l text ready e) refl

log_all_off :
    (stderr_appender p : ℕ) (l : Logger) (text : List ℕ) (messages : List (ℕ × List ℕ))
    → ltb l.priority p ≡ true
    → log_all stderr_appender l ((p, text) ∷ messages) ≡ log_all stderr_appender l messages
unfolding log_all
log_all_off stderr_appender p l text messages e = rw (con_dolog_off stderr_appender p l text e) refl

nothing_received :
    (stderr_appender a : ℕ) (l : Logger) → received a (log_all stderr_appender l []) ≡ []
unfolding received log_all
nothing_received stderr_appender a l = refl

-- An appender that is once in the list of an initialized logger gets, of any messages that are
-- logged, exactly those up to the priority of the logger, each once and in their order.
pub received-log_all :
    (stderr_appender a : ℕ) (l : Logger) (messages : List (ℕ × List ℕ))
    → l.have_initialized ≡ true
    → times a l.appender_list ≡ 1
    → received a (log_all stderr_appender l messages) ≡ enabled l.priority messages
unfolding enabled
received-log_all stderr_appender a l [] ready once = nothing_received stderr_appender a l
received-log_all stderr_appender a l ((p, text) ∷ messages) ready once =
    elim (Bool-cases (ltb l.priority p)) [
      | inl e ↦ rw e (
          ap (λ ws. received a ws) (log_all_off stderr_appender p l text messages e)
          ∙ received-log_all stderr_appender a l messages ready once)
      | inr e ↦ rw e (
          ap (λ ws. received a ws) (log_all_on stderr_appender p l text messages ready e)
          ∙ received-append a (write_all p text l.appender_list)
              (log_all stderr_appender l messages)
          ∙ ap (λ r. r ++ received a (log_all stderr_appender l messages))
              (received-once a p text l.appender_list once)
          ∙ ap (λ r. (p, text) ∷ r) (received-log_all stderr_appender a l messages ready once))
    ]
