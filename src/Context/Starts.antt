-- ===== src/Context/Starts.antt =====
-- src/context.c: which components are started, and when.
use tcp_proxy.Prelude.{
  ℕ, zero, suc, ◌≤◌, ◌≡◌, sym, ap, subst, ◌∙◌, inl, inr, Bool, true, false, ◌&&◌, not, List, [],
  ◌∷◌, arith, ◌==◌, if◌then◌else◌, Bool-cases, Option-cases,
}
use tcp_proxy.Prelude.Table.{update}
use tcp_proxy.Context.Beans.{
  ContextData, Registry, check_entry, start, round, rounds, context_magic_number, wiring,
  auto_wiring, new_entry, put_bean, populate, new_registry,
}

-- How often an entry was started.
unfoldable pub starts : ℕ → List ℕ → ℕ
starts i [] = 0
starts i (j ∷ started) = if j == i then suc (starts i started) else starts i started

abbrev pub as_number : Bool → ℕ
as_number true = 1
as_number false = 0

-- No entry was started twice, and what was started is initialized.
unfoldable pub StartedOnce : Registry → Type 0
StartedOnce s = (i : ℕ) → starts i s.started ≤ as_number (s.initialized i)

start-StartedOnce :
    (i : ℕ) (c : ContextData) (s : Registry)
    → s.initialized i ≡ false
    → StartedOnce s
    → StartedOnce (start i c s)
unfolding StartedOnce start starts
start-StartedOnce i c s off once k = ground (arith, off, once k, once i)

-- The paths through an entry of a round.
module _ (i : ℕ) (c : ContextData) (ptr : List (ℕ × ContextData)) (s : Registry) where
  abbrev skipped : Registry × Bool × ℕ
  skipped = round ptr s

  abbrev begun : Registry × Bool × ℕ
  begun = round ptr (start i c s)

  round_on : s.initialized i ≡ true → round ((i, c) ∷ ptr) s ≡ skipped
  unfolding round
  round_on on =
      ap
        (λ b.
          if b
          then (skipped.0, skipped.1, skipped.2)
          else if check_entry s c
          then (begun.0, begun.1, suc begun.2)
          else (skipped.0, false, skipped.2))
        on

  round_off :
      s.initialized i ≡ false
      → round ((i, c) ∷ ptr) s ≡ (
          if check_entry s c
          then (begun.0, begun.1, suc begun.2)
          else (skipped.0, false, skipped.2))
  unfolding round
  round_off off =
      ap
        (λ b.
          if b
          then (skipped.0, skipped.1, skipped.2)
          else if check_entry s c
          then (begun.0, begun.1, suc begun.2)
          else (skipped.0, false, skipped.2))
        off

  -- What holds of the registry after an entry, whichever way it is treated.
  pub round_cases :
      (P : Registry → Type 0)
      → (s.initialized i ≡ true → P skipped.0)
      → (s.initialized i ≡ false → check_entry s c ≡ true → P begun.0)
      → (s.initialized i ≡ false → check_entry s c ≡ false → P skipped.0)
      → P (round ((i, c) ∷ ptr) s).0
  round_cases P on ready waiting = elim (Bool-cases (s.initialized i)) [
    | inl e ↦ subst (λ r. P r.0) (sym (round_on e)) (on e)
    | inr e ↦ elim (Bool-cases (check_entry s c)) [
      | inl r ↦
          subst (λ q. P q.0)
            (sym (
              round_off e
              ∙ ap
                  (λ b.
                    if b then (begun.0, begun.1, suc begun.2) else (skipped.0, false, skipped.2))
                  r))
            (ready e r)
      | inr r ↦
          subst (λ q. P q.0)
            (sym (
              round_off e
              ∙ ap
                  (λ b.
                    if b then (begun.0, begun.1, suc begun.2) else (skipped.0, false, skipped.2))
                  r))
            (waiting e r)
    ]
  ]

round-StartedOnce :
    (ptr : List (ℕ × ContextData)) (s : Registry) → StartedOnce s → StartedOnce (round ptr s).0
unfolding round
round-StartedOnce [] s once = once
round-StartedOnce ((i, c) ∷ ptr) s once =
    round_cases i c ptr s StartedOnce (λ on. round-StartedOnce ptr s once)
      (λ off ready. round-StartedOnce ptr (start i c s) (start-StartedOnce i c s off once))
      (λ off waiting. round-StartedOnce ptr s once)

-- The registry after the loop is the one after its first round.
rounds-round :
    (fuel : ℕ) (ptr : List (ℕ × ContextData)) (s : Registry)
    → (rounds (suc fuel) ptr s).0 ≡ (round ptr s).0
unfolding rounds round
rounds-round zero ptr s = ground arith
rounds-round (suc fuel) ptr s = ground (arith, rounds-round fuel [] (round ptr s).0)

pub wiring-round : (s : Registry) → (wiring s).0 ≡ (round s.entries s).0
unfolding wiring
wiring-round s = rounds-round 1 s.entries s

wiring-StartedOnce : (s : Registry) → StartedOnce s → StartedOnce (wiring s).0
wiring-StartedOnce s once =
    subst StartedOnce (sym (wiring-round s)) (round-StartedOnce s.entries s once)

-- What the program does with the registry; `malloc` returns an entry that is not in use.
pub data Steps : Registry → Registry → Type 0 where
  none_left : {s : Registry} → Steps s s
  population :
      {s t : Registry} (i : ℕ) (c : ContextData)
      → s.initialized i ≡ false
      → Steps (populate i c s).0 t
      → Steps s t
  wirings : {s t : Registry} → Steps (auto_wiring s).0 t → Steps s t

added-StartedOnce :
    (i : ℕ) (c : ContextData) (s : Registry)
    → s.initialized i ≡ false
    → StartedOnce s
    → StartedOnce
        (record s { entries = (i, c) ∷ s.entries; initialized = update s.initialized i false })
unfolding StartedOnce
added-StartedOnce i c s off once k = ground (arith, off, once k, once i)

put_bean-StartedOnce :
    (name : List ℕ) (i : ℕ) (s : Registry) → StartedOnce s → StartedOnce (put_bean name i s).0
unfolding StartedOnce put_bean
put_bean-StartedOnce name i s once k = elim (Option-cases (s.hash_map name)) [
  | inl e ↦ rw (put_bean, e) (once k)
  | inr (origin, e) ↦ rw (put_bean, e) (once k)
]

if-StartedOnce :
    (b : Bool) (x y : Registry × ℕ)
    → StartedOnce x.0
    → StartedOnce y.0
    → StartedOnce (if b then x else y).0
if-StartedOnce true x y ox oy = ox
if-StartedOnce false x y ox oy = oy

populate-StartedOnce :
    (i : ℕ) (c : ContextData) (s : Registry)
    → s.initialized i ≡ false
    → StartedOnce s
    → StartedOnce (populate i c s).0
unfolding populate new_entry
populate-StartedOnce i c s off once =
    let new : Registry = record s {
      entries = (i, c) ∷ s.entries;
      initialized = update s.initialized i false;
    } in
    let wired = wiring-StartedOnce new (added-StartedOnce i c s off once) in
    let put = put_bean-StartedOnce c.name i (new_entry i c s) wired in
    let code = put_bean c.name i (new_entry i c s) in
    let wrong_version = not (c.version_major == 1) && not (c.version_minor == 0) in
    if-StartedOnce (not (c.magic == context_magic_number)) (s, 1)
      (if wrong_version then (s, 2) else code) once
      (if-StartedOnce wrong_version (s, 2) code once put)

Steps-StartedOnce : {s t : Registry} → StartedOnce s → Steps s t → StartedOnce t
unfolding auto_wiring
Steps-StartedOnce once none_left = once
Steps-StartedOnce {s} once (population i c off steps) =
    Steps-StartedOnce (populate-StartedOnce i c s off once) steps
Steps-StartedOnce {s} once (wirings steps) = Steps-StartedOnce (wiring-StartedOnce s once) steps

-- After any registrations, each with an entry that is not initialized yet, and wirings from the
-- start of the program, an entry was started at most once, and only if it is initialized.
pub Steps-starts :
    (t : Registry) (i : ℕ) → Steps new_registry t → starts i t.started ≤ as_number (t.initialized i)
unfolding new_registry StartedOnce starts
Steps-starts t i steps = Steps-StartedOnce {s = new_registry} (λ k. omega arith) steps i
