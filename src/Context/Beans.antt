-- ===== src/Context/Beans.antt =====
-- src/context.c: the registry of the components, which are started in the order of their dependencies.
-- A context is known by its entry, and an entry by a number that stands for its address; a context
-- that is registered twice has two entries. `hashMap` is the function that its `get` computes, for
-- names of ASCII characters, for which the map has a bucket (HashMap/Lookup). Memory is taken to be
-- there; log messages are left out.
use tcp_proxy.Prelude.{
  ℕ, zero, suc, Bool, true, false, ◌&&◌, not, Option, none, some, List, [], ◌∷◌, ltb, ◌==◌,
  if◌then◌else◌,
}
use tcp_proxy.Prelude.Table.{update}
use tcp_proxy.HashMap.{same_key}

-- CONTEXT_MAGIC_NUMBER, CONTEXT_MAJOR_VERSION, CONTEXT_MINOR_VERSION
abbrev pub context_magic_number : ℕ
context_magic_number = 1012315172

abbrev pub context_major_version : ℕ
context_major_version = 1

abbrev pub context_minor_version : ℕ
context_minor_version = 0

-- `context_aware_data_t`. `none` of `depends_on` is NULL; `post_construct` tells whether there is one.
pub record ContextData : Type 0 where
  pub magic : ℕ
  pub version_major : ℕ
  pub version_minor : ℕ
  pub name : List ℕ
  pub depends_on : Option (List (List ℕ))
  pub post_construct : Bool

-- The variables. `started` has the entries whose `post_construct` was called, the latest first.
pub record Registry : Type 0 where
  pub entries : List (ℕ × ContextData)
  pub initialized : ℕ → Bool
  pub hash_map : List ℕ → Option ℕ
  pub started : List ℕ

-- The loop over the dependencies; one that is not registered counts as satisfied.
unfoldable pub satisfied : Registry → List (List ℕ) → Bool
satisfied s [] = true
satisfied s (item ∷ items) = elim (s.hash_map item) [
  | none ↦ satisfied s items
  | some entry ↦ if s.initialized entry then satisfied s items else false
]

unfoldable pub check_entry : Registry → ContextData → Bool
unfolding satisfied
check_entry s c = elim c.depends_on [ none ↦ true | some items ↦ satisfied s items ]

-- `post_construct` is called, and the entry is initialized.
unfoldable pub start : ℕ → ContextData → Registry → Registry
start i c s = record s {
  initialized = update s.initialized i true;
  started = if c.post_construct then i ∷ s.started else s.started;
}

-- One round from an entry on: the registry, `done` and `wiring_count`.
unfoldable pub round : List (ℕ × ContextData) → Registry → Registry × Bool × ℕ
unfolding check_entry start
round [] s = (s, true, 0)
round ((i, c) ∷ ptr) s =
    let (s', done, n) = round ptr s in
    let (s'', done'', m) = round ptr (start i c s) in
    if s.initialized i
    then (s', done, n)
    else if check_entry s c
    then (s'', done'', suc m)
    else (s', false, n)

-- The `do` loop. After the first round the pointer is at the end and stays there, so that the second
-- round, if there is one, is the last.
unfoldable pub rounds : ℕ → List (ℕ × ContextData) → Registry → Registry × Bool
unfolding round
rounds zero ptr s = (s, true)
rounds (suc fuel) ptr s =
    let (s', done, n) = round ptr s in
    let rest = rounds fuel [] s' in if ltb 0 n then rest else (s', done)

unfoldable pub wiring : Registry → Registry × Bool
unfolding rounds
wiring s = rounds 2 s.entries s

unfoldable pub auto_wiring : Registry → Registry × Bool
unfolding wiring
auto_wiring s = wiring s

-- The entry is in the list, and wired, before `populate` puts it into the map.
unfoldable pub new_entry : ℕ → ContextData → Registry → Registry
unfolding wiring
new_entry i context s =
    (wiring (record s {
      entries = (i, context) ∷ s.entries;
      initialized = update s.initialized i false;
    })).0

-- What `put_if_absent` does to the map.
unfoldable pub put_bean : List ℕ → ℕ → Registry → Registry × ℕ
put_bean name i s = elim (s.hash_map name) [
  | some origin ↦ (s, 3)
  | none ↦ (record s { hash_map = λ key. if same_key key name then some i else s.hash_map key }, 0)
]

-- `i` is the entry that `malloc` returns. The answer is 0 or the code of an error.
unfoldable pub populate : ℕ → ContextData → Registry → Registry × ℕ
unfolding new_entry put_bean
populate i context s =
    if not (context.magic == context_magic_number)
    then (s, 1)
    else if not (context.version_major == context_major_version)
        && not (context.version_minor == context_minor_version)
    then (s, 2)
    else put_bean context.name i (new_entry i context s)

-- The entry of the context that is returned; `none` is NULL.
unfoldable pub get_bean : List ℕ → Registry → Option ℕ
get_bean name s = elim (s.hash_map name) [
  | none ↦ none
  | some entry ↦ if s.initialized entry then some entry else none
]

unfoldable pub new_registry : Registry
new_registry = record { entries = []; initialized = λ i. false; hash_map = λ k. none; started = [] }
