-- ===== src/Context/Tests.antt =====
-- src/context.c: a variable of an empty map, and a component that needs another one.
use tcp_proxy.Prelude.{
  ℕ, ◌≤◌, if◌then◌else◌, ◌≡◌, ◌≢◌, refl, Bool, true, false, Option, none, some, List, [], ◌∷◌,
  arith,
}
use tcp_proxy.HashMap.{same_key, HashMap, new_hash_map}
use tcp_proxy.HashMap.Lookup.{new_hash_map-Holds}
use tcp_proxy.Context.{set_pointer, get_pointer, error_message, key_exists, unknown_error}
use tcp_proxy.Context.Beans.{
  ContextData, Registry, context_magic_number, populate, wiring, new_registry,
}
use tcp_proxy.Context.Starts.{none_left, population, starts, as_number, Steps-starts}
use tcp_proxy.Context.Dependencies.{IsBacked, wiring-IsBacked}
use tcp_proxy.Context.Variables.{get_pointer-set_pointer}

abbrev variables : HashMap ℕ
variables = new_hash_map 97 none

abbrev no_entries : List ℕ → Option ℕ
no_entries k = none

get_pointer-set_pointer_example :
    (m' : HashMap ℕ) × (answer : Bool) × (set_pointer variables true (97 ∷ []) 7
      ≡ some (m', answer))
    × (no_entries (97 ∷ []) ≡ none → (answer ≡ true) × (get_pointer m' (97 ∷ []) ≡ some (some 7)))
    × (no_entries (97 ∷ []) ≢ none → (answer ≡ false) × (m' ≡ variables))
get_pointer-set_pointer_example =
    get_pointer-set_pointer variables no_entries (97 ∷ []) 7 (new_hash_map-Holds 97 (omega arith))
      (omega arith, tt)

third_message : error_message 3 ≡ key_exists
unfolding error_message
third_message = refl

other_message : error_message 4 ≡ unknown_error
unfolding error_message
other_message = refl

abbrev plain_context : List ℕ → Option (List (List ℕ)) → ContextData
plain_context name depends_on = record {
  magic = context_magic_number;
  version_major = 1;
  version_minor = 0;
  name = name;
  depends_on = depends_on;
  post_construct = true;
}

-- "a" needs "b".
abbrev needing : ContextData
needing = plain_context (97 ∷ []) (some ((98 ∷ []) ∷ []))

abbrev needed : ContextData
needed = plain_context (98 ∷ []) none

Steps-starts_example :
    starts 7 (populate 8 needed (populate 7 needing new_registry).0).0.started
    ≤ as_number ((populate 8 needed (populate 7 needing new_registry).0).0.initialized 7)
unfolding populate new_registry
Steps-starts_example =
    Steps-starts (populate 8 needed (populate 7 needing new_registry).0).0 7
      (population 7 needing refl (population 8 needed refl none_left))

abbrev waiting : Registry
waiting = record {
  entries = (8, needed) ∷ (7, needing) ∷ [];
  initialized = λ i. false;
  hash_map = λ k. if same_key k (98 ∷ []) then some 8 else none;
  started = [];
}

wiring-IsBacked_example : IsBacked (wiring waiting).0 7 waiting.entries
unfolding wiring same_key
wiring-IsBacked_example = wiring-IsBacked waiting 7 refl refl

-- A component whose dependency is not registered yet is started before it.
early : (populate 8 needed (populate 7 needing new_registry).0).0.started ≡ 8 ∷ 7 ∷ []
unfolding populate new_registry same_key
early = refl

-- One component that is registered twice has two entries, and is started twice.
twice : (populate 8 needed (populate 7 needed new_registry).0).0.started ≡ 8 ∷ 7 ∷ []
unfolding populate new_registry same_key
twice = refl

-- The dependency comes later in the list: the component stays as it is, and the answer is true.
abbrev reversed : Registry
reversed = record {
  entries = (7, needing) ∷ (8, needed) ∷ [];
  initialized = λ i. false;
  hash_map = λ k. if same_key k (98 ∷ []) then some 8 else none;
  started = [];
}

left_out : (wiring reversed).1 ≡ true
unfolding wiring same_key
left_out = refl

left_out_entry : (wiring reversed).0.initialized 7 ≡ false
unfolding wiring same_key
left_out_entry = refl
