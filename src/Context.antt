-- ===== src/Context.antt =====
-- src/context.c: the messages of the errors, and the variables that the components share by name.
pub mod Variables
pub mod Beans
pub mod Starts
pub mod Dependencies
mod Tests
use tcp_proxy.Prelude.{
  ℕ, ◌≡◌, Bool, true, false, Option, none, some, List, [], ◌∷◌, arith, ◌==◌, if◌then◌else◌,
}
use tcp_proxy.HashMap.{HashMap, new_hash_map, get_by_key, put_if_absent}

-- The texts of the messages.
pub data ErrorMessage : Type 0 where
  magic_number_mismatch : ErrorMessage
  version_number_mismatch : ErrorMessage
  key_exists : ErrorMessage
  unknown_error : ErrorMessage

-- `errorMessages`, with CONTEXT_ERROR_MAGIC_NUMBER, CONTEXT_ERROR_VERSION_NUMBER and
-- CONTEXT_ERROR_KEY_EXISTS.
abbrev pub error_messages : List (ℕ × ErrorMessage)
error_messages = (1, magic_number_mismatch) ∷ (2, version_number_mismatch) ∷ (3, key_exists) ∷ []

-- The search of `error_message`.
unfoldable pub message_in : List (ℕ × ErrorMessage) → ℕ → ErrorMessage
message_in [] error_code = unknown_error
message_in ((errcode, message) ∷ messages) error_code =
    if errcode == error_code then message else message_in messages error_code

unfoldable pub error_message : ℕ → ErrorMessage
unfolding message_in
error_message = message_in error_messages

-- `variableMap`, as `initial_once` makes it.
unfoldable pub initial_once {ℓ} : {V : Type ℓ} → HashMap V
unfolding new_hash_map
initial_once = new_hash_map 97 none

module _ {ℓ} {V : Type ℓ} where
  -- `allocated` is the answer of `malloc` to the map.
  unfoldable pub set_pointer : HashMap V → Bool → List ℕ → V → Option (HashMap V × Bool)
  unfolding put_if_absent
  set_pointer variable_map allocated name value =
      elim (put_if_absent variable_map allocated name value) [
        | none ↦ none
        | some (variable_map', origin) ↦ elim origin [
          | none ↦ some (variable_map', true)
          | some v ↦ some (variable_map', false)
        ]
      ]

  unfoldable pub get_pointer : HashMap V → List ℕ → Option (Option V)
  unfolding get_by_key
  get_pointer variable_map name = get_by_key variable_map name
