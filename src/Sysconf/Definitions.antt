-- ===== src/Sysconf/Definitions.antt =====
-- src/parser.y: the calls that the definitions of a configuration file make.
use tcp_proxy.Prelude.{ℕ, false, some, List, [], ◌∷◌, ◌++◌}
use tcp_proxy.Prelude.Int.{ℤ, pos}
use tcp_proxy.Sysconf.{
  Sysconf, add_prepared_list, addentry_flag_off, addentry_flag_on, addentry_integer,
  addentry_string, intval, list_append_int, list_append_str, set_list_as_integer,
  set_list_as_string, uninitialized_stack,
}

-- A definition of the configuration file, with its tokens; a quoted token is what stands between the
-- quotation marks, which are part of the token.
pub data Definition : Type 0 where
  number : List ℕ → List ℕ → Definition
  quoted : List ℕ → List ℕ → Definition
  flag_on : List ℕ → Definition
  flag_off : List ℕ → Definition
  numbers : List ℕ → List (List ℕ) → Definition
  strings : List ℕ → List (List ℕ) → Definition

abbrev pub quote : List ℕ → List ℕ
quote token = 34 ∷ (token ++ (34 ∷ []))

-- The rule is recursive on the right: the action of the last token comes first.
unfoldable pub append_numbers : (List ℕ → ℤ) → List (List ℕ) → Sysconf → Sysconf
unfolding list_append_int
append_numbers atoi [] s = s
append_numbers atoi (token ∷ tokens) s =
    list_append_int atoi (some token) (append_numbers atoi tokens s)

unfoldable pub append_strings : List (List ℕ) → Sysconf → Sysconf
unfolding list_append_str
append_strings [] s = s
append_strings (token ∷ tokens) s = list_append_str (some (quote token)) (append_strings tokens s)

-- The calls of one definition.
unfoldable pub define : (List ℕ → ℤ) → Definition → Sysconf → Sysconf
unfolding append_numbers append_strings addentry_integer addentry_string addentry_flag_on
    addentry_flag_off add_prepared_list set_list_as_integer set_list_as_string
define atoi (number key token) s = addentry_integer atoi key token s
define atoi (quoted key token) s = addentry_string key (quote token) s
define atoi (flag_on key) s = addentry_flag_on key s
define atoi (flag_off key) s = addentry_flag_off key s
define atoi (numbers key tokens) s =
    add_prepared_list key (set_list_as_integer (append_numbers atoi tokens s))
define atoi (strings key tokens) s =
    add_prepared_list key (set_list_as_string (append_strings tokens s))

-- The definitions of a file, in its order.
unfoldable pub define_all : (List ℕ → ℤ) → List Definition → Sysconf → Sysconf
unfolding define
define_all atoi [] s = s
define_all atoi (d ∷ defs) s = define_all atoi defs (define atoi d s)

-- The variables as the program starts.
unfoldable pub new_sysconf : Sysconf
new_sysconf = record {
  sysconf_root = [];
  sysconf_cursor = [];
  stack_type = uninitialized_stack;
  stk = λ k. intval (pos 0);
  sp = 0;
  terminate_flag = false;
}
