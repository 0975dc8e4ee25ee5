-- ===== src/Sysconf/Tests.antt =====
-- src/sysconf.c: a small configuration file.
use tcp_proxy.Prelude.{ℕ, ◌-◌, ◌≡◌, refl, none, some, List, [], ◌∷◌, map, length}
use tcp_proxy.Prelude.Int.{ℤ, pos}
use tcp_proxy.Sysconf.{
  text, unwritten, integer_type, sysconf_int_or_default, sysconf_str_or_default, sysconf_str,
  data_type, integer_list, string_list, sysconf_get_first_key, sysconf_get_next_key,
}
use tcp_proxy.Sysconf.Definitions.{define_all, new_sysconf, Definition, number, quoted, numbers}
use tcp_proxy.Sysconf.Lists.{kept, number_cell}
use tcp_proxy.Sysconf.Settings.{setting, answer, lookups-define_all, integer_list-define_all}

-- The number of a text of one digit.
abbrev digit : List ℕ → ℤ
digit [] = pos 0
digit (c ∷ cs) = pos (c - 48)

-- port = 7; ports = [ 8, 9 ]; PORT = "x";
abbrev port : List ℕ
port = 112 ∷ []

abbrev ports : List ℕ
ports = 113 ∷ []

abbrev file : List Definition
file =
    number port (55 ∷ [])
    ∷ numbers ports ((56 ∷ []) ∷ (57 ∷ []) ∷ [])
    ∷ quoted (80 ∷ []) (120 ∷ [])
    ∷ []

lookups-define_all_example :
    (sysconf_int_or_default port (pos 3) (define_all digit file new_sysconf)
      ≡ answer digit (pos 3) (λ e. e.ivalue) (setting port file))
    × (sysconf_str_or_default port (text []) (define_all digit file new_sysconf)
        ≡ answer digit (text []) (λ e. e.value) (setting port file))
    × (data_type port (define_all digit file new_sysconf)
        ≡ answer digit integer_type (λ e. e.entry_type) (setting port file))
lookups-define_all_example = lookups-define_all digit port file (pos 3) (text [])

integer_list-define_all_example :
    (integer_list ports (define_all digit file new_sysconf)
      ≡ some (
        kept (map (number_cell digit) ((56 ∷ []) ∷ (57 ∷ []) ∷ [])),
        pos (length (kept (map (number_cell digit) ((56 ∷ []) ∷ (57 ∷ []) ∷ [])))),
      ))
    × (string_list ports (define_all digit file new_sysconf) ≡ none)
unfolding setting tcp_proxy.Logger.same_name
integer_list-define_all_example =
    integer_list-define_all digit ports file ports ((56 ∷ []) ∷ (57 ∷ []) ∷ []) refl

-- The last definition counts, whatever the case of the letters.
text_of_port : sysconf_str port (define_all digit file new_sysconf) ≡ some (text (120 ∷ []))
unfolding define_all new_sysconf sysconf_str tcp_proxy.Logger.same_name
text_of_port = refl

-- The text of a list is a pointer that nothing has set.
text_of_ports : sysconf_str ports (define_all digit file new_sysconf) ≡ some unwritten
unfolding define_all new_sysconf sysconf_str tcp_proxy.Logger.same_name
text_of_ports = refl

second_key :
    (sysconf_get_next_key (sysconf_get_first_key (define_all digit file new_sysconf)).0).1
    ≡ some ports
unfolding define_all new_sysconf sysconf_get_next_key sysconf_get_first_key
second_key = refl
