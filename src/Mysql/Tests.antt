-- ===== src/Mysql/Tests.antt =====
-- src/db_mysql.c: a statement with two parameters, and a row.
use tcp_proxy.Prelude.{◌≡◌, refl, true, false, some, List, [], ◌∷◌, arith, get_elem?}
use tcp_proxy.Prelude.Int.{pos, negsuc}
use tcp_proxy.Mysql.{
  Stmt, Bind, mysql_type_null, no_buffer, clear_parameters, set_int, set_string, Column, get_int,
  get_index, execute_update,
}
use tcp_proxy.Mysql.Params.{IsBound, sent_string, set_params, clear_parameters-IsBound}

abbrev any_bind : Bind
any_bind = record {
  buffer_type = mysql_type_null;
  buffer = no_buffer;
  buffer_length = 3;
  is_unsigned = true;
  with_length = true;
  with_is_null = false;
  number = pos 5;
  length = 7;
  is_null = true;
  str_data = some (97 ∷ []);
}

abbrev statement : Stmt
statement = record { param_bind = λ i. any_bind; param_count = 2 }

clear_parameters-IsBound_example :
    IsBound
      (get_elem? (sent_string (98 ∷ 99 ∷ []) ∷ []) 0)
      ((set_params 0 (sent_string (98 ∷ 99 ∷ []) ∷ []) (clear_parameters statement)).param_bind 0)
clear_parameters-IsBound_example =
    clear_parameters-IsBound statement (sent_string (98 ∷ 99 ∷ []) ∷ []) 0 (omega arith)
      (omega arith)

-- An index that is out of range changes nothing.
out_of_range : set_int (pos 3) (pos 1) statement ≡ statement
unfolding set_int
out_of_range = refl

below_range : set_string (pos 0) (97 ∷ []) statement ≡ statement
unfolding set_string
below_range = refl

abbrev row : List Column
row =
    record {
      field_name = 97 ∷ [];
      is_null = false;
      short_data = pos 1;
      int_data = negsuc 1;
      uint_data = 2;
      int64_data = pos 3;
      uint64_data = 4;
    }
    ∷ []

first_column : get_int row (pos 1) ≡ negsuc 1
unfolding get_int
first_column = refl

no_column : get_int row (pos 2) ≡ pos 0
unfolding get_int
no_column = refl

named_column : get_index row (97 ∷ []) ≡ 1
unfolding get_index tcp_proxy.HashMap.same_key
named_column = refl

-- A failed execution answers -1.
failed_update : execute_update statement true false (pos 1) ≡ negsuc 0
unfolding execute_update
failed_update = refl
