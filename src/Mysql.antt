-- ===== src/Mysql.antt =====
-- src/db_mysql.c: the parameters of a prepared statement, and the columns of a row. Memory is taken to
-- be there; log messages are left out. The MySQL client library reads what the bindings point to.
pub mod Params
mod Tests
use tcp_proxy.Prelude.{
  ℕ, zero, suc, ◌+◌, ◌-◌, ◌≡◌, Bool, true, false, not, ◌&&◌, Option, none, some, List, [], ◌∷◌,
  ◌++◌, arith, ltb, leb, ◌==◌, if◌then◌else◌, length, take, get_elem?,
}
use tcp_proxy.Prelude.Int.{ℤ, pos, negsuc, pos_part, leb_ℤ}
use tcp_proxy.Prelude.Table.{update}
use tcp_proxy.HashMap.{same_key}

pub data BufferType : Type 0 where
  mysql_type_null : BufferType
  mysql_type_short : BufferType
  mysql_type_long : BufferType
  mysql_type_longlong : BufferType
  mysql_type_string : BufferType

-- What `buffer` points to: nothing, the number in the same entry of `param_bind_data`, or its
-- `str_data`.
pub data Buffer : Type 0 where
  no_buffer : Buffer
  own_number : Buffer
  own_string : Buffer

-- An entry of `param_bind` with that of `param_bind_data`. A number is read as it was written; `length`
-- and `is_null` are fields of the data, and `with_length` and `with_is_null` tell whether the binding
-- points to them.
pub record Bind : Type 0 where
  pub buffer_type : BufferType
  pub buffer : Buffer
  pub buffer_length : ℕ
  pub is_unsigned : Bool
  pub with_length : Bool
  pub with_is_null : Bool
  pub number : ℤ
  pub length : ℕ
  pub is_null : Bool
  pub str_data : Option (List ℕ)

pub record Stmt : Type 0 where
  pub param_bind : ℕ → Bind
  pub param_count : ℕ

-- `parameterIndex >= 1 && parameterIndex <= stmt->param_count`
unfoldable pub in_range : ℤ → ℕ → Bool
in_range p count = leb_ℤ (pos 1) p && leb_ℤ p (pos count)

-- The guard of the setters, and the entry that they change.
unfoldable pub set_bind : (Bind → Bind) → ℤ → Stmt → Stmt
unfolding in_range
set_bind f p stmt =
    let i = pos_part p - 1 in
    if in_range p stmt.param_count
    then record stmt { param_bind = update stmt.param_bind i (f (stmt.param_bind i)) }
    else stmt

-- The assignments that the setters of numbers share.
unfoldable pub number_bind : BufferType → Bool → ℤ → Bind → Bind
number_bind type unsigned value b = record b {
  number = value;
  buffer_type = type;
  buffer = own_number;
  is_unsigned = unsigned;
  with_length = false;
  is_null = false;
  length = 0;
}

unfoldable pub set_bigint : ℤ → ℤ → Stmt → Stmt
unfolding set_bind number_bind
set_bigint p value = set_bind (number_bind mysql_type_longlong false value) p

unfoldable pub set_ubigint : ℤ → ℕ → Stmt → Stmt
unfolding set_bind number_bind
set_ubigint p value = set_bind (number_bind mysql_type_longlong true (pos value)) p

unfoldable pub set_short : ℤ → ℤ → Stmt → Stmt
unfolding set_bind number_bind
set_short p value = set_bind (number_bind mysql_type_short false value) p

unfoldable pub set_uint : ℤ → ℕ → Stmt → Stmt
unfolding set_bind number_bind
set_uint p value = set_bind (number_bind mysql_type_long true (pos value)) p

unfoldable pub set_int : ℤ → ℤ → Stmt → Stmt
unfolding set_bind number_bind
set_int p value = set_bind (number_bind mysql_type_long false value) p

unfoldable pub string_bind : List ℕ → Bind → Bind
string_bind str b = record b {
  str_data = some str;
  length = length str;
  is_null = false;
  with_is_null = false;
  buffer_type = mysql_type_string;
  buffer = own_string;
  with_length = true;
  buffer_length = length str;
}

unfoldable pub set_string : ℤ → List ℕ → Stmt → Stmt
unfolding set_bind string_bind
set_string p str = set_bind (string_bind str) p

unfoldable pub null_bind : Bind → Bind
null_bind b = record b { buffer_type = mysql_type_null; buffer = no_buffer; buffer_length = 0 }

unfoldable pub set_null : ℤ → Stmt → Stmt
unfolding set_bind null_bind
set_null p = set_bind null_bind p

unfoldable pub cleared_bind : Bind → Bind
cleared_bind b = record b {
  buffer_type = mysql_type_null;
  buffer = no_buffer;
  buffer_length = 0;
  is_unsigned = false;
  with_length = true;
  with_is_null = true;
  length = 0;
  is_null = true;
  str_data = none;
}

-- The loop over the first `n` entries.
unfoldable pub clear_below : ℕ → (ℕ → Bind) → ℕ → Bind
unfolding cleared_bind
clear_below zero binds = binds
clear_below (suc n) binds = update (clear_below n binds) n (cleared_bind (binds n))

unfoldable pub clear_parameters : Stmt → Stmt
unfolding clear_below
clear_parameters stmt = record stmt { param_bind = clear_below stmt.param_count stmt.param_bind }

-- A column of a row, as the library left it.
pub record Column : Type 0 where
  pub field_name : List ℕ
  pub is_null : Bool
  pub short_data : ℤ
  pub int_data : ℤ
  pub uint_data : ℕ
  pub int64_data : ℤ
  pub uint64_data : ℕ

-- A number of the column at an index, or 0.
unfoldable pub get_number : (Column → ℤ) → List Column → ℤ → ℤ
unfolding in_range
get_number field columns p =
    if in_range p (length columns)
    then elim (get_elem? columns (pos_part p - 1)) [
      | none ↦ pos 0
      | some c ↦ if c.is_null then pos 0 else field c
    ]
    else pos 0

unfoldable pub get_int : List Column → ℤ → ℤ
unfolding get_number
get_int = get_number (λ c. c.int_data)

unfoldable pub get_short : List Column → ℤ → ℤ
unfolding get_number
get_short = get_number (λ c. c.short_data)

unfoldable pub get_uint : List Column → ℤ → ℤ
unfolding get_number
get_uint = get_number (λ c. pos c.uint_data)

unfoldable pub get_ubigint : List Column → ℤ → ℤ
unfolding get_number
get_ubigint = get_number (λ c. pos c.uint64_data)

unfoldable pub get_bigint : List Column → ℤ → ℤ
unfolding get_number
get_bigint = get_number (λ c. c.int64_data)

-- The loop of `getIndex`, from index `i` on.
unfoldable pub index_from : ℕ → List ℕ → List Column → ℕ
index_from i str [] = 0
index_from i str (c ∷ columns) =
    let later = index_from (suc i) str columns in if same_key c.field_name str then i + 1 else later

unfoldable pub get_index : List Column → List ℕ → ℕ
unfolding index_from
get_index columns str = index_from 0 str columns

-- What `mysql_stmt_fetch` answers.
pub data Fetch : Type 0 where
  fetched : Fetch
  truncated : Fetch
  fetch_error : ℕ → Fetch
  no_data : Fetch
  other_fetch : Fetch

-- `next`, with what is written to `errno`.
unfoldable pub result_next : Fetch → Bool × ℕ
result_next fetched = (true, 0)
result_next truncated = (true, 0)
result_next (fetch_error errno) = (false, errno)
result_next no_data = (false, 0)
result_next other_fetch = (false, 0)

-- Whether the parameters can be bound, and whether the execution succeeds, are arguments.
unfoldable pub local_execute : Stmt → Bool → Bool → Bool
local_execute stmt binds executes =
    if ltb 0 stmt.param_count then (if binds then executes else false) else executes

-- `rows` is the number of rows that the library reports.
unfoldable pub execute_update : Stmt → Bool → Bool → ℤ → ℤ
unfolding local_execute
execute_update stmt binds executes rows =
    if local_execute stmt binds executes then rows else negsuc 0

-- `connected` of the driver, with the answer.
unfoldable pub mysql_connect : Bool → Bool → Bool × Bool
mysql_connect true answer = (true, true)
mysql_connect false answer = (answer, answer)

-- Whether `mysql_close` is called; afterwards `connected` is false.
unfoldable pub mysql_disconnect : Bool → Bool × Bool
mysql_disconnect connected = (false, connected)

unfoldable pub error_number : Bool → ℕ → ℕ
error_number connected errno = if connected then errno else 0
