-- ===== src/Sysconf.antt =====
-- src/sysconf.c: the table of settings that the parser fills and the other parts read. A text is a list
-- of characters. Memory is taken to be there. `atoi` is an argument; `strcasecmp` answers 0 for texts
-- that differ in the case of their letters at most.
pub mod Settings
pub mod Lists
mod Tests
pub mod Definitions
use tcp_proxy.Prelude.{
  ℕ, zero, suc, ◌+◌, ◌-◌, ◌≡◌, Bool, true, false, ◌&&◌, Option, none, some, List, [], ◌∷◌, ◌++◌,
  arith, ltb, ◌==◌, if◌then◌else◌, length, take, get_or,
}
use tcp_proxy.Prelude.Int.{ℤ, pos, negsuc}
use tcp_proxy.Prelude.Table.{update}
use tcp_proxy.Logger.{same_name}

-- MAX_INT_STK_LEN
abbrev pub max_int_stk_len : ℕ
max_int_stk_len = 64

-- What a pointer to a text leads to: `unwritten` is a pointer that no assignment has set, and `overrun`
-- one behind a copy that left its memory.
pub data Text : Type 0 where
  text : List ℕ → Text
  unwritten : Text
  overrun : Text

pub data EntryType : Type 0 where
  integer_list_type : EntryType
  string_list_type : EntryType
  integer_type : EntryType
  string_type : EntryType
  boolean_type : EntryType

-- A cell of the stack; the union is read the way it was written.
pub data Cell : Type 0 where
  intval : ℤ → Cell
  str : Text → Cell

pub data StackType : Type 0 where
  integer_stack : StackType
  string_stack : StackType
  uninitialized_stack : StackType

-- `list` and `slist` are one list of cells.
pub record Entry : Type 0 where
  pub key : List ℕ
  pub entry_type : EntryType
  pub ivalue : ℤ
  pub value : Text
  pub list : List Cell

-- The chain from `sysconf_root`, the part of it from `sysconf_cursor` on, and the stack.
pub record Sysconf : Type 0 where
  pub sysconf_root : List Entry
  pub sysconf_cursor : List Entry
  pub stack_type : StackType
  pub stk : ℕ → Cell
  pub sp : ℕ
  pub terminate_flag : Bool

unfoldable pub dup_quoted_string : List ℕ → Text
dup_quoted_string [] = text []
dup_quoted_string (c ∷ qst) =
    if c == 34 && get_or (c ∷ qst) (length qst) 0 == 34
    then (if length qst == 0 then overrun else text (take (length qst - 1) qst))
    else text (c ∷ qst)

unfoldable pub starts_quoted : List ℕ → Bool
starts_quoted [] = false
starts_quoted (c ∷ value) = c == 34

-- A new entry becomes the root.
abbrev pub add_first : Entry → Sysconf → Sysconf
add_first e s = record s { sysconf_root = e ∷ s.sysconf_root }

unfoldable pub string_entry : List ℕ → List ℕ → Entry
unfolding starts_quoted
string_entry entry value = record {
  key = entry;
  entry_type = string_type;
  ivalue = negsuc 0;
  value = if starts_quoted value then dup_quoted_string value else text value;
  list = [];
}

unfoldable pub addentry_string : List ℕ → List ℕ → Sysconf → Sysconf
unfolding string_entry
addentry_string entry value s = add_first (string_entry entry value) s

-- The entries of the two kinds of lists.
unfoldable pub list_entry : EntryType → List ℕ → List Cell → ℕ → Entry
list_entry type entry list len = record {
  key = entry;
  entry_type = type;
  ivalue = pos len;
  value = unwritten;
  list = list;
}

unfoldable pub addentry_int_list : List ℕ → List Cell → ℕ → Sysconf → Sysconf
unfolding list_entry
addentry_int_list entry int_list len s =
    add_first (list_entry integer_list_type entry int_list len) s

unfoldable pub addentry_string_list : List ℕ → List Cell → ℕ → Sysconf → Sysconf
unfolding list_entry
addentry_string_list entry string_list len s =
    add_first (list_entry string_list_type entry string_list len) s

-- The assignments through the pointer that `addentry_string` returns.
unfoldable pub retype_first : EntryType → ℤ → List Entry → List Entry
retype_first type ivalue [] = []
retype_first type ivalue (e ∷ root) = record e { entry_type = type; ivalue = ivalue } ∷ root

unfoldable pub retype : EntryType → ℤ → Sysconf → Sysconf
unfolding retype_first
retype type ivalue s = record s { sysconf_root = retype_first type ivalue s.sysconf_root }

unfoldable pub addentry_integer : (List ℕ → ℤ) → List ℕ → List ℕ → Sysconf → Sysconf
unfolding addentry_string retype
addentry_integer atoi entry value s =
    retype integer_type (atoi value) (addentry_string entry value s)

unfoldable pub addentry_ip : List ℕ → List ℕ → Sysconf → Sysconf
unfolding addentry_string
addentry_ip entry value s = addentry_string entry value s

unfoldable pub addentry_mac : List ℕ → List ℕ → Sysconf → Sysconf
unfolding addentry_string
addentry_mac entry value s = addentry_string entry value s

unfoldable pub addentry_flag_on : List ℕ → Sysconf → Sysconf
unfolding addentry_string retype
addentry_flag_on entry s = retype boolean_type (pos 1) (addentry_string entry (111 ∷ 110 ∷ []) s)

unfoldable pub addentry_flag_off : List ℕ → Sysconf → Sysconf
unfolding addentry_string retype
addentry_flag_off entry s =
    retype boolean_type (pos 0) (addentry_string entry (111 ∷ 102 ∷ 102 ∷ []) s)

-- The loop that fills `list[i]` with `stk[sp - i - 1]`.
unfoldable pub collect : ℕ → (ℕ → Cell) → List Cell
collect zero stk = []
collect (suc n) stk = stk n ∷ collect n stk

unfoldable pub add_prepared_list : List ℕ → Sysconf → Sysconf
unfolding collect addentry_int_list addentry_string_list
add_prepared_list entry s =
    let list = collect s.sp s.stk in
    let added : Sysconf = elim s.stack_type [
      | integer_stack ↦ addentry_int_list entry list s.sp s
      | string_stack ↦ addentry_string_list entry list s.sp s
      | uninitialized_stack ↦ s
    ] in
    record added { sp = 0; stack_type = uninitialized_stack }

unfoldable pub set_list_as_integer : Sysconf → Sysconf
set_list_as_integer s = record s { stack_type = integer_stack }

unfoldable pub set_list_as_string : Sysconf → Sysconf
set_list_as_string s = record s { stack_type = string_stack }

unfoldable pub push : Cell → Sysconf → Sysconf
push c s =
    if ltb s.sp max_int_stk_len then record s { stk = update s.stk s.sp c; sp = suc s.sp } else s

-- `none` is NULL.
unfoldable pub list_append_int : (List ℕ → ℤ) → Option (List ℕ) → Sysconf → Sysconf
unfolding push
list_append_int atoi none s = s
list_append_int atoi (some entry) s = push (intval (atoi entry)) s

unfoldable pub list_append_str : Option (List ℕ) → Sysconf → Sysconf
unfolding push dup_quoted_string
list_append_str none s = s
list_append_str (some entry) s = push (str (dup_quoted_string entry)) s

unfoldable pub find_entry : List ℕ → List Entry → Option Entry
find_entry key [] = none
find_entry key (e ∷ root) = if same_name key e.key then some e else find_entry key root

unfoldable pub sysconf_ptr : List ℕ → Sysconf → Option Entry
unfolding find_entry
sysconf_ptr key s = find_entry key s.sysconf_root

-- `none` is NULL.
unfoldable pub sysconf_str : List ℕ → Sysconf → Option Text
unfolding sysconf_ptr
sysconf_str key s = elim (sysconf_ptr key s) [ none ↦ none | some e ↦ some e.value ]

unfoldable pub sysconf_str_or_default : List ℕ → Text → Sysconf → Text
unfolding sysconf_ptr
sysconf_str_or_default key default s = elim (sysconf_ptr key s) [
  | none ↦ default
  | some e ↦ e.value
]

unfoldable pub sysconf_int_or_default : List ℕ → ℤ → Sysconf → ℤ
unfolding sysconf_ptr
sysconf_int_or_default key default s = elim (sysconf_ptr key s) [
  | none ↦ default
  | some e ↦ e.ivalue
]

unfoldable pub sysconf_int : List ℕ → Sysconf → ℤ
unfolding sysconf_int_or_default
sysconf_int key s = sysconf_int_or_default key (negsuc 0) s

unfoldable pub data_type : List ℕ → Sysconf → EntryType
unfolding sysconf_ptr
data_type key s = elim (sysconf_ptr key s) [ none ↦ integer_type | some e ↦ e.entry_type ]

-- The list with what is written to `sz`.
unfoldable pub integer_list : List ℕ → Sysconf → Option (List Cell × ℤ)
unfolding sysconf_ptr
integer_list key s = elim (sysconf_ptr key s) [
  | none ↦ none
  | some e ↦ elim e.entry_type [ integer_list_type ↦ some (e.list, e.ivalue) | _ ↦ none ]
]

unfoldable pub string_list : List ℕ → Sysconf → Option (List Cell × ℤ)
unfolding sysconf_ptr
string_list key s = elim (sysconf_ptr key s) [
  | none ↦ none
  | some e ↦ elim e.entry_type [ string_list_type ↦ some (e.list, e.ivalue) | _ ↦ none ]
]

-- The key that the cursor points to.
unfoldable pub key_of_first : List Entry → Option (List ℕ)
key_of_first [] = none
key_of_first (e ∷ rest) = some e.key

unfoldable pub after_first : List Entry → List Entry
after_first [] = []
after_first (e ∷ rest) = rest

unfoldable pub sysconf_get_first_key : Sysconf → Sysconf × Option (List ℕ)
unfolding key_of_first
sysconf_get_first_key s =
    (record s { sysconf_cursor = s.sysconf_root }, key_of_first s.sysconf_root)

unfoldable pub sysconf_get_next_key : Sysconf → Sysconf × Option (List ℕ)
unfolding key_of_first after_first
sysconf_get_next_key s = (
  record s { sysconf_cursor = after_first s.sysconf_cursor },
  key_of_first (after_first s.sysconf_cursor),
)

unfoldable pub terminated : Sysconf → Bool
terminated s = s.terminate_flag

unfoldable pub terminate : Sysconf → Sysconf
terminate s = record s { terminate_flag = true }
