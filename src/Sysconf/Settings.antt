-- ===== src/Sysconf/Settings.antt =====
-- src/sysconf.c: what the lookups answer after a configuration file is read.
use tcp_proxy.Prelude.{
  ℕ, ◌≡◌, refl, ap, ◌∙◌, inl, inr, Option, none, some, List, [], ◌∷◌, map, arith, if◌then◌else◌,
  length, Bool-cases, Option-cases,
}
use tcp_proxy.Prelude.Int.{ℤ, pos, negsuc}
use tcp_proxy.Logger.{same_name}
use tcp_proxy.Sysconf.{
  Text, text, EntryType, Entry, Sysconf, integer_list_type, string_list_type, integer_type,
  string_type, boolean_type, dup_quoted_string, starts_quoted, string_entry, addentry_string,
  addentry_integer, addentry_flag_on, addentry_flag_off, retype_first, retype, find_entry,
  sysconf_ptr, sysconf_str_or_default, sysconf_int_or_default, data_type, integer_list, string_list,
  list_entry,
}
use tcp_proxy.Sysconf.Definitions.{
  Definition, number, quoted, flag_on, flag_off, numbers, strings, define, define_all, new_sysconf,
}
use tcp_proxy.Sysconf.Lists.{
  kept, number_cell, string_cell, kept_entry, numbers-root, strings-root, dup_quoted_string-quote,
}

-- The entry of a setting that is not a list.
abbrev plain : EntryType → List ℕ → ℤ → Text → Entry
plain type key ivalue value = record {
  key = key;
  entry_type = type;
  ivalue = ivalue;
  value = value;
  list = [];
}

-- What a definition means.
unfoldable pub entry_of : (List ℕ → ℤ) → Definition → Entry
entry_of atoi (number key token) = plain integer_type key (atoi token) (dup_quoted_string token)
entry_of atoi (quoted key token) = plain string_type key (negsuc 0) (text token)
entry_of atoi (flag_on key) = plain boolean_type key (pos 1) (text (111 ∷ 110 ∷ []))
entry_of atoi (flag_off key) = plain boolean_type key (pos 0) (text (111 ∷ 102 ∷ 102 ∷ []))
entry_of atoi (numbers key tokens) =
    kept_entry integer_list_type key (map (number_cell atoi) tokens)
entry_of atoi (strings key tokens) = kept_entry string_list_type key (map string_cell tokens)

abbrev pub key_of : Definition → List ℕ
key_of (number key token) = key
key_of (quoted key token) = key
key_of (flag_on key) = key
key_of (flag_off key) = key
key_of (numbers key tokens) = key
key_of (strings key tokens) = key

-- The last definition of a key, whatever the case of its letters.
unfoldable pub setting : List ℕ → List Definition → Option Definition
setting key [] = none
setting key (d ∷ defs) = elim (setting key defs) [
  | some later ↦ some later
  | none ↦ if same_name key (key_of d) then some d else none
]

key_of_entry : (atoi : List ℕ → ℤ) (d : Definition) → (entry_of atoi d).key ≡ key_of d
unfolding entry_of
key_of_entry atoi (number key token) = refl
key_of_entry atoi (quoted key token) = refl
key_of_entry atoi (flag_on key) = refl
key_of_entry atoi (flag_off key) = refl
key_of_entry atoi (numbers key tokens) = refl
key_of_entry atoi (strings key tokens) = refl

stored_text :
    (token : List ℕ)
    → (if starts_quoted token then dup_quoted_string token else text token)
      ≡ dup_quoted_string token
unfolding starts_quoted dup_quoted_string
stored_text [] = refl
stored_text (c ∷ token) = ground arith

define-root :
    (atoi : List ℕ → ℤ) (d : Definition) (s : Sysconf)
    → s.sp ≡ 0
    → (define atoi d s).sysconf_root ≡ entry_of atoi d ∷ s.sysconf_root
unfolding define entry_of addentry_string addentry_integer addentry_flag_on addentry_flag_off retype
    retype_first string_entry starts_quoted
define-root atoi (number key token) s e =
    ap (λ t. plain integer_type key (atoi token) t ∷ s.sysconf_root) (stored_text token)
define-root atoi (quoted key token) s e =
    ap (λ t. plain string_type key (negsuc 0) t ∷ s.sysconf_root) (dup_quoted_string-quote token)
define-root atoi (flag_on key) s e = refl
define-root atoi (flag_off key) s e = refl
define-root atoi (numbers key tokens) s e = numbers-root atoi key tokens s e
define-root atoi (strings key tokens) s e = strings-root key tokens s e

define-sp : (atoi : List ℕ → ℤ) (d : Definition) (s : Sysconf) → s.sp ≡ 0 → (define atoi d s).sp ≡ 0
unfolding define addentry_string addentry_integer addentry_flag_on addentry_flag_off retype
define-sp atoi (number key token) s e = e
define-sp atoi (quoted key token) s e = e
define-sp atoi (flag_on key) s e = e
define-sp atoi (flag_off key) s e = e
define-sp atoi (numbers key tokens) s e = refl
define-sp atoi (strings key tokens) s e = refl

-- The entry that a setting stands for, or what was there before.
abbrev or_before : (List ℕ → ℤ) → Option Entry → Option Definition → Option Entry
or_before atoi before none = before
or_before atoi before (some d) = some (entry_of atoi d)

setting-first :
    (atoi : List ℕ → ℤ) (before : Option Entry) (key : List ℕ) (d : Definition)
    (defs : List Definition)
    → or_before atoi
        (if same_name key (key_of d) then some (entry_of atoi d) else before)
        (setting key defs)
      ≡ or_before atoi before (setting key (d ∷ defs))
unfolding setting
setting-first atoi before key d defs = elim (Option-cases (setting key defs)) [
  | inr (later, e) ↦ rw e refl
  | inl e ↦ elim (Bool-cases (same_name key (key_of d))) [
    | inl same ↦ rw (e, same) refl
    | inr other ↦ rw (e, other) refl
  ]
]

find_entry-define_all :
    (atoi : List ℕ → ℤ) (key : List ℕ) (defs : List Definition) (s : Sysconf)
    → s.sp ≡ 0
    → find_entry key (define_all atoi defs s).sysconf_root
      ≡ or_before atoi (find_entry key s.sysconf_root) (setting key defs)
unfolding define_all setting find_entry
find_entry-define_all atoi key [] s e = refl
find_entry-define_all atoi key (d ∷ defs) s e =
    find_entry-define_all atoi key defs (define atoi d s) (define-sp atoi d s e)
    ∙ ap (λ root. or_before atoi (find_entry key root) (setting key defs)) (define-root atoi d s e)
    ∙ ap
        (λ k.
          or_before atoi
            (if same_name key k then some (entry_of atoi d) else find_entry key s.sysconf_root)
            (setting key defs))
        (key_of_entry atoi d)
    ∙ setting-first atoi (find_entry key s.sysconf_root) key d defs

sysconf_ptr-define_all :
    (atoi : List ℕ → ℤ) (key : List ℕ) (defs : List Definition)
    → sysconf_ptr key (define_all atoi defs new_sysconf) ≡ or_before atoi none (setting key defs)
unfolding sysconf_ptr new_sysconf find_entry
sysconf_ptr-define_all atoi key defs = find_entry-define_all atoi key defs new_sysconf refl

-- What a setting answers, or the default.
abbrev pub answer {ℓ} : {A : Type ℓ} → (List ℕ → ℤ) → A → (Entry → A) → Option Definition → A
answer atoi default field none = default
answer atoi default field (some d) = field (entry_of atoi d)

-- After the definitions of a file have been read into an empty table, the integer, the text and the
-- type of a key are those of the last definition of the key, whatever the case of its letters, or
-- the default if there is none; of a list, the integer is the number of its elements, at most 64,
-- and the text is not set.
pub lookups-define_all :
    (atoi : List ℕ → ℤ) (key : List ℕ) (defs : List Definition) (n : ℤ) (t : Text)
    → (sysconf_int_or_default key n (define_all atoi defs new_sysconf)
        ≡ answer atoi n (λ e. e.ivalue) (setting key defs))
      × (sysconf_str_or_default key t (define_all atoi defs new_sysconf)
          ≡ answer atoi t (λ e. e.value) (setting key defs))
      × (data_type key (define_all atoi defs new_sysconf)
          ≡ answer atoi integer_type (λ e. e.entry_type) (setting key defs))
unfolding sysconf_int_or_default sysconf_str_or_default data_type
lookups-define_all atoi key defs n t =
    let found = sysconf_ptr-define_all atoi key defs in
    elim (Option-cases (setting key defs)) [
      | inl e ↦
          rw (sysconf_int_or_default, sysconf_str_or_default, data_type, found, e)
            (refl, refl, refl)
      | inr (d, e) ↦
          rw (sysconf_int_or_default, sysconf_str_or_default, data_type, found, e)
            (refl, refl, refl)
    ]

-- If the last definition of a key is a list of numbers, then after the definitions have been read
-- into an empty table `integer_list` returns the last 64 of these numbers in their order, with their
-- count, and `string_list` returns NULL.
pub integer_list-define_all :
    (atoi : List ℕ → ℤ) (key : List ℕ) (defs : List Definition) (k : List ℕ)
    (tokens : List (List ℕ))
    → setting key defs ≡ some (numbers k tokens)
    → (integer_list key (define_all atoi defs new_sysconf)
        ≡ some (
          kept (map (number_cell atoi) tokens),
          pos (length (kept (map (number_cell atoi) tokens))),
        ))
      × (string_list key (define_all atoi defs new_sysconf) ≡ none)
unfolding integer_list string_list entry_of list_entry
integer_list-define_all atoi key defs k tokens e =
    let found = sysconf_ptr-define_all atoi key defs in
    rw (integer_list, string_list, found, e) (refl, refl)
