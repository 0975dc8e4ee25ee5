-- ===== src/Sysconf/Lists.antt =====
-- src/sysconf.c: the stack that a list of the configuration file goes through.
use tcp_proxy.Prelude.{
  ℕ, zero, suc, ◌-◌, ◌<◌, ◌≡◌, refl, sym, ap, ◌∙◌, inl, inr, true, false, List, [], ◌∷◌, ◌++◌, map,
  arith, ltb, ◌==◌, length, take, drop, get_or, length-append, length-drop, Bool-cases,
}
use tcp_proxy.Prelude.Int.{ℤ, pos}
use tcp_proxy.Prelude.Table.{update}
use tcp_proxy.Sysconf.{
  max_int_stk_len, text, unwritten, Cell, intval, str, Sysconf, Entry, dup_quoted_string, collect,
  push, list_append_int, list_append_str, add_prepared_list, set_list_as_integer,
  set_list_as_string, list_entry, addentry_int_list, addentry_string_list, EntryType,
  integer_list_type, string_list_type,
}
use tcp_proxy.Sysconf.Definitions.{quote, append_numbers, append_strings}

-- The characters between the quotation marks.
last_mark :
    (c : ℕ) (token : List ℕ)
    → get_or (c ∷ (token ++ (34 ∷ []))) (length (token ++ (34 ∷ []))) 0 ≡ 34
last_mark c [] = refl
last_mark c (d ∷ token) = last_mark d token

take-append : (token rest : List ℕ) → take (length token) (token ++ rest) ≡ token
take-append [] rest = refl
take-append (c ∷ token) rest = ap (λ t. c ∷ t) (take-append token rest)

pub dup_quoted_string-quote : (token : List ℕ) → dup_quoted_string (quote token) ≡ text token
unfolding dup_quoted_string
dup_quoted_string-quote token =
    let len : length (token ++ (34 ∷ [])) ≡ suc (length token) =
      omega (arith, length-append token (34 ∷ [])) in
    let less : length (token ++ (34 ∷ [])) - 1 ≡ length token = omega (arith, len) in
    let some_left : (length (token ++ (34 ∷ [])) == 0) ≡ false = ground (arith, len) in
    rw (dup_quoted_string, last_mark 34 token, some_left, less, take-append token (34 ∷ [])) refl

-- What is left of a list on a stack of 64 cells.
abbrev pub kept {ℓ} : {A : Type ℓ} → List A → List A
kept xs = drop (length xs - max_int_stk_len) xs

kept-short {ℓ} :
    {A : Type ℓ} (x : A) (xs : List A)
    → ltb (length (kept xs)) max_int_stk_len ≡ true
    → kept (x ∷ xs) ≡ x ∷ kept xs
kept-short x xs h =
    let a : length xs - max_int_stk_len ≡ 0 =
      ground (arith, h, length-drop (length xs - max_int_stk_len) xs) in
    let b : suc (length xs) - max_int_stk_len ≡ 0 =
      ground (arith, h, length-drop (length xs - max_int_stk_len) xs) in
    rw (a, b) refl

kept-long {ℓ} :
    {A : Type ℓ} (x : A) (xs : List A)
    → ltb (length (kept xs)) max_int_stk_len ≡ false
    → kept (x ∷ xs) ≡ kept xs
kept-long x xs h =
    let b : suc (length xs) - max_int_stk_len ≡ suc (length xs - max_int_stk_len) =
      ground (arith, h, length-drop (length xs - max_int_stk_len) xs) in
    rw b refl

collect_congr : (n : ℕ) (f g : ℕ → Cell) → ((k : ℕ) → k < n → f k ≡ g k) → collect n f ≡ collect n g
unfolding collect
collect_congr zero f g h = refl
collect_congr (suc n) f g h =
    ap (λ c. c ∷ collect n f) (h n (omega arith))
    ∙ ap (λ cells. g n ∷ cells) (collect_congr n f g (λ k l. h k (omega arith)))

collect-update :
    (n : ℕ) (stk : ℕ → Cell) (c : Cell) → collect (suc n) (update stk n c) ≡ c ∷ collect n stk
unfolding collect
collect-update n stk c =
    let here : update stk n c n ≡ c = ground arith in
    let below : (k : ℕ) → k < n → update stk n c k ≡ stk k = λ k l. ground (arith, l) in
    ap (λ x. x ∷ collect n (update stk n c)) here
    ∙ ap (λ cells. c ∷ cells) (collect_congr n (update stk n c) stk below)

-- The stack holds cells, the first one on top.
abbrev IsStacked : Sysconf → List Cell → Type 0
IsStacked s cells = (s.sp ≡ length cells) × (collect s.sp s.stk ≡ cells)

push-IsStacked :
    (c : Cell) (cells : List Cell) (s : Sysconf)
    → IsStacked s (kept cells)
    → IsStacked (push c s) (kept (c ∷ cells))
unfolding push
push-IsStacked c cells s (n, e) = elim (Bool-cases (ltb s.sp max_int_stk_len)) [
  | inl room ↦
      let k = kept-short c cells (sym (ap (λ m. ltb m max_int_stk_len) n) ∙ room) in
      rw (push, room, k) (ap suc n, collect-update s.sp s.stk c ∙ ap (λ xs. c ∷ xs) e)
  | inr full ↦
      let k = kept-long c cells (sym (ap (λ m. ltb m max_int_stk_len) n) ∙ full) in
      rw (push, full, k) (n, e)
]

unfoldable push_all : List Cell → Sysconf → Sysconf
push_all [] s = s
push_all (c ∷ cells) s = push c (push_all cells s)

push_all-IsStacked :
    (cells : List Cell) (s : Sysconf) → s.sp ≡ 0 → IsStacked (push_all cells s) (kept cells)
unfolding push_all collect
push_all-IsStacked [] s e = (e, rw (collect, e) refl)
push_all-IsStacked (c ∷ cells) s e =
    push-IsStacked c cells (push_all cells s) (push_all-IsStacked cells s e)

push-root : (c : Cell) (s : Sysconf) → (push c s).sysconf_root ≡ s.sysconf_root
unfolding push
push-root c s = ground arith

push_all-root : (cells : List Cell) (s : Sysconf) → (push_all cells s).sysconf_root ≡ s.sysconf_root
unfolding push_all
push_all-root [] s = refl
push_all-root (c ∷ cells) s = push-root c (push_all cells s) ∙ push_all-root cells s

-- The cells of the tokens of a list.
abbrev pub number_cell : (List ℕ → ℤ) → List ℕ → Cell
number_cell atoi token = intval (atoi token)

abbrev pub string_cell : List ℕ → Cell
string_cell token = str (text token)

append_numbers-push_all :
    (atoi : List ℕ → ℤ) (tokens : List (List ℕ)) (s : Sysconf)
    → append_numbers atoi tokens s ≡ push_all (map (number_cell atoi) tokens) s
unfolding append_numbers list_append_int push_all
append_numbers-push_all atoi [] s = refl
append_numbers-push_all atoi (token ∷ tokens) s =
    ap (push (intval (atoi token))) (append_numbers-push_all atoi tokens s)

append_strings-push_all :
    (tokens : List (List ℕ)) (s : Sysconf)
    → append_strings tokens s ≡ push_all (map string_cell tokens) s
unfolding append_strings list_append_str push_all
append_strings-push_all [] s = refl
append_strings-push_all (token ∷ tokens) s =
    ap (λ t. push (str t) (append_strings tokens s)) (dup_quoted_string-quote token)
    ∙ ap (push (str (text token))) (append_strings-push_all tokens s)

-- The entry of a list: its last 64 elements, in their order.
abbrev pub kept_entry : EntryType → List ℕ → List Cell → Entry
kept_entry type key cells = record {
  key = key;
  entry_type = type;
  ivalue = pos (length (kept cells));
  value = unwritten;
  list = kept cells;
}

prepared_integers :
    (key : List ℕ) (cells : List Cell) (s : Sysconf)
    → IsStacked s cells
    → (add_prepared_list key (set_list_as_integer s)).sysconf_root
      ≡ list_entry integer_list_type key cells (length cells) ∷ s.sysconf_root
unfolding add_prepared_list set_list_as_integer addentry_int_list
prepared_integers key cells s (n, e) = rw (e, n) refl

prepared_strings :
    (key : List ℕ) (cells : List Cell) (s : Sysconf)
    → IsStacked s cells
    → (add_prepared_list key (set_list_as_string s)).sysconf_root
      ≡ list_entry string_list_type key cells (length cells) ∷ s.sysconf_root
unfolding add_prepared_list set_list_as_string addentry_string_list
prepared_strings key cells s (n, e) = rw (e, n) refl

pub numbers-root :
    (atoi : List ℕ → ℤ) (key : List ℕ) (tokens : List (List ℕ)) (s : Sysconf)
    → s.sp ≡ 0
    → (add_prepared_list key (set_list_as_integer (append_numbers atoi tokens s))).sysconf_root
      ≡ kept_entry integer_list_type key (map (number_cell atoi) tokens) ∷ s.sysconf_root
unfolding list_entry
numbers-root atoi key tokens s e =
    let cells = map (number_cell atoi) tokens in
    ap (λ t. (add_prepared_list key (set_list_as_integer t)).sysconf_root)
      (append_numbers-push_all atoi tokens s)
    ∙ prepared_integers key (kept cells) (push_all cells s) (push_all-IsStacked cells s e)
    ∙ ap (λ root. kept_entry integer_list_type key cells ∷ root) (push_all-root cells s)

pub strings-root :
    (key : List ℕ) (tokens : List (List ℕ)) (s : Sysconf)
    → s.sp ≡ 0
    → (add_prepared_list key (set_list_as_string (append_strings tokens s))).sysconf_root
      ≡ kept_entry string_list_type key (map string_cell tokens) ∷ s.sysconf_root
unfolding list_entry
strings-root key tokens s e =
    let cells = map string_cell tokens in
    ap (λ t. (add_prepared_list key (set_list_as_string t)).sysconf_root)
      (append_strings-push_all tokens s)
    ∙ prepared_strings key (kept cells) (push_all cells s) (push_all-IsStacked cells s e)
    ∙ ap (λ root. kept_entry string_list_type key cells ∷ root) (push_all-root cells s)
