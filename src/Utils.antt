-- ===== src/Utils.antt =====
-- src/utils.c: `text2macaddr`. The bytes at `macaddr` are a function of the index. Characters are
-- numbers.
pub mod Bytes
mod Tests
use tcp_proxy.Prelude.{
  ℕ, zero, suc, ◌+◌, ◌-◌, ◌*◌, ◌%◌, ◌≡◌, Bool, true, false, ◌&&◌, not, Option, none, some, List, [],
  ◌∷◌, arith, ltb, leb, ◌==◌, if◌then◌else◌, length, get_or,
}
use tcp_proxy.Prelude.Table.{update}

-- The value of a hexadecimal digit.
unfoldable pub hex_digit : ℕ → Option ℕ
hex_digit c =
    if leb 48 c && leb c 57
    then some (c - 48)
    else if leb 65 c && leb c 70
    then some (c - 65 + 10)
    else if leb 97 c && leb c 102
    then some (c - 97 + 10)
    else none

-- How many colons there are.
unfoldable pub count_colons : List ℕ → ℕ
count_colons [] = 0
count_colons (c ∷ str) = if c == 58 then suc (count_colons str) else count_colons str

-- The value of the digits at `j` and `j + 1`.
unfoldable pub two_digits : List ℕ → ℕ → Option ℕ
unfolding hex_digit
two_digits str j = elim (hex_digit (get_or str j 0)) [
  | none ↦ none
  | some high ↦ elim (hex_digit (get_or str (suc j) 0)) [
    | none ↦ none
    | some low ↦ some (high * 16 + low)
  ]
]

-- The loop for a text without colons, from `k` on, with `n` turns at most. A turn adds 1 to `k` twice.
-- The answer tells whether the result is not NULL.
unfoldable pub plain_from : ℕ → ℕ → List ℕ → (ℕ → ℕ) → (ℕ → ℕ) × Bool
unfolding two_digits
plain_from zero k str macaddr = (macaddr, true)
plain_from (suc n) k str macaddr =
    if ltb k 6
    then elim (two_digits str (k * 2)) [
      | none ↦ (macaddr, false)
      | some dot ↦ plain_from n (k + 2) str (update macaddr k (dot % 256))
    ]
    else (macaddr, true)

-- The loop for a text with colons, and what stands after it.
unfoldable pub colon_from : List ℕ → ℕ → ℕ → (ℕ → ℕ) → (ℕ → ℕ) × Bool
unfolding hex_digit
colon_from [] k dot macaddr =
    if k == 5 then (update macaddr k (dot % 256), true) else (macaddr, false)
colon_from (c ∷ str) k dot macaddr =
    if ltb k 6
    then elim (hex_digit c) [
      | some d ↦ colon_from str k (dot * 16 + d) macaddr
      | none ↦
          let next = colon_from str (suc k) 0 (update macaddr k (dot % 256)) in
          if c == 58 then next else (macaddr, false)
    ]
    else (macaddr, false)

-- `macaddr` is not NULL.
unfoldable pub text2macaddr : List ℕ → (ℕ → ℕ) → (ℕ → ℕ) × Bool
unfolding count_colons plain_from colon_from
text2macaddr str macaddr =
    let dot = count_colons str in
    if dot == 0
    then (if length str == 12 then plain_from 6 0 str macaddr else (macaddr, false))
    else if dot == 5
    then colon_from str 0 0 macaddr
    else (macaddr, false)
