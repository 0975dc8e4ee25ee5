-- ===== src/HashMap.antt =====
-- src/hash_map.c: a map from strings to values, in chains of a table of buckets. A string is the list
-- of its bytes. The lock makes each operation one step.
pub mod Chains
pub mod Lookup
mod Tests
use tcp_proxy.Prelude.{
  ℕ, zero, suc, ◌+◌, ◌-◌, ◌*◌, ◌%◌, ◌≡◌, Bool, true, false, ◌&&◌, Option, none, some, List, [], ◌∷◌,
  arith, ltb, ◌==◌, if◌then◌else◌,
}
use tcp_proxy.Prelude.Int.{ℤ, pos, negsuc, ◌+ℤ◌, ◌-ℤ◌}
use tcp_proxy.Prelude.Table.{update}

-- `strcmp (a, b) == 0`
unfoldable pub same_key : List ℕ → List ℕ → Bool
same_key [] [] = true
same_key [] (b ∷ bs) = false
same_key (a ∷ as') [] = false
same_key (a ∷ as') (b ∷ bs) = a == b && same_key as' bs

-- The remainder of C, which has the sign of the dividend.
unfoldable pub rem : ℤ → ℕ → ℤ
rem (pos n) m = pos (n % m)
rem (negsuc n) m = pos 0 -ℤ pos (suc n % m)

-- `(int) key[i]`, for a `char` with a sign.
unfoldable pub char_value : ℕ → ℤ
char_value c = if ltb c 128 then pos c else pos c -ℤ pos 256

-- 13 times an `int`.
unfoldable pub times13 : ℤ → ℤ
times13 (pos n) = pos (n * 13)
times13 (negsuc n) = pos 0 -ℤ pos (suc n * 13)

-- The loop of `default_hashing_function`; no value of `code * 13 + key[i]` leaves the range of `int`.
unfoldable pub hash_from : ℤ → List ℕ → ℤ
unfolding rem char_value times13
hash_from code [] = code
hash_from code (c ∷ key) = hash_from (rem (times13 code +ℤ char_value c) 31636373) key

unfoldable pub default_hashing_function : List ℕ → ℤ
unfolding hash_from
default_hashing_function key = hash_from (pos 0) key

-- `struct hash_bucket_t`, without the links: a chain is a list.
pub record HashBucket {ℓ} (V : Type ℓ) : Type ℓ where
  pub key : List ℕ
  pub value : V

-- `struct hash_map_data_t`
pub record HashMap {ℓ} (V : Type ℓ) : Type ℓ where
  pub number_of_entries : ℕ
  pub buckets_size : ℕ
  pub buckets : ℕ → List (HashBucket V)
  pub hashing_function : List ℕ → ℤ

module _ {ℓ} {V : Type ℓ} where
  -- A call with memory for the table; no function stands for the default one.
  unfoldable pub new_hash_map : ℕ → Option (List ℕ → ℤ) → HashMap V
  unfolding default_hashing_function
  new_hash_map buckets_size hashing_function = record {
    number_of_entries = 0;
    buckets_size = buckets_size;
    buckets = λ _. [];
    hashing_function = elim hashing_function [ none ↦ default_hashing_function | some f ↦ f ];
  }

  -- The index of the bucket; a division by zero and a negative index are faults.
  unfoldable pub find_head : HashMap V → List ℕ → Option ℕ
  unfolding rem
  find_head data' key =
      if data'.buckets_size == 0
      then none
      else elim (rem (data'.hashing_function key) data'.buckets_size) [
        | pos i ↦ some i
        | negsuc n ↦ none
      ]

  -- The value of the entry that `find_data` returns.
  unfoldable pub find_data : List (HashBucket V) → List ℕ → Option V
  unfolding same_key
  find_data [] key = none
  find_data (e ∷ chain) key = if same_key key e.key then some e.value else find_data chain key

  -- `ptr->value = value`, for the entry that `find_data` returns.
  unfoldable pub set_data : List (HashBucket V) → List ℕ → V → List (HashBucket V)
  unfolding same_key
  set_data [] key v = []
  set_data (e ∷ chain) key v =
      if same_key key e.key then record e { value = v } ∷ chain else e ∷ set_data chain key v

  unfoldable pub exists : HashMap V → List ℕ → Option Bool
  unfolding find_head find_data
  exists data' key = elim (find_head data' key) [
    | none ↦ none
    | some i ↦ elim (find_data (data'.buckets i) key) [ none ↦ some false | some v ↦ some true ]
  ]

  unfoldable pub get_by_key : HashMap V → List ℕ → Option (Option V)
  unfolding find_head find_data
  get_by_key data' key = elim (find_head data' key) [
    | none ↦ none
    | some i ↦ some (find_data (data'.buckets i) key)
  ]

  -- A new entry at the head of its chain; `allocated` tells whether `malloc` succeeds.
  unfoldable pub add_data : HashMap V → Bool → ℕ → List ℕ → V → HashMap V
  add_data data' allocated i key v =
      if allocated
      then record data' {
        buckets = update data'.buckets i (record { key = key; value = v } ∷ data'.buckets i);
      }
      else data'

  unfoldable pub put_if_absent : HashMap V → Bool → List ℕ → V → Option (HashMap V × Option V)
  unfolding find_head find_data add_data
  put_if_absent data' allocated key v = elim (find_head data' key) [
    | none ↦ none
    | some i ↦ elim (find_data (data'.buckets i) key) [
      | some origin ↦ some (data', some origin)
      | none ↦ some (add_data data' allocated i key v, none)
    ]
  ]

  unfoldable pub overwrite_put : HashMap V → Bool → List ℕ → V → Option (HashMap V × Option V)
  unfolding find_head find_data add_data set_data
  overwrite_put data' allocated key v = elim (find_head data' key) [
    | none ↦ none
    | some i ↦ elim (find_data (data'.buckets i) key) [
      | some origin ↦ some (
        record data' { buckets = update data'.buckets i (set_data (data'.buckets i) key v) },
        some origin,
      )
      | none ↦ some (add_data data' allocated i key v, none)
    ]
  ]
