-- ===== src/HashMap/Lookup.antt =====
-- src/hash_map.c: the map as a function from keys to values, under `put_if_absent` and `put`.
use tcp_proxy.Prelude.{
  ℕ, ◌+◌, ◌*◌, ◌<◌, ◌%◌, ◌≡◌, ◌≢◌, refl, sym, ap, subst, ◌∙◌, inl, inr, true, Option, none, some,
  List, [], ◌∷◌, arith, if◌then◌else◌, Option-cases, Bool-cases,
}
use native.Mathlib.Decide.{ℕ_discrete}
use tcp_proxy.Prelude.Int.{pos, ◌+ℤ◌}
use tcp_proxy.Prelude.Table.{update}
use tcp_proxy.HashMap.{
  HashBucket, HashMap, find_head, find_data, set_data, get_by_key, new_hash_map, same_key, add_data,
  put_if_absent, overwrite_put, rem, char_value, times13, hash_from, default_hashing_function,
}
use tcp_proxy.HashMap.Chains.{
  same_key_refl, same_key_eq, same_key_ne, find_data-cons_self, find_data-cons_ne,
  find_data-set_data, find_data-set_data_ne,
}

same_head : (o : Option ℕ) (i j : ℕ) → o ≡ some i → o ≡ some j → j ≡ i
same_head o i j a b = ground (arith, a, b)

-- Characters without the eighth bit, for which `char` is not negative.
abbrev pub IsAscii : List ℕ → Type 0
IsAscii [] = Unit
IsAscii (c ∷ k) = (c < 128) × IsAscii k

pos_add : (a b : ℕ) → (pos a +ℤ pos b) ≡ pos (a + b)
unfolding ◌+ℤ◌
pos_add a b = ground arith

char_value-small : (c : ℕ) → c < 128 → char_value c ≡ pos c
unfolding char_value
char_value-small c small = ground arith

hash_step :
    (n c : ℕ)
    → c < 128
    → rem (times13 (pos n) +ℤ char_value c) 31636373 ≡ pos ((n * 13 + c) % 31636373)
unfolding rem times13
hash_step n c small =
    ap (λ z. rem (times13 (pos n) +ℤ z) 31636373) (char_value-small c small)
    ∙ ap (λ z. rem z 31636373) (pos_add (n * 13) c)

hash_from-pos : (n : ℕ) (k : List ℕ) → IsAscii k → (m : ℕ) × (hash_from (pos n) k ≡ pos m)
unfolding hash_from
hash_from-pos n [] ascii = (n, refl)
hash_from-pos n (c ∷ k) ascii =
    let (m, e) = hash_from-pos ((n * 13 + c) % 31636373) k ascii.1 in
    (m, ap (λ z. hash_from z k) (hash_step n c ascii.0) ∙ e)

-- The default hash of an ASCII key is not negative.
default_hashing_function-pos :
    (k : List ℕ) → IsAscii k → (n : ℕ) × (default_hashing_function k ≡ pos n)
unfolding default_hashing_function
default_hashing_function-pos k ascii = hash_from-pos 0 k ascii

module _ {ℓ} {V : Type ℓ} where
  -- The map has a bucket for every key of ASCII characters, and holds `entries` at the keys that
  -- have a bucket.
  pub record Holds (data' : HashMap V) (entries : List ℕ → Option V) : Type ℓ where
    pub head_of : (k : List ℕ) → IsAscii k → (i : ℕ) × (find_head data' k ≡ some i)
    pub found :
        (k : List ℕ) (i : ℕ)
        → find_head data' k ≡ some i
        → find_data (data'.buckets i) k ≡ entries k

  -- `entries` with `v` at `k`.
  unfoldable pub assign : (List ℕ → Option V) → List ℕ → V → List ℕ → Option V
  assign entries k v k' = if same_key k' k then some v else entries k'

  pub assign_self :
      (entries : List ℕ → Option V) (k : List ℕ) (v : V) → assign entries k v k ≡ some v
  unfolding assign
  assign_self entries k v = rw (same_key_refl k) refl

  assign_ne :
      (entries : List ℕ → Option V) (k k' : List ℕ) (v : V)
      → k' ≢ k
      → assign entries k v k' ≡ entries k'
  unfolding assign
  assign_ne entries k k' v ne = rw (same_key_ne k' k ne) refl

  -- On a map with a bucket for every ASCII key that holds some entries, `get` of an ASCII key returns
  -- its entry with no fault.
  pub get_by_key-Holds :
      (data' : HashMap V) (entries : List ℕ → Option V) (k : List ℕ)
      → Holds data' entries
      → IsAscii k
      → get_by_key data' k ≡ some (entries k)
  unfolding get_by_key
  get_by_key-Holds data' entries k h ascii =
      let (i, e) = h.head_of k ascii in ground (arith, e, h.found k i e)

  update_at :
      (f : ℕ → List (HashBucket V)) (i j : ℕ) (c : List (HashBucket V)) → j ≡ i → update f i c j ≡ c
  update_at f i j c e = ground (arith, e)

  update_off :
      (f : ℕ → List (HashBucket V)) (i j : ℕ) (c : List (HashBucket V))
      → j ≢ i
      → update f i c j ≡ f j
  update_off f i j c ne = ground arith

  -- One bucket changes, and its chain finds the new entries.
  replace-Holds :
      (data' : HashMap V) (entries : List ℕ → Option V) (k : List ℕ) (v : V) (i : ℕ)
      (chain : List (HashBucket V))
      → Holds data' entries
      → find_head data' k ≡ some i
      → find_data chain k ≡ some v
      → ((k' : List ℕ) → k' ≢ k → find_data chain k' ≡ find_data (data'.buckets i) k')
      → Holds (record data' { buckets = update data'.buckets i chain }) (assign entries k v)
  unfolding find_head
  replace-Holds data' entries k v i chain h at here there = record {
    head_of = h.head_of;
    found = λ k' j e. elim (Bool-cases (same_key k' k)) [
      | inl hit ↦
          let same = same_key_eq k' k hit in
          let j_is =
            same_head (find_head data' k) i j at (subst (λ q. find_head data' q ≡ some j) same e) in
          ap (λ c. find_data c k') (update_at data'.buckets i j chain j_is)
          ∙ ap (λ q. find_data chain q) same
          ∙ here
          ∙ sym (ap (λ q. assign entries k v q) same ∙ assign_self entries k v)
      | inr miss ↦
          let ne : k' ≢ k =
            (λ q. absurd (ground (arith, miss, same_key_refl k, ap (λ z. same_key z k) q))) in
          elim (ℕ_discrete j i) [
            | yes j_is ↦
                ap (λ c. find_data c k') (update_at data'.buckets i j chain j_is)
                ∙ there k' ne
                ∙ h.found k' i (subst (λ n. find_head data' k' ≡ some n) j_is e)
                ∙ sym (assign_ne entries k k' v ne)
            | no off ↦
                ap (λ c. find_data c k') (update_off data'.buckets i j chain off)
                ∙ h.found k' j e
                ∙ sym (assign_ne entries k k' v ne)
          ]
    ];
  }

  add-Holds :
      (data' : HashMap V) (entries : List ℕ → Option V) (k : List ℕ) (v : V) (i : ℕ)
      → Holds data' entries
      → find_head data' k ≡ some i
      → Holds (add_data data' true i k v) (assign entries k v)
  unfolding add_data
  add-Holds data' entries k v i h at =
      let e : HashBucket V = record { key = k; value = v } in
      replace-Holds data' entries k v i (e ∷ data'.buckets i) h at
        (find_data-cons_self e (data'.buckets i))
        (λ k' ne. find_data-cons_ne e (data'.buckets i) k' ne)

  overwrite_put-new :
      (data' : HashMap V) (k : List ℕ) (v : V) (i : ℕ)
      → find_head data' k ≡ some i
      → find_data (data'.buckets i) k ≡ none
      → overwrite_put data' true k v ≡ some (add_data data' true i k v, none)
  unfolding overwrite_put
  overwrite_put-new data' k v i at f = ground (arith, at, f)

  overwrite_put-old :
      (data' : HashMap V) (k : List ℕ) (v old : V) (i : ℕ)
      → find_head data' k ≡ some i
      → find_data (data'.buckets i) k ≡ some old
      → overwrite_put data' true k v
        ≡ some (
          record data' { buckets = update data'.buckets i (set_data (data'.buckets i) k v) },
          some old,
        )
  unfolding overwrite_put
  overwrite_put-old data' k v old i at f = ground (arith, at, f)

  put_if_absent-new :
      (data' : HashMap V) (k : List ℕ) (v : V) (i : ℕ)
      → find_head data' k ≡ some i
      → find_data (data'.buckets i) k ≡ none
      → put_if_absent data' true k v ≡ some (add_data data' true i k v, none)
  unfolding put_if_absent
  put_if_absent-new data' k v i at f = ground (arith, at, f)

  put_if_absent-old :
      (data' : HashMap V) (k : List ℕ) (v old : V) (i : ℕ)
      → find_head data' k ≡ some i
      → find_data (data'.buckets i) k ≡ some old
      → put_if_absent data' true k v ≡ some (data', some old)
  unfolding put_if_absent
  put_if_absent-old data' k v old i at f = ground (arith, at, f)

  -- On a map with a bucket for every ASCII key that holds some entries, `put` of an ASCII key with
  -- memory for a new entry returns the earlier value of the key, with no fault, and leaves a map
  -- that holds the same entries with the new value at that key.
  pub overwrite_put-Holds :
      (data' : HashMap V) (entries : List ℕ → Option V) (k : List ℕ) (v : V)
      → Holds data' entries
      → IsAscii k
      → (m : HashMap V) × (overwrite_put data' true k v ≡ some (m, entries k))
        × Holds m (assign entries k v)
  overwrite_put-Holds data' entries k v h ascii =
      let (i, at) = h.head_of k ascii in
      let f = h.found k i at in
      elim (Option-cases (find_data (data'.buckets i) k)) [
        | inl e ↦ (
          _,
          overwrite_put-new data' k v i at e
              ∙ ap (λ o. some (add_data data' true i k v, o)) (sym e ∙ f),
          add-Holds data' entries k v i h at,
        )
        | inr (old, e) ↦ (
          _,
          overwrite_put-old data' k v old i at e
              ∙ ap
                  (λ o. some (
                    record data' {
                      buckets = update data'.buckets i (set_data (data'.buckets i) k v);
                    },
                    o,
                  ))
                  (sym e ∙ f),
          replace-Holds data' entries k v i (set_data (data'.buckets i) k v) h at
              (find_data-set_data (data'.buckets i) k v old e)
              (λ k' ne. find_data-set_data_ne (data'.buckets i) k k' v ne),
        )
      ]

  -- On a map with a bucket for every ASCII key that holds some entries, `put_if_absent` with memory for a
  -- new entry returns the value of the key, with no fault; if there was none, the map then holds the
  -- same entries with the new value at that key, and else it stays as it was.
  pub put_if_absent-Holds :
      (data' : HashMap V) (entries : List ℕ → Option V) (k : List ℕ) (v : V)
      → Holds data' entries
      → IsAscii k
      → (m : HashMap V) × (put_if_absent data' true k v ≡ some (m, entries k))
        × (entries k ≡ none → Holds m (assign entries k v))
        × (entries k ≢ none → m ≡ data')
  put_if_absent-Holds data' entries k v h ascii =
      let (i, at) = h.head_of k ascii in
      let f = h.found k i at in
      elim (Option-cases (find_data (data'.buckets i) k)) [
        | inl e ↦ (
          _,
          put_if_absent-new data' k v i at e
              ∙ ap (λ o. some (add_data data' true i k v, o)) (sym e ∙ f),
          (λ _. add-Holds data' entries k v i h at),
          (λ ne. absurd (ne (sym f ∙ e))),
        )
        | inr (old, e) ↦ (
          _,
          put_if_absent-old data' k v old i at e ∙ ap (λ o. some (data', o)) (sym e ∙ f),
          (λ n. absurd (ground (arith, n, e, f))),
          (λ _. refl),
        )
      ]

  -- A new map with at least one bucket and the default hashing function has a bucket for every ASCII
  -- key and holds no entry.
  pub new_hash_map-Holds :
      (buckets_size : ℕ)
      → 0 < buckets_size
      → Holds (new_hash_map {V = V} buckets_size none) (λ k. none)
  unfolding new_hash_map find_head find_data rem
  new_hash_map-Holds buckets_size sized = record {
    head_of = λ k ascii.
        let (n, e) = default_hashing_function-pos k ascii in (n % buckets_size, ground (arith, e));
    found = λ k i e. refl;
  }
