-- ===== src/HashMap/Chains.antt =====
-- src/hash_map.c: searches and writes in one chain.
use tcp_proxy.Prelude.{
  ℕ, ◌≡◌, ◌≢◌, refl, sym, ap, ◌∙◌, inl, inr, Bool, true, false, ◌&&◌, some, List, [], ◌∷◌, arith,
  ◌==◌, Bool-cases,
}
use tcp_proxy.HashMap.{HashBucket, same_key, find_data, set_data}

pub same_key_refl : (k : List ℕ) → same_key k k ≡ true
unfolding same_key
same_key_refl [] = refl
same_key_refl (a ∷ k) = ground (arith, same_key_refl k)

both : (a b : Bool) → (a && b) ≡ true → (a ≡ true) × (b ≡ true)
both true true e = (refl, refl)
both true false e = absurd (ground (arith, e))
both false b e = absurd (ground (arith, e))

pub same_key_eq : (k k' : List ℕ) → same_key k k' ≡ true → k ≡ k'
unfolding same_key
same_key_eq [] [] e = refl
same_key_eq [] (b ∷ bs) e = absurd (ground (arith, e))
same_key_eq (a ∷ as') [] e = absurd (ground (arith, e))
same_key_eq (a ∷ as') (b ∷ bs) e =
    let (x, y) = both (a == b) (same_key as' bs) e in
    let heads : a ≡ b = ground (arith, x) in
    ap (λ c. c ∷ as') heads ∙ ap (λ cs. b ∷ cs) (same_key_eq as' bs y)

pub same_key_ne : (k k' : List ℕ) → k ≢ k' → same_key k k' ≡ false
same_key_ne k k' ne = elim (Bool-cases (same_key k k')) [
  | inl e ↦ absurd (ne (same_key_eq k k' e))
  | inr e ↦ e
]

module _ {ℓ} {V : Type ℓ} where
  pub find_data-cons_self :
      (e : HashBucket V) (chain : List (HashBucket V)) → find_data (e ∷ chain) e.key ≡ some e.value
  unfolding find_data
  find_data-cons_self e chain = rw (same_key_refl e.key) refl

  pub find_data-cons_ne :
      (e : HashBucket V) (chain : List (HashBucket V)) (k : List ℕ)
      → k ≢ e.key
      → find_data (e ∷ chain) k ≡ find_data chain k
  unfolding find_data
  find_data-cons_ne e chain k ne = rw (same_key_ne k e.key ne) refl

  find_data-cons_hit :
      (e : HashBucket V) (chain : List (HashBucket V)) (k : List ℕ)
      → same_key k e.key ≡ true
      → find_data (e ∷ chain) k ≡ some e.value
  unfolding find_data
  find_data-cons_hit e chain k h = rw h refl

  find_data-cons_miss :
      (e : HashBucket V) (chain : List (HashBucket V)) (k : List ℕ)
      → same_key k e.key ≡ false
      → find_data (e ∷ chain) k ≡ find_data chain k
  unfolding find_data
  find_data-cons_miss e chain k h = rw h refl

  -- A write through the pointer of a successful search.
  pub find_data-set_data :
      (chain : List (HashBucket V)) (k : List ℕ) (v old : V)
      → find_data chain k ≡ some old
      → find_data (set_data chain k v) k ≡ some v
  unfolding find_data set_data
  find_data-set_data [] k v old f = absurd (ground (arith, f))
  find_data-set_data (e ∷ chain) k v old f = elim (Bool-cases (same_key k e.key)) [
    | inl h ↦ rw (h, h) refl
    | inr h ↦
        rw (h, h) (find_data-set_data chain k v old (sym (find_data-cons_miss e chain k h) ∙ f))
  ]

  pub find_data-set_data_ne :
      (chain : List (HashBucket V)) (k k' : List ℕ) (v : V)
      → k' ≢ k
      → find_data (set_data chain k v) k' ≡ find_data chain k'
  unfolding find_data set_data
  find_data-set_data_ne [] k k' v ne = refl
  find_data-set_data_ne (e ∷ chain) k k' v ne = elim (Bool-cases (same_key k e.key)) [
    | inl h ↦
        let apart = same_key_ne k' e.key (λ q. ne (q ∙ sym (same_key_eq k e.key h))) in
        rw (h, apart) refl
    | inr h ↦ elim (Bool-cases (same_key k' e.key)) [
      | inl h' ↦ rw (h, h') refl
      | inr h' ↦ rw (h, h') (find_data-set_data_ne chain k k' v ne)
    ]
  ]
