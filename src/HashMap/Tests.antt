-- ===== src/HashMap/Tests.antt =====
-- src/hash_map.c: a map with the default hash, as the program makes it.
use tcp_proxy.Prelude.{ℕ, ◌≡◌, refl, true, false, Option, none, some, [], ◌∷◌, arith}
use tcp_proxy.Prelude.Int.{pos, ◌+ℤ◌, ◌-ℤ◌}
use tcp_proxy.HashMap.{
  HashMap, find_head, new_hash_map, default_hashing_function, overwrite_put, exists,
}
use tcp_proxy.HashMap.Lookup.{Holds, assign, overwrite_put-Holds, new_hash_map-Holds}

abbrev no_entry : Option ℕ
no_entry = none

abbrev empty_map : HashMap ℕ
empty_map = new_hash_map 97 none

empty_map-Holds : Holds empty_map (λ k. none)
empty_map-Holds = new_hash_map-Holds 97 (omega arith)

overwrite_put-Holds_example :
    (m : HashMap ℕ) × (overwrite_put empty_map true (97 ∷ []) 7 ≡ some (m, none))
    × Holds m (assign (λ k. none) (97 ∷ []) 7)
overwrite_put-Holds_example =
    overwrite_put-Holds empty_map (λ k. none) (97 ∷ []) 7 empty_map-Holds (omega arith, tt)

hash_of_ab : default_hashing_function (97 ∷ 98 ∷ []) ≡ pos 1359
unfolding default_hashing_function ◌+ℤ◌
hash_of_ab = refl

nothing_there : exists empty_map (97 ∷ []) ≡ some false
unfolding exists new_hash_map ◌+ℤ◌
nothing_there = refl

-- A byte of 128 or more has a negative `char`, and no bucket.
no_bucket : find_head empty_map (200 ∷ []) ≡ none
unfolding find_head new_hash_map ◌+ℤ◌ ◌-ℤ◌
no_bucket = refl
