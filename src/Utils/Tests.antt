-- ===== src/Utils/Tests.antt =====
-- src/utils.c: MAC addresses with and without colons.
use tcp_proxy.Prelude.{ℕ, ◌≡◌, refl, List, [], ◌∷◌}
use tcp_proxy.Utils.{text2macaddr}
use tcp_proxy.Utils.Bytes.{text2macaddr_odd}

-- 112233445566
abbrev plain_text : List ℕ
plain_text = 49 ∷ 49 ∷ 50 ∷ 50 ∷ 51 ∷ 51 ∷ 52 ∷ 52 ∷ 53 ∷ 53 ∷ 54 ∷ 54 ∷ []

-- 1:2:3:4:5:6
abbrev colon_text : List ℕ
colon_text = 49 ∷ 58 ∷ 50 ∷ 58 ∷ 51 ∷ 58 ∷ 52 ∷ 58 ∷ 53 ∷ 58 ∷ 54 ∷ []

abbrev all_nines : ℕ → ℕ
all_nines i = 9

text2macaddr_odd_example : (text2macaddr plain_text all_nines).0 1 ≡ 9
unfolding text2macaddr
text2macaddr_odd_example = text2macaddr_odd plain_text all_nines 1 refl refl

with_colons : (text2macaddr colon_text all_nines).0 5 ≡ 6
unfolding text2macaddr
with_colons = refl

first_byte : (text2macaddr plain_text all_nines).0 0 ≡ 17
unfolding text2macaddr
first_byte = refl
