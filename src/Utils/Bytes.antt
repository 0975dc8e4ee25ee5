-- ===== src/Utils/Bytes.antt =====
-- src/utils.c: which bytes `text2macaddr` writes.
use tcp_proxy.Prelude.{
  ℕ, zero, suc, ◌+◌, ◌*◌, ◌%◌, ◌≡◌, ◌≢◌, refl, inl, inr, List, arith, Option-cases,
}
use tcp_proxy.Prelude.Table.{update}
use tcp_proxy.Utils.{text2macaddr, count_colons, plain_from, two_digits}

-- The loop writes to every second byte only.
plain_from_odd :
    (n k : ℕ) (str : List ℕ) (macaddr : ℕ → ℕ) (i : ℕ)
    → k % 2 ≡ 0
    → i % 2 ≡ 1
    → (plain_from n k str macaddr).0 i ≡ macaddr i
unfolding plain_from
plain_from_odd zero k str macaddr i even odd = refl
plain_from_odd (suc n) k str macaddr i even odd = elim (Option-cases (two_digits str (k * 2))) [
  | inl e ↦ ground (arith, e)
  | inr (dot, e) ↦
      let rest = plain_from_odd n (k + 2) str (update macaddr k (dot % 256)) i (omega arith) odd in
      let apart : i ≢ k = (λ same. absurd (omega arith)) in ground (arith, e, rest, apart)
]

-- For a text without colons, `text2macaddr` leaves every byte at an odd index as it was, so that
-- three of the six bytes of the address are never written.
pub text2macaddr_odd :
    (str : List ℕ) (macaddr : ℕ → ℕ) (i : ℕ)
    → count_colons str ≡ 0
    → i % 2 ≡ 1
    → (text2macaddr str macaddr).0 i ≡ macaddr i
unfolding text2macaddr
text2macaddr_odd str macaddr i plain odd =
    ground (arith, plain, plain_from_odd 6 0 str macaddr i (omega arith) odd)
