-- ===== src/Prelude/Table.antt =====
-- A C array as a function of the index, with its writes, and sums over its first entries.
use native.Mathlib.Decide.{ℕ_discrete}
use tcp_proxy.Prelude.{
  ℕ, zero, suc, ◌+◌, ◌≤◌, ◌<◌, ◌≡◌, ◌≢◌, refl, subst, arith, ◌==◌, if◌then◌else◌,
}

-- `a[i] = v`
abbrev pub update {ℓ} : {A : Type ℓ} → (ℕ → A) → ℕ → A → ℕ → A
update f i v k = if k == i then v else f k

unfoldable pub sum_below : ℕ → (ℕ → ℕ) → ℕ
sum_below zero f = 0
sum_below (suc n) f = f n + sum_below n f

pub sum_below_congr :
    (n : ℕ) (f g : ℕ → ℕ) → ((k : ℕ) → k < n → f k ≡ g k) → sum_below n f ≡ sum_below n g
unfolding sum_below
sum_below_congr zero f g h = refl
sum_below_congr (suc n) f g h =
    omega (arith, h n (omega arith), sum_below_congr n f g (λ k lt. h k (omega arith)))

-- Where two tables differ at one index only, so do their sums.
pub sum_below_except :
    (n : ℕ) (f g : ℕ → ℕ) (i : ℕ)
    → i < n
    → ((k : ℕ) → k ≢ i → f k ≡ g k)
    → sum_below n f + g i ≡ sum_below n g + f i
unfolding sum_below
sum_below_except zero f g i lt h = absurd (omega arith)
sum_below_except (suc n) f g i lt h = elim (ℕ_discrete n i) [
  | yes e ↦
      subst (λ j. f n + sum_below n f + g j ≡ g n + sum_below n g + f j) e
        (omega (arith, sum_below_congr n f g (λ k l. h k (omega arith))))
  | no d ↦ omega (arith, h n d, sum_below_except n f g i (omega arith) h)
]

pub sum_below-eq_zero : (n : ℕ) (f : ℕ → ℕ) → ((k : ℕ) → k < n → f k ≡ 0) → sum_below n f ≡ 0
unfolding sum_below
sum_below-eq_zero zero f h = refl
sum_below-eq_zero (suc n) f h =
    omega (arith, h n (omega arith), sum_below-eq_zero n f (λ k l. h k (omega arith)))

-- A table of ones.
pub sum_below-eq_self : (n : ℕ) (f : ℕ → ℕ) → ((k : ℕ) → k < n → f k ≡ 1) → sum_below n f ≡ n
unfolding sum_below
sum_below-eq_self zero f h = refl
sum_below-eq_self (suc n) f h =
    omega (arith, h n (omega arith), sum_below-eq_self n f (λ k l. h k (omega arith)))

-- A table of zeros and ones.
pub sum_below-le : (n : ℕ) (f : ℕ → ℕ) → ((k : ℕ) → f k ≤ 1) → sum_below n f ≤ n
unfolding sum_below
sum_below-le zero f h = omega arith
sum_below-le (suc n) f h = omega (arith, h n, sum_below-le n f h)
