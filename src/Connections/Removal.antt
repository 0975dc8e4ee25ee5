-- ===== src/Connections/Removal.antt =====
-- src/proxying.c: lists of distinct addresses, and taking one out.
use native.Mathlib.Decide.{ℕ_discrete}
use tcp_proxy.Prelude.{
  ℕ, ◌+◌, ◌≡◌, ◌≢◌, sym, subst, List, [], ◌∷◌, arith, ◌==◌, if◌then◌else◌, length,
}
use tcp_proxy.Connections.Segments.{Outside, Distinct}

-- `xs` with `x` taken out.
abbrev pub remove : ℕ → List ℕ → List ℕ
remove x [] = []
remove x (y ∷ ys) = if x == y then ys else y ∷ remove x ys

pub remove_hit : (x y : ℕ) (ys : List ℕ) → x ≡ y → remove x (y ∷ ys) ≡ ys
remove_hit x y ys e = ground arith

pub remove_ne : (x y : ℕ) (zs : List ℕ) → x ≢ y → remove x (y ∷ zs) ≡ y ∷ remove x zs
remove_ne x y zs ne = ground arith

pub Outside-remove : (z x : ℕ) (xs : List ℕ) → Outside z xs → Outside z (remove x xs)
Outside-remove z x [] o = tt
Outside-remove z x (y ∷ ys) o = ground (arith, Outside-remove z x ys o.1)

pub Outside-remove_self : (x : ℕ) (xs : List ℕ) → Distinct xs → Outside x (remove x xs)
Outside-remove_self x [] d = tt
Outside-remove_self x (y ∷ ys) d = elim (ℕ_discrete x y) [
  | yes same ↦ rw (remove_hit x y ys same) (subst (λ v. Outside v ys) (sym same) d.0)
  | no other ↦ rw (remove_ne x y ys other) (other, Outside-remove_self x ys d.1)
]

pub Distinct-remove : (x : ℕ) (xs : List ℕ) → Distinct xs → Distinct (remove x xs)
Distinct-remove x [] d = tt
Distinct-remove x (y ∷ ys) d = elim (ℕ_discrete x y) [
  | yes same ↦ rw (remove_hit x y ys same) d.1
  | no other ↦ rw (remove_ne x y ys other) (Outside-remove y x ys d.0, Distinct-remove x ys d.1)
]

pub length-remove : (x : ℕ) (xs : List ℕ) → ¬ Outside x xs → length (remove x xs) + 1 ≡ length xs
length-remove x [] inside = absurd (inside tt)
length-remove x (y ∷ ys) inside = elim (ℕ_discrete x y) [
  | yes same ↦ rw (remove_hit x y ys same) (omega arith)
  | no other ↦
      rw (remove_ne x y ys other) (omega (arith, length-remove x ys (λ o. inside (other, o))))
]
