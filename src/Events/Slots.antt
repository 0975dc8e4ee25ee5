-- ===== src/Events/Slots.antt =====
-- src/events.c: the searches over the slots.
use native.Mathlib.Decide.{ℕ_discrete}
use tcp_proxy.Prelude.{
  ℕ, zero, suc, ◌+◌, ◌≤◌, ◌<◌, ◌≡◌, ◌≢◌, refl, subst, inl, inr, true, false, none, some, arith,
  if◌then◌else◌, Bool-cases,
}
use tcp_proxy.Prelude.Int.{ℤ, pos, eqb_ℤ, ltb_ℤ, eqb_ℤ→eq, eqb_ℤ_refl}
use tcp_proxy.Prelude.Table.{update, sum_below, sum_below_congr, sum_below_except}
use tcp_proxy.Events.{scan_free, trim, find_fd, free_fd}

-- 1 for a slot in use, 0 for a free one.
abbrev pub used : (ℕ → ℤ) → ℕ → ℕ
used fds k = if eqb_ℤ (fds k) free_fd then 0 else 1

-- The number of slots in use below `n`.
abbrev pub live : (ℕ → ℤ) → ℕ → ℕ
live fds n = sum_below n (used fds)

pub scan_free-some :
    (fds : ℕ → ℤ) (n i j : ℕ)
    → scan_free fds n i ≡ some j
    → (i ≤ j) × (j < i + n) × (fds j ≡ free_fd)
unfolding scan_free
scan_free-some fds zero i j h = cc
scan_free-some fds (suc n) i j h = elim (Bool-cases (eqb_ℤ (fds i) free_fd)) [
  | inl e ↦ ground (arith, eqb_ℤ→eq (fds i) free_fd e)
  | inr e ↦ ground (arith, scan_free-some fds n (i + 1) j)
]

pub scan_free-none :
    (fds : ℕ → ℤ) (n i k : ℕ)
    → scan_free fds n i ≡ none
    → i ≤ k
    → k < i + n
    → eqb_ℤ (fds k) free_fd ≡ false
unfolding scan_free
scan_free-none fds zero i k h lo hi = absurd (omega arith)
scan_free-none fds (suc n) i k h lo hi = elim (ℕ_discrete i k) [
  | yes e ↦ subst (λ j. eqb_ℤ (fds j) free_fd ≡ false) e (ground arith)
  | no d ↦ ground (arith, scan_free-none fds n (i + 1) k)
]

pub find_fd-some :
    (fds : ℕ → ℤ) (fd : ℤ) (n i j : ℕ)
    → find_fd fds fd n i ≡ some j
    → (i ≤ j) × (j < i + n) × (fds j ≡ fd)
unfolding find_fd
find_fd-some fds fd zero i j h = cc
find_fd-some fds fd (suc n) i j h = elim (Bool-cases (eqb_ℤ fd (fds i))) [
  | inl e ↦ ground (arith, eqb_ℤ→eq fd (fds i) e)
  | inr e ↦ ground (arith, find_fd-some fds fd n (i + 1) j)
]

pub find_fd-none :
    (fds : ℕ → ℤ) (fd : ℤ) (n i k : ℕ) → find_fd fds fd n i ≡ none → i ≤ k → k < i + n → fds k ≢ fd
unfolding find_fd
find_fd-none fds fd zero i k h lo hi = absurd (omega arith)
find_fd-none fds fd (suc n) i k h lo hi = elim (ℕ_discrete i k) [
  | yes e ↦ subst (λ j. fds j ≢ fd) e (λ p. ground (arith, eqb_ℤ_refl fd))
  | no d ↦ ground (arith, find_fd-none fds fd n (i + 1) k)
]

-- A free slot below `n` that takes a descriptor adds one to the slots in use.
pub live-fill :
    (fds : ℕ → ℤ) (n i : ℕ) (fd : ℤ)
    → i < n
    → fds i ≡ free_fd
    → eqb_ℤ fd free_fd ≡ false
    → live (update fds i fd) n ≡ live fds n + 1
live-fill fds n i fd lt e d =
    let other =
      sum_below_except n (used (update fds i fd)) (used fds) i lt (λ k ne. ground arith) in
    let new : used (update fds i fd) i ≡ 1 = ground arith in
    let old : used fds i ≡ 0 = rw e refl in omega (arith, other, new, old)

-- A slot in use that is freed takes one away.
pub live-free :
    (fds : ℕ → ℤ) (n i : ℕ)
    → i < n
    → eqb_ℤ (fds i) free_fd ≡ false
    → live (update fds i free_fd) n + 1 ≡ live fds n
live-free fds n i lt d =
    let other =
      sum_below_except n (used (update fds i free_fd)) (used fds) i lt (λ k ne. ground arith) in
    let new : used (update fds i free_fd) i ≡ 0 = ground arith in
    let old : used fds i ≡ 1 = rw d refl in omega (arith, other, new, old)

-- What lies above the written slot does not count.
pub live-above : (fds : ℕ → ℤ) (n i : ℕ) (fd : ℤ) → n ≤ i → live (update fds i fd) n ≡ live fds n
live-above fds n i fd h =
    sum_below_congr n (used (update fds i fd)) (used fds) (λ k lt. ground arith)

-- A negative entry below `n` is the mark of a free slot.
abbrev pub MarksOnly : (ℕ → ℤ) → ℕ → Type 0
MarksOnly fds n = (k : ℕ) → k < n → ltb_ℤ (fds k) (pos 0) ≡ true → fds k ≡ free_fd

-- No free slot stands at the end.
abbrev pub IsTrimmed : (ℕ → ℤ) → ℕ → Type 0
IsTrimmed fds n = (k : ℕ) → suc k ≡ n → ltb_ℤ (fds k) (pos 0) ≡ false

-- Trimming gives up free slots only, and leaves a slot in use at the end.
pub trim_lem :
    (fds : ℕ → ℤ) (m : ℕ)
    → MarksOnly fds m
    → (trim fds m ≤ m)
      × (live fds (trim fds m) ≡ live fds m)
      × IsTrimmed fds (trim fds m)
      × ((k : ℕ) → trim fds m ≤ k → k < m → fds k ≡ free_fd)
unfolding trim sum_below
trim_lem fds zero marks =
    (omega arith, refl, λ k e. absurd (omega arith), λ k lo hi. absurd (omega arith))
trim_lem fds (suc m) marks = elim (Bool-cases (ltb_ℤ (fds m) (pos 0))) [
  | inl e ↦
      let (shorter, same, fixed, gone) = trim_lem fds m (λ k lt. marks k (omega arith)) in
      let mark : fds m ≡ free_fd = marks m (omega arith) e in
      rw e (
        omega arith,
        rw (same, mark) (omega arith),
        fixed,
        λ k lo hi. elim (ℕ_discrete k m) [ yes p ↦ rw p mark | no d ↦ gone k lo (omega arith) ],
      )
  | inr e ↦ rw e (
    omega arith,
    refl,
    λ k p. subst (λ j. ltb_ℤ (fds j) (pos 0) ≡ false) (let q : m ≡ k = omega arith in q) e,
    λ k lo hi. absurd (omega arith),
  )
]
