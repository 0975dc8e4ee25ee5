-- ===== src/Context/Dependencies.antt =====
-- src/context.c: the dependencies of the components that a wiring starts.
use native.Mathlib.Decide.{ℕ_discrete}
use tcp_proxy.Prelude.{
  ℕ, ◌≡◌, ◌≢◌, refl, sym, ap, subst, ◌∙◌, ◌⊎◌, inl, inr, Bool, true, false, Option, none, some,
  List, [], ◌∷◌, arith, if◌then◌else◌, Option-cases,
}
use tcp_proxy.Context.Beans.{ContextData, Registry, satisfied, check_entry, start, round, wiring}
use tcp_proxy.Context.Starts.{round_cases, wiring-round}

-- The entry of a name, if the name is registered, is initialized.
abbrev IsOn : Registry → Option ℕ → Type 0
IsOn t none = Unit
IsOn t (some j) = t.initialized j ≡ true

abbrev AllOn : Registry → List (List ℕ) → Type 0
AllOn t [] = Unit
AllOn t (item ∷ items) = IsOn t (t.hash_map item) × AllOn t items

-- Every registered dependency of a context is initialized.
abbrev pub DependenciesOn : Registry → Option (List (List ℕ)) → Type 0
DependenciesOn t none = Unit
DependenciesOn t (some items) = AllOn t items

-- An entry of the list, with its registered dependencies initialized.
abbrev pub IsBacked : Registry → ℕ → List (ℕ × ContextData) → Type 0
IsBacked t i [] = ⊥
IsBacked t i ((j, c) ∷ ptr) = ((j ≡ i) × DependenciesOn t c.depends_on) ⊎ IsBacked t i ptr

-- Nothing is forgotten.
abbrev Grown : Registry → Registry → Type 0
Grown s t = (s.hash_map ≡ t.hash_map) × ((k : ℕ) → s.initialized k ≡ true → t.initialized k ≡ true)

Grown-trans : (s t u : Registry) → Grown s t → Grown t u → Grown s u
Grown-trans s t u (m, g) (m', g') = (m ∙ m', λ k on. g' k (g k on))

satisfied_unregistered :
    (s : Registry) (item : List ℕ) (items : List (List ℕ))
    → s.hash_map item ≡ none
    → satisfied s (item ∷ items) ≡ satisfied s items
unfolding satisfied
satisfied_unregistered s item items e = rw (satisfied, e) refl

satisfied_registered :
    (s : Registry) (item : List ℕ) (items : List (List ℕ)) (j : ℕ)
    → s.hash_map item ≡ some j
    → satisfied s (item ∷ items) ≡ (if s.initialized j then satisfied s items else false)
unfolding satisfied
satisfied_registered s item items j e = rw (satisfied, e) refl

both_true : (a b : Bool) → (if a then b else false) ≡ true → (a ≡ true) × (b ≡ true)
both_true true b e = (refl, e)
both_true false b e = absurd (ground (arith, e))

satisfied_mono :
    (s t : Registry) (items : List (List ℕ))
    → Grown s t
    → satisfied s items ≡ true
    → satisfied t items ≡ true
unfolding satisfied
satisfied_mono s t [] g e = refl
satisfied_mono s t (item ∷ items) g e =
    let same : t.hash_map item ≡ s.hash_map item = sym (ap (λ m. m item) g.0) in
    elim (Option-cases (s.hash_map item)) [
      | inl absent ↦
          satisfied_unregistered t item items (same ∙ absent)
          ∙ satisfied_mono s t items g (sym (satisfied_unregistered s item items absent) ∙ e)
      | inr (j, there) ↦
          let (on, rest) =
            both_true (s.initialized j) (satisfied s items)
              (sym (satisfied_registered s item items j there) ∙ e) in
          satisfied_registered t item items j (same ∙ there)
          ∙ ap (λ b. if b then satisfied t items else false) (g.1 j on)
          ∙ satisfied_mono s t items g rest
    ]

check_entry_mono :
    (s t : Registry) (c : ContextData) → Grown s t → check_entry s c ≡ true → check_entry t c ≡ true
unfolding check_entry
check_entry_mono s t c g e = elim (Option-cases c.depends_on) [
  | inl absent ↦ rw (check_entry, absent) refl
  | inr (items, there) ↦
      let path : (u : Registry) → check_entry u c ≡ satisfied u items =
        λ u. rw (check_entry, there) refl in
      path t ∙ satisfied_mono s t items g (sym (path s) ∙ e)
]

satisfied-AllOn : (t : Registry) (items : List (List ℕ)) → satisfied t items ≡ true → AllOn t items
unfolding satisfied
satisfied-AllOn t [] e = tt
satisfied-AllOn t (item ∷ items) e = elim (Option-cases (t.hash_map item)) [
  | inl absent ↦ (
    subst (IsOn t) (sym absent) tt,
    satisfied-AllOn t items (sym (satisfied_unregistered t item items absent) ∙ e),
  )
  | inr (j, there) ↦
      let (on, rest) =
        both_true (t.initialized j) (satisfied t items)
          (sym (satisfied_registered t item items j there) ∙ e) in
      (subst (IsOn t) (sym there) on, satisfied-AllOn t items rest)
]

check_entry-DependenciesOn :
    (t : Registry) (c : ContextData) → check_entry t c ≡ true → DependenciesOn t c.depends_on
unfolding check_entry
check_entry-DependenciesOn t c e = elim (Option-cases c.depends_on) [
  | inl absent ↦ subst (DependenciesOn t) (sym absent) tt
  | inr (items, there) ↦
      let path : check_entry t c ≡ satisfied t items = rw (check_entry, there) refl in
      subst (DependenciesOn t) (sym there) (satisfied-AllOn t items (sym path ∙ e))
]

start-Grown : (i : ℕ) (c : ContextData) (s : Registry) → Grown s (start i c s)
unfolding start
start-Grown i c s = (refl, λ k on. ground (arith, on))

round-Grown : (ptr : List (ℕ × ContextData)) (s : Registry) → Grown s (round ptr s).0
unfolding round
round-Grown [] s = (refl, λ k on. on)
round-Grown ((i, c) ∷ ptr) s =
    round_cases i c ptr s (Grown s) (λ on. round-Grown ptr s)
      (λ off ready.
        Grown-trans s (start i c s) (round ptr (start i c s)).0 (start-Grown i c s)
          (round-Grown ptr (start i c s)))
      (λ off waiting. round-Grown ptr s)

-- An entry that a round initializes is in its part of the list, with its dependencies satisfied.
abbrev Backs : List (ℕ × ContextData) → Registry → Registry → Type 0
Backs ptr s t = (k : ℕ) → s.initialized k ≡ false → t.initialized k ≡ true → IsBacked t k ptr

start-other :
    (i k : ℕ) (c : ContextData) (s : Registry)
    → s.initialized k ≡ false
    → i ≢ k
    → (start i c s).initialized k ≡ false
unfolding start
start-other i k c s off ne = ground (arith, off, ne)

round-Backs : (ptr : List (ℕ × ContextData)) (s : Registry) → Backs ptr s (round ptr s).0
unfolding round
round-Backs [] s = λ k off on. absurd (ground (arith, off, on))
round-Backs ((i, c) ∷ ptr) s =
    round_cases i c ptr s (Backs ((i, c) ∷ ptr) s)
      (λ on k off after. inr (round-Backs ptr s k off after))
      (λ idle ready k off after.
        let t = (round ptr (start i c s)).0 in
        let g = Grown-trans s (start i c s) t (start-Grown i c s) (round-Grown ptr (start i c s)) in
        elim (ℕ_discrete i k) [
          | yes e ↦ inl (e, check_entry-DependenciesOn t c (check_entry_mono s t c g ready))
          | no ne ↦ inr (round-Backs ptr (start i c s) k (start-other i k c s off ne) after)
        ])
      (λ idle waiting k off after. inr (round-Backs ptr s k off after))

-- An entry that was not initialized before `wiring` and is so after it is in the list with a context
-- each of whose dependencies, if it is registered then, has an initialized entry after it.
pub wiring-IsBacked :
    (s : Registry) (k : ℕ)
    → s.initialized k ≡ false
    → (wiring s).0.initialized k ≡ true
    → IsBacked (wiring s).0 k s.entries
wiring-IsBacked s = subst (Backs s.entries s) (sym (wiring-round s)) (round-Backs s.entries s)
