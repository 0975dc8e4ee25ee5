-- ===== src/Context/Variables.antt =====
-- src/context.c: a variable is set once.
use tcp_proxy.Prelude.{
  ℕ, ◌≡◌, ◌≢◌, refl, ap, ◌∙◌, inl, inr, Bool, true, false, Option, none, some, List, arith,
  Option-cases,
}
use tcp_proxy.HashMap.{HashMap, put_if_absent}
use tcp_proxy.HashMap.Lookup.{
  IsAscii, Holds, assign, assign_self, get_by_key-Holds, put_if_absent-Holds,
}
use tcp_proxy.Context.{set_pointer, get_pointer}

module _ {ℓ} {V : Type ℓ} where
  set_pointer-new :
      (m m' : HashMap V) (name : List ℕ) (value : V)
      → put_if_absent m true name value ≡ some (m', none)
      → set_pointer m true name value ≡ some (m', true)
  unfolding set_pointer
  set_pointer-new m m' name value e = ground (arith, e)

  set_pointer-old :
      (m m' : HashMap V) (name : List ℕ) (value old : V)
      → put_if_absent m true name value ≡ some (m', some old)
      → set_pointer m true name value ≡ some (m', false)
  unfolding set_pointer
  set_pointer-old m m' name value old e = ground (arith, e)

  -- On a map of variables with a bucket for every ASCII name, `set_pointer` of an ASCII name with
  -- memory for a new entry returns with no fault: it answers true for a name without a value, and
  -- `get_pointer` then returns the new value; it answers false for a name with a value, and changes
  -- nothing.
  pub get_pointer-set_pointer :
      (m : HashMap V) (variables : List ℕ → Option V) (name : List ℕ) (value : V)
      → Holds m variables
      → IsAscii name
      → (m' : HashMap V) × (answer : Bool) × (set_pointer m true name value ≡ some (m', answer))
        × (variables name ≡ none → (answer ≡ true) × (get_pointer m' name ≡ some (some value)))
        × (variables name ≢ none → (answer ≡ false) × (m' ≡ m))
  unfolding get_pointer
  get_pointer-set_pointer m variables name value h ascii =
      let (m', run, new, old) = put_if_absent-Holds m variables name value h ascii in
      elim (Option-cases (variables name)) [
        | inl e ↦ (
          m',
          true,
          set_pointer-new m m' name value (run ∙ ap (λ o. some (m', o)) e),
          (λ _. (
            refl,
            get_by_key-Holds m' (assign variables name value) name (new e) ascii
                ∙ ap some (assign_self variables name value),
          )),
          (λ ne. absurd (ne e)),
        )
        | inr (v, e) ↦ (
          m',
          false,
          set_pointer-old m m' name value v (run ∙ ap (λ o. some (m', o)) e),
          (λ n. absurd (ground (arith, n, e))),
          (λ ne. (refl, old ne)),
        )
      ]
