-- ===== src/Mysql/Params.antt =====
-- src/db_mysql.c: the bindings of the parameters after the setters were called.
use native.Mathlib.Decide.{ℕ_discrete}
use tcp_proxy.Prelude.{
  ℕ, zero, suc, ◌+◌, ◌-◌, ◌≤◌, ◌<◌, ◌≡◌, ◌≢◌, refl, sym, ap, subst, ◌∙◌, ◌⊎◌, inl, inr, true, false,
  Option, none, some, List, [], ◌∷◌, arith, ◌==◌, if◌then◌else◌, length, get_elem?, Option-cases,
}
use tcp_proxy.Prelude.Int.{ℤ, pos}
use tcp_proxy.Prelude.Table.{update}
use tcp_proxy.Mysql.{
  mysql_type_null, mysql_type_long, mysql_type_string, no_buffer, own_number, own_string, Bind,
  Stmt, in_range, set_bind, set_int, set_string, number_bind, string_bind, cleared_bind,
  clear_below, clear_parameters,
}

-- What an operation sends.
pub data Sent : Type 0 where
  sent_int : ℤ → Sent
  sent_string : List ℕ → Sent

-- The fields of a binding for what was sent: its type, where its buffer points, and the value there,
-- with the length of a text. Without a value it is a NULL that points nowhere.
abbrev pub IsBound : Option Sent → Bind → Type 0
IsBound none b = (b.buffer_type ≡ mysql_type_null) × (b.buffer ≡ no_buffer) × (b.buffer_length ≡ 0)
IsBound (some (sent_int v)) b =
    (b.buffer_type ≡ mysql_type_long)
    × (b.buffer ≡ own_number)
    × (b.number ≡ v)
    × (b.is_unsigned ≡ false)
    × (b.is_null ≡ false)
IsBound (some (sent_string t)) b =
    (b.buffer_type ≡ mysql_type_string)
    × (b.buffer ≡ own_string)
    × (b.str_data ≡ some t)
    × (b.with_length ≡ true)
    × (b.length ≡ length t)
    × (b.buffer_length ≡ length t)
    × (b.is_null ≡ false)

abbrev pub set_param : ℤ → Sent → Stmt → Stmt
set_param p (sent_int v) = set_int p v
set_param p (sent_string t) = set_string p t

-- The setters are called for one parameter after the other, from index `i + 1` on.
abbrev pub set_params : ℕ → List Sent → Stmt → Stmt
set_params i [] stmt = stmt
set_params i (x ∷ xs) stmt = set_params (suc i) xs (set_param (pos (suc i)) x stmt)

still : (i k n : ℕ) → (k < i) ⊎ (i + suc n ≤ k) → (k < suc i) ⊎ (suc i + n ≤ k)
still i k n (inl lt) = inl (omega (arith, lt))
still i k n (inr le) = inr (omega (arith, le))

set_bind-in :
    (f : Bind → Bind) (i : ℕ) (stmt : Stmt)
    → i < stmt.param_count
    → set_bind f (pos (suc i)) stmt
      ≡ record stmt { param_bind = update stmt.param_bind i (f (stmt.param_bind i)) }
unfolding set_bind in_range
set_bind-in f i stmt lt =
    let inside : in_range (pos (suc i)) stmt.param_count ≡ true = ground (arith, lt) in
    let at : suc i - 1 ≡ i = omega arith in
    ap
      (λ b.
        if b
        then record stmt {
          param_bind = update stmt.param_bind (suc i - 1) (f (stmt.param_bind (suc i - 1)));
        }
        else stmt)
      inside
    ∙ ap (λ k. record stmt { param_bind = update stmt.param_bind k (f (stmt.param_bind k)) }) at

-- The statement after a parameter that is in range.
abbrev bind_of : Sent → Bind → Bind
bind_of (sent_int v) = number_bind mysql_type_long false v
bind_of (sent_string t) = string_bind t

set_param-in :
    (i : ℕ) (x : Sent) (stmt : Stmt)
    → i < stmt.param_count
    → set_param (pos (suc i)) x stmt
      ≡ record stmt { param_bind = update stmt.param_bind i (bind_of x (stmt.param_bind i)) }
unfolding set_int set_string
set_param-in i (sent_int v) stmt lt = set_bind-in (number_bind mysql_type_long false v) i stmt lt
set_param-in i (sent_string t) stmt lt = set_bind-in (string_bind t) i stmt lt

bind_of-IsBound : (x : Sent) (b : Bind) → IsBound (some x) (bind_of x b)
unfolding number_bind string_bind
bind_of-IsBound (sent_int v) b = (refl, refl, refl, refl, refl)
bind_of-IsBound (sent_string t) b = (refl, refl, refl, refl, refl, refl, refl)

update-here : (f : ℕ → Bind) (i : ℕ) (b : Bind) → update f i b i ≡ b
update-here f i b = ground arith

update-other : (f : ℕ → Bind) (i k : ℕ) (b : Bind) → k ≢ i → update f i b k ≡ f k
update-other f i k b ne = ground (arith, ne)

-- Parameters outside those that are set keep their binding.
set_params-other :
    (i k : ℕ) (xs : List Sent) (stmt : Stmt)
    → i + length xs ≤ stmt.param_count
    → (k < i) ⊎ (i + length xs ≤ k)
    → (set_params i xs stmt).param_bind k ≡ stmt.param_bind k
set_params-other i k [] stmt fits out = refl
set_params-other i k (x ∷ xs) stmt fits out =
    let new : Stmt = record stmt {
      param_bind = update stmt.param_bind i (bind_of x (stmt.param_bind i));
    } in
    ap (λ s. (set_params (suc i) xs s).param_bind k) (set_param-in i x stmt (omega (arith, fits)))
    ∙ set_params-other (suc i) k xs new (omega (arith, fits)) (still i k (length xs) out)
    ∙ update-other stmt.param_bind i k (bind_of x (stmt.param_bind i)) (ground (arith, out))

set_params-IsBound :
    (i j : ℕ) (xs : List Sent) (x : Sent) (stmt : Stmt)
    → i + length xs ≤ stmt.param_count
    → get_elem? xs j ≡ some x
    → IsBound (some x) ((set_params i xs stmt).param_bind (i + j))
set_params-IsBound i j [] x stmt fits e = absurd (ground (arith, e))
set_params-IsBound i zero (y ∷ xs) x stmt fits e =
    let new : Stmt = record stmt {
      param_bind = update stmt.param_bind i (bind_of y (stmt.param_bind i));
    } in
    let at : i + 0 ≡ i = omega arith in
    let same : y ≡ x = ground (arith, e) in
    let binding : (set_params i (y ∷ xs) stmt).param_bind (i + 0) ≡ bind_of x (stmt.param_bind i) =
      ap (λ k. (set_params (suc i) xs (set_param (pos (suc i)) y stmt)).param_bind k) at
      ∙ ap (λ s. (set_params (suc i) xs s).param_bind i)
          (set_param-in i y stmt (omega (arith, fits)))
      ∙ set_params-other (suc i) i xs new (omega (arith, fits)) (inl (omega arith))
      ∙ update-here stmt.param_bind i (bind_of y (stmt.param_bind i))
      ∙ ap (λ z. bind_of z (stmt.param_bind i)) same in
    subst (IsBound (some x)) (sym binding) (bind_of-IsBound x (stmt.param_bind i))
set_params-IsBound i (suc j) (y ∷ xs) x stmt fits e =
    let new : Stmt = record stmt {
      param_bind = update stmt.param_bind i (bind_of y (stmt.param_bind i));
    } in
    let at : i + suc j ≡ suc i + j = omega arith in
    let path : (set_params i (y ∷ xs) stmt).param_bind (i + suc j)
        ≡ (set_params (suc i) xs new).param_bind (suc i + j) =
      ap (λ k. (set_params (suc i) xs (set_param (pos (suc i)) y stmt)).param_bind k) at
      ∙ ap (λ s. (set_params (suc i) xs s).param_bind (suc i + j))
          (set_param-in i y stmt (omega (arith, fits))) in
    subst (IsBound (some x)) (sym path)
      (set_params-IsBound (suc i) j xs x new (omega (arith, fits)) e)

clear_below-cleared :
    (n k : ℕ) (binds : ℕ → Bind) → k < n → (b : Bind) × (clear_below n binds k ≡ cleared_bind b)
unfolding clear_below
clear_below-cleared zero k binds lt = absurd (omega (arith, lt))
clear_below-cleared (suc n) k binds lt = elim (ℕ_discrete k n) [
  | yes e ↦
      let here : (k == n) ≡ true = ground (arith, e) in
      (binds n, ap (λ b. if b then cleared_bind (binds n) else clear_below n binds k) here)
  | no ne ↦
      let (b, before) = clear_below-cleared n k binds (omega (arith, lt, ne)) in
      (b, update-other (clear_below n binds) n k (cleared_bind (binds n)) ne ∙ before)
]

cleared_bind-IsBound : (b : Bind) → IsBound none (cleared_bind b)
unfolding cleared_bind
cleared_bind-IsBound b = (refl, refl, refl)

get_elem?-none : (xs : List Sent) (k : ℕ) → get_elem? xs k ≡ none → length xs ≤ k
get_elem?-none [] k e = omega arith
get_elem?-none (x ∷ xs) zero e = absurd (ground (arith, e))
get_elem?-none (x ∷ xs) (suc k) e = omega (arith, get_elem?-none xs k e)

-- If the parameters of a statement are cleared and no more values are then set, one after the other,
-- than it has parameters, the binding of each parameter has the type, the buffer and the value of
-- the number or text that was set for it, with the length of a text, and is not marked as NULL;
-- where none was set, it has the type of NULL and no buffer.
pub clear_parameters-IsBound :
    (stmt : Stmt) (xs : List Sent) (k : ℕ)
    → length xs ≤ stmt.param_count
    → k < stmt.param_count
    → IsBound (get_elem? xs k) ((set_params 0 xs (clear_parameters stmt)).param_bind k)
unfolding clear_parameters
clear_parameters-IsBound stmt xs k fits lt =
    let cleared = clear_parameters stmt in
    let room : 0 + length xs ≤ stmt.param_count = omega (arith, fits) in
    elim (Option-cases (get_elem? xs k)) [
      | inl e ↦
          let beyond : 0 + length xs ≤ k = omega (arith, get_elem?-none xs k e) in
          let (b, before) = clear_below-cleared stmt.param_count k stmt.param_bind lt in
          let binding : (set_params 0 xs cleared).param_bind k ≡ cleared_bind b =
            set_params-other 0 k xs cleared room (inr beyond) ∙ before in
          subst (λ o. IsBound o ((set_params 0 xs cleared).param_bind k)) (sym e)
            (subst (IsBound none) (sym binding) (cleared_bind-IsBound b))
      | inr (x, e) ↦
          let at : 0 + k ≡ k = omega arith in
          subst (λ o. IsBound o ((set_params 0 xs cleared).param_bind k)) (sym e)
            (subst (λ j. IsBound (some x) ((set_params 0 xs cleared).param_bind j)) at
              (set_params-IsBound 0 k xs x cleared room e))
    ]
