-- ===== src/Connections/Idle.antt =====
-- src/proxying.c: what `clean_idle_connections` makes of the list and the pool, as lists.
use tcp_proxy.Prelude.{
  ℕ, suc, ◌≡◌, ◌≢◌, refl, sym, ap, ◌∙◌, Bool, List, [], ◌∷◌, ◌++◌, if◌then◌else◌,
}
use tcp_proxy.Connections.Segments.{Outside, Distinct}
use tcp_proxy.Connections.Removal.{remove, remove_hit, remove_ne}

-- The connections of a list that are not idle, in its order.
unfoldable pub survivors : (ℕ → Bool) → List ℕ → List ℕ
survivors idle [] = []
survivors idle (z ∷ zs) = if idle z then survivors idle zs else z ∷ survivors idle zs

-- The pool `ps` after the idle connections of a list were freed one by one.
unfoldable pub released : (ℕ → Bool) → List ℕ → List ℕ → List ℕ
released idle [] ps = ps
released idle (z ∷ zs) ps = if idle z then released idle zs (z ∷ ps) else released idle zs ps

unfoldable pub count_idle : (ℕ → Bool) → List ℕ → ℕ
count_idle idle [] = 0
count_idle idle (z ∷ zs) = if idle z then suc (count_idle idle zs) else count_idle idle zs

Outside-prefix : (k z : ℕ) (ks zs : List ℕ) → Outside k (ks ++ z ∷ zs) → k ≢ z
Outside-prefix k z [] zs o = o.0
Outside-prefix k z (y ∷ ks) zs o = Outside-prefix k z ks zs o.1

pub inside_suffix : (z : ℕ) (ks zs : List ℕ) → ¬ Outside z (ks ++ z ∷ zs)
inside_suffix z ks zs o = Outside-prefix z z ks zs o refl

pub remove-prefix :
    (z : ℕ) (ks zs : List ℕ) → Distinct (ks ++ z ∷ zs) → remove z (ks ++ z ∷ zs) ≡ ks ++ zs
remove-prefix z [] zs d = remove_hit z z zs refl
remove-prefix z (k ∷ ks) zs d =
    remove_ne z k (ks ++ z ∷ zs) (λ e. Outside-prefix k z ks zs d.0 (sym e))
    ∙ ap (λ ys. k ∷ ys) (remove-prefix z ks zs d.1)

pub append_one : (z : ℕ) (ks zs : List ℕ) → (ks ++ z ∷ []) ++ zs ≡ ks ++ z ∷ zs
append_one z [] zs = refl
append_one z (k ∷ ks) zs = ap (λ ys. k ∷ ys) (append_one z ks zs)

pub Outside-suffix : (z : ℕ) (ks zs : List ℕ) → Distinct (ks ++ z ∷ zs) → Outside z zs
Outside-suffix z [] zs d = d.0
Outside-suffix z (k ∷ ks) zs d = Outside-suffix z ks zs d.1
