-- ===== src/Connections/Segments.antt =====
-- src/proxying.c: the shape of a doubly linked list in memory.
use mathlib.Core.Path.{subst₃}
use tcp_proxy.Prelude.{ℕ, ◌≡◌, ◌≢◌, refl, true, Option, none, some, List, [], ◌∷◌}
use tcp_proxy.Connections.{Node}

-- `x` is not in the list.
abbrev pub Outside : ℕ → List ℕ → Type 0
Outside x [] = Unit {0}
Outside x (y ∷ ys) = (x ≢ y) × Outside x ys

abbrev pub Distinct : List ℕ → Type 0
Distinct [] = Unit {0}
Distinct (x ∷ xs) = Outside x xs × Distinct xs

-- From `h` on the entries `xs` are linked, the first one back to `p`.
abbrev pub Segment : (ℕ → Node) → Option ℕ → Option ℕ → List ℕ → Type 0
Segment node p h [] = h ≡ none
Segment node p h (x ∷ xs) =
    (h ≡ some x)
    × ((node x).prev ≡ p)
    × ((node x).in_chain ≡ true)
    × Segment node (some x) (node x).next xs

-- Entries outside of a segment may change.
pub Segment-frame :
    (node node' : ℕ → Node) (p h : Option ℕ) (xs : List ℕ)
    → ((y : ℕ) → ¬ Outside y xs → node' y ≡ node y)
    → Segment node p h xs
    → Segment node' p h xs
Segment-frame node node' p h [] same s = s
Segment-frame node node' p h (x ∷ xs) same (head, back, chained, rest) =
    let e : node' x ≡ node x = same x (λ o. o.0 refl) in
    rw e (
      head,
      back,
      chained,
      Segment-frame node node' (some x) (node x).next xs (λ y inside. same y (λ o. inside o.1))
          rest,
    )

pub Segment-cast :
    {node node' : ℕ → Node} {h h' : Option ℕ} {xs xs' : List ℕ} (p : Option ℕ)
    → node ≡ node'
    → h ≡ h'
    → xs ≡ xs'
    → Segment node p h xs
    → Segment node' p h' xs'
Segment-cast p e f g s = subst₃ (λ n o l. Segment n p o l) e f g s
