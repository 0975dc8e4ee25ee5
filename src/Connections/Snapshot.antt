-- ===== src/Connections/Snapshot.antt =====
-- src/proxying.c: the entries that `clean_idle_connections` copies under the mutex of the list.
use tcp_proxy.Prelude.{ℕ, zero, suc, ◌≡◌, refl, ap, ◌∙◌, Option, none, some, List, [], ◌∷◌, length}
use tcp_proxy.Prelude.Int.{pos_part}
use tcp_proxy.Connections.{Node, Memory}
use tcp_proxy.Connections.Segments.{Segment}
use tcp_proxy.Connections.Attached.{Attached}

-- `for (ptr = infos, n = 0; ptr != NULL && n < number_of_entries; …)` with the rounds left.
unfoldable pub walk : (ℕ → Node) → ℕ → Option ℕ → List ℕ
walk node zero ptr = []
walk node (suc n) none = []
walk node (suc n) (some x) = x ∷ walk node n (node x).next

-- The contents of `expiring_holder`.
unfoldable pub snapshot : Memory → List ℕ
unfolding walk
snapshot m = walk m.node (pos_part m.number_of_entries) m.infos

walk-Segment :
    (node : ℕ → Node) (p h : Option ℕ) (xs : List ℕ)
    → Segment node p h xs
    → walk node (length xs) h ≡ xs
unfolding walk
walk-Segment node p h [] s = refl
walk-Segment node p h (x ∷ xs) s =
    rw s.0 (ap (λ ys. x ∷ ys) (walk-Segment node (some x) (node x).next xs s.3))

-- The snapshot is the list.
pub snapshot-Attached : (m : Memory) (xs : List ℕ) → Attached m xs → snapshot m ≡ xs
unfolding snapshot
snapshot-Attached m xs a =
    ap (λ n. walk m.node (pos_part n) m.infos) a.counted
    ∙ walk-Segment m.node none m.infos xs a.linked
