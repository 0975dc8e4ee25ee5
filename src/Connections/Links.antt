-- ===== src/Connections/Links.antt =====
-- src/proxying.c: the pointer writes of `detach_connection_info_entry` on a linked list.
use native.Mathlib.Decide.{ℕ_discrete}
use tcp_proxy.Prelude.{
  ℕ, ◌≡◌, ◌≢◌, refl, sym, ap, subst, ◌∙◌, inl, inr, true, Option, none, some, List, [], ◌∷◌, arith,
  Option-cases,
}
use tcp_proxy.Prelude.Table.{update}
use tcp_proxy.Connections.{Node, Memory, set_next, set_prev, unlink}
use tcp_proxy.Connections.Segments.{Outside, Distinct, Segment, Segment-frame}
use tcp_proxy.Connections.Removal.{remove, remove_hit, remove_ne}
use tcp_proxy.Connections.Attached.{apart}

-- The writes of `unlink` to the links, past the entry `w` before `x`.
unfoldable pub relink : (ℕ → Node) → ℕ → ℕ → ℕ → Node
relink node w x =
    let skipped = update node w (record (node w) { next = (node x).next }) in
    elim (skipped x).next [
      | none ↦ skipped
      | some z ↦ update skipped z (record (skipped z) { prev = (skipped x).prev })
    ]

relink_before :
    (node : ℕ → Node) (w x : ℕ)
    → w ≢ x
    → (node x).next ≢ some w
    → relink node w x w ≡ record (node w) { next = (node x).next }
unfolding relink
relink_before node w x ne nn = ground arith

relink_after :
    (node : ℕ → Node) (w x z : ℕ)
    → w ≢ x
    → z ≢ w
    → (node x).next ≡ some z
    → relink node w x z ≡ record (node z) { prev = (node x).prev }
unfolding relink
relink_after node w x z ne zw e = ground arith

relink_other :
    (node : ℕ → Node) (w x z : ℕ)
    → w ≢ x
    → z ≢ w
    → (node x).next ≢ some z
    → relink node w x z ≡ node z
unfolding relink
relink_other node w x z ne zw nn = ground arith

-- The head of a segment is one of its entries.
pub head_inside :
    (node : ℕ → Node) (p h : Option ℕ) (xs : List ℕ) (z : ℕ)
    → Segment node p h xs
    → Outside z xs
    → h ≢ some z
head_inside node p h [] z s o e = cc
head_inside node p h (x ∷ xs) z s o e = o.0 (ground arith)

-- `x` behind `y` in a segment: what `unlink` does there.
pub record Skips (node : ℕ → Node) (p h : Option ℕ) (y x : ℕ) (ys : List ℕ) : Type 0 where
  pub before : ℕ
  pub prev_is : (node x).prev ≡ some before
  pub inside : ¬ Outside before (y ∷ ys)
  pub linked : Segment (relink node before x) p h (y ∷ remove x ys)
  pub outside : (z : ℕ) → Outside z (y ∷ ys) → relink node before x z ≡ node z

-- The entries after `x` hang behind `w`.
reseat :
    (node : ℕ → Node) (w x : ℕ) (zs : List ℕ)
    → (node x).prev ≡ some w
    → Segment node (some x) (node x).next zs
    → x ≢ w
    → Outside w zs
    → Distinct zs
    → Segment (relink node w x) (some w) (node x).next zs
reseat node w x [] prev s ne o d = s
reseat node w x (z ∷ ws) prev (next, back, chained, rest) ne o d =
    let moved = relink_after node w x z (λ e. ne (sym e)) (λ e. o.0 (sym e)) next in
    (
      next,
      ap (λ (n : Node). n.prev) moved ∙ prev,
      ap (λ (n : Node). n.in_chain) moved ∙ chained,
      rw moved (
          Segment-frame node _ (some z) (node z).next ws
            (λ v inside.
              relink_other node w x v (λ e. ne (sym e)) (apart w v ws o.1 inside)
                (λ e. apart z v ws d.0 inside (ground arith)))
            rest),
    )

unlink_behind :
    (node : ℕ → Node) (p h : Option ℕ) (y x : ℕ) (zs : List ℕ)
    → Segment node p h (y ∷ x ∷ zs)
    → Distinct (y ∷ x ∷ zs)
    → Skips node p h y x (x ∷ zs)
unlink_behind node p h y x zs (head, back, chained, (next, prev, chained', rest)) d =
    let passed =
      relink_before node y x d.0.0 (head_inside node (some x) (node x).next zs y rest d.0.1) in
    record {
      before = y;
      prev_is = prev;
      inside = λ o. o.0 refl;
      linked = rw (remove_hit x x zs refl) (
        head,
        ap (λ (n : Node). n.prev) passed ∙ back,
        ap (λ (n : Node). n.in_chain) passed ∙ chained,
        rw passed (reseat node y x zs prev rest (λ e. d.0.0 (sym e)) d.0.1 d.1.1),
      );
      outside = λ z o.
          relink_other node y x z d.0.0 o.0
            (head_inside node (some x) (node x).next zs z rest o.1.1);
    }

pub unlink_Skips :
    (node : ℕ → Node) (p h : Option ℕ) (y x : ℕ) (ys : List ℕ)
    → Segment node p h (y ∷ ys)
    → Distinct (y ∷ ys)
    → ¬ Outside x ys
    → Skips node p h y x ys
unlink_Skips node p h y x [] s d inside = absurd (inside tt)
unlink_Skips node p h y x (x' ∷ zs) s d inside = elim (ℕ_discrete x x') [
  | yes same ↦
      subst (λ v. Skips node p h y v (x' ∷ zs)) (sym same) (unlink_behind node p h y x' zs s d)
  | no other ↦
      let deeper =
        unlink_Skips node (some y) (node y).next x' x zs s.3 d.1 (λ o. inside (other, o)) in
      let same = deeper.outside y d.0 in
      record {
        before = deeper.before;
        prev_is = deeper.prev_is;
        inside = λ o. deeper.inside o.1;
        linked = rw (remove_ne x x' zs other) (
          s.0,
          ap (λ (n : Node). n.prev) same ∙ s.1,
          ap (λ (n : Node). n.in_chain) same ∙ s.2,
          rw same deeper.linked,
        );
        outside = λ z o. deeper.outside z o.1;
      }
]

unfoldable pub clear_prev : (ℕ → Node) → Option ℕ → ℕ → Node
clear_prev node none = node
clear_prev node (some z) = update node z (record (node z) { prev = none })

-- What `unlink` leaves, apart from the links.
pub record Unlinked (m m' : Memory) (h : Option ℕ) (node : ℕ → Node) : Type 0 where
  pub infos_is : m'.infos ≡ h
  pub node_is : m'.node ≡ node
  pub pool_is : m'.pool ≡ m.pool
  pub count_is : m'.number_of_entries ≡ m.number_of_entries
  pub alloc_is : m'.number_of_allocation ≡ m.number_of_allocation

pub unlink_at_head :
    (m : Memory) (x : ℕ) (rest : Option ℕ)
    → m.infos ≡ some x
    → (m.node x).next ≡ rest
    → (m' : Memory) × (unlink m x ≡ some m') × Unlinked m m' rest (clear_prev m.node rest)
unfolding unlink clear_prev
unlink_at_head m x none head next = (
  record m { infos = none },
  ground arith,
  record { infos_is = refl; node_is = refl; pool_is = refl; count_is = refl; alloc_is = refl },
)
unlink_at_head m x (some z) head next = (
  record (set_prev m z none) { infos = some z },
  ground arith,
  record { infos_is = refl; node_is = refl; pool_is = refl; count_is = refl; alloc_is = refl },
)

relink_eq :
    (node : ℕ → Node) (w x : ℕ) (o : Option ℕ)
    → (update node w (record (node w) { next = (node x).next }) x).next ≡ o
    → relink node w x ≡ (
        let skipped = update node w (record (node w) { next = (node x).next }) in
        elim o [
          | none ↦ skipped
          | some z ↦ update skipped z (record (skipped z) { prev = (skipped x).prev })
        ])
unfolding relink
relink_eq node w x o e = λ i.
    let skipped = update node w (record (node w) { next = (node x).next }) in
    elim (e i) [
      | none ↦ skipped
      | some z ↦ update skipped z (record (skipped z) { prev = (skipped x).prev })
    ]

pub unlink_past :
    (m : Memory) (x w : ℕ)
    → m.infos ≢ some x
    → (m.node x).prev ≡ some w
    → (m' : Memory) × (unlink m x ≡ some m') × Unlinked m m' m.infos (relink m.node w x)
unfolding unlink
unlink_past m x w ne prev =
    let skipped = set_next m w (m.node x).next in
    elim (Option-cases (skipped.node x).next) [
      | inl e ↦ (
        skipped,
        ground arith,
        record {
          infos_is = refl;
          node_is = sym (relink_eq m.node w x none e);
          pool_is = refl;
          count_is = refl;
          alloc_is = refl;
        },
      )
      | inr (z, e) ↦ (
        set_prev skipped z (skipped.node x).prev,
        ground arith,
        record {
          infos_is = refl;
          node_is = sym (relink_eq m.node w x (some z) e);
          pool_is = refl;
          count_is = refl;
          alloc_is = refl;
        },
      )
    ]

clear_prev_head :
    (node : ℕ → Node) (z : ℕ) → clear_prev node (some z) z ≡ record (node z) { prev = none }
unfolding clear_prev
clear_prev_head node z = ground arith

pub clear_prev_other : (node : ℕ → Node) (z v : ℕ) → v ≢ z → clear_prev node (some z) v ≡ node v
unfolding clear_prev
clear_prev_other node z v ne = ground arith

pub head_reseat :
    (node : ℕ → Node) (x : ℕ) (h : Option ℕ) (ys : List ℕ)
    → Segment node (some x) h ys
    → Distinct ys
    → Segment (clear_prev node h) none h ys
unfolding clear_prev
head_reseat node x h [] s d = s
head_reseat node x h (z ∷ ws) (head, back, chained, rest) d =
    let moved = clear_prev_head node z in
    subst (λ o. Segment (clear_prev node o) none o (z ∷ ws)) (sym head)
      (
        refl,
        ap (λ (n : Node). n.prev) moved,
        ap (λ (n : Node). n.in_chain) moved ∙ chained,
        rw moved (
            Segment-frame node _ (some z) (node z).next ws
              (λ v inside. clear_prev_other node z v (apart z v ws d.0 inside)) rest),
      )

pub in_chain_inside :
    (node : ℕ → Node) (p h : Option ℕ) (xs : List ℕ) (x : ℕ)
    → Segment node p h xs
    → ¬ Outside x xs
    → (node x).in_chain ≡ true
in_chain_inside node p h [] x s inside = absurd (inside tt)
in_chain_inside node p h (y ∷ ys) x s inside = elim (ℕ_discrete x y) [
  | yes same ↦ rw same s.2
  | no other ↦ in_chain_inside node (some y) (node y).next ys x s.3 (λ o. inside (other, o))
]

pub clear_prev-Outside :
    (node : ℕ → Node) (p h : Option ℕ) (ys : List ℕ) (z : ℕ)
    → Segment node p h ys
    → Outside z ys
    → clear_prev node h z ≡ node z
unfolding clear_prev
clear_prev-Outside node p h [] z s o = rw s
clear_prev-Outside node p h (y ∷ ys) z s o = rw s.0 (ground arith)
