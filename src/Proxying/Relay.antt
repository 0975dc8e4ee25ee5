-- ===== src/Proxying/Relay.antt =====
-- src/proxying.c: the loop of `write` in `do_proxying`.
use tcp_proxy.Prelude.{
  ℕ, zero, suc, ◌+◌, ◌-◌, ◌≤◌, ◌<◌, ◌≡◌, refl, sym, ap, ◌∙◌, inl, inr, Bool, true, false, some,
  List, [], ◌∷◌, ◌++◌, arith, length, take, drop, take-append-drop, Bool-cases,
}
use tcp_proxy.Prelude.Int.{ℤ, pos, ◌≤ℤ◌, ltb_ℤ, pos_part}
use tcp_proxy.Proxying.{Written, write_from, size_sub}

drop_nil : (n : ℕ) → drop {A = ℕ} n [] ≡ []
drop_nil zero = refl
drop_nil (suc n) = refl

the_sum : (t n : ℕ) → suc (t + n) ≡ suc t + n
the_sum t n = omega arith

drop-drop : (t n : ℕ) (xs : List ℕ) → drop n (drop t xs) ≡ drop (t + n) xs
drop-drop zero n xs = ap (λ k. drop k xs) (omega arith)
drop-drop (suc t) n [] = drop_nil n ∙ sym (drop_nil (suc t + n))
drop-drop (suc t) n (x ∷ xs) = drop-drop t n xs ∙ ap (λ k. drop k (x ∷ xs)) (the_sum t n)

append_assoc : (xs ys zs : List ℕ) → (xs ++ ys) ++ zs ≡ xs ++ (ys ++ zs)
append_assoc [] ys zs = refl
append_assoc (x ∷ xs) ys zs = ap (λ w. x ∷ w) (append_assoc xs ys zs)

-- A call of `write` fails for bytes that it is offered.
abbrev pub Refuses : (ℕ → ℕ → ℤ) → Type 0
Refuses write = (k n : ℕ) × (0 < n) × (write k n ≤ℤ pos 0)

-- What a run of the loop from `total` leaves: the bytes taken continue the buffer with no gap, and
-- the loop gives up exactly when bytes are left, which takes a call that fails.
pub record Relayed (write : ℕ → ℕ → ℤ) (buffer : List ℕ) (total : ℕ) (w : Written) : Type 0 where
  pub in_order : w.delivered ++ drop w.write_total buffer ≡ drop total buffer
  pub forward : total ≤ w.write_total
  pub bounded : w.write_total ≤ length buffer
  pub complete : w.close_connection ≡ false → w.write_total ≡ length buffer
  pub cut : w.close_connection ≡ true → (w.write_total < length buffer) × Refuses write

stopped :
    (write : ℕ → ℕ → ℤ) (buffer : List ℕ) (total : ℕ) (cut : Bool)
    → total ≤ length buffer
    → (cut ≡ false → total ≡ length buffer)
    → (cut ≡ true → (total < length buffer) × Refuses write)
    → Relayed write buffer total
        (record { delivered = []; write_total = total; close_connection = cut })
stopped write buffer total cut le full short = record {
  in_order = refl;
  forward = omega arith;
  bounded = le;
  complete = full;
  cut = short;
}

took :
    (write : ℕ → ℕ → ℤ) (buffer : List ℕ) (total n : ℕ) (w : Written)
    → Relayed write buffer (total + n) w
    → Relayed write buffer total
        (record w { delivered = take n (drop total buffer) ++ w.delivered })
took write buffer total n w r = record {
  in_order =
      append_assoc (take n (drop total buffer)) w.delivered (drop w.write_total buffer)
      ∙ ap (λ ys. take n (drop total buffer) ++ ys) (r.in_order ∙ sym (drop-drop total n buffer))
      ∙ take-append-drop n (drop total buffer);
  forward = omega (arith, r.forward);
  bounded = r.bounded;
  complete = r.complete;
  cut = r.cut;
}

write_from-done :
    (write : ℕ → ℕ → ℤ) (fuel k total : ℕ) (buffer : List ℕ)
    → write_from write fuel k buffer total 0
      ≡ some (record { delivered = []; write_total = total; close_connection = false })
unfolding write_from
write_from-done write zero k total buffer = refl
write_from-done write (suc fuel) k total buffer = refl

write_from-failed :
    (write : ℕ → ℕ → ℤ) (fuel k total left : ℕ) (buffer : List ℕ)
    → 0 < left
    → ltb_ℤ (pos 0) (write k left) ≡ false
    → write_from write (suc fuel) k buffer total left
      ≡ some (record { delivered = []; write_total = total; close_connection = true })
unfolding write_from
write_from-failed write fuel k total left buffer more e = ground arith

write_from-took :
    (write : ℕ → ℕ → ℤ) (fuel k total left n : ℕ) (buffer : List ℕ) (w : Written)
    → 0 < n
    → n ≤ left
    → write k left ≡ pos n
    → write_from write fuel (suc k) buffer (total + n) (left - n) ≡ some w
    → write_from write (suc fuel) k buffer total left
      ≡ some (record w { delivered = take n (drop total buffer) ++ w.delivered })
unfolding write_from size_sub
write_from-took write fuel k total left n buffer w more fit e rest = ground (arith, rest)

-- `write` takes at most the bytes that it is offered, as it is documented.
abbrev pub Fits : (ℕ → ℕ → ℤ) → Type 0
Fits write = (k n : ℕ) → write k n ≤ℤ pos n

-- If `write` never takes more bytes than it is offered, the loop of `write` with at least as much
-- fuel as bytes left returns: the bytes taken continue the buffer with no gap, the total stays
-- within the buffer, it is all of the buffer unless the loop gives up, and the loop gives up only
-- when bytes are left and a call of `write` has failed.
pub write_from-Relayed :
    (write : ℕ → ℕ → ℤ) (fuel k total left : ℕ) (buffer : List ℕ)
    → Fits write
    → left ≤ fuel
    → total + left ≡ length buffer
    → (w : Written) × (write_from write fuel k buffer total left ≡ some w)
      × Relayed write buffer total w
write_from-Relayed write fuel k total zero buffer fits enough all = (
  _,
  write_from-done write fuel k total buffer,
  stopped write buffer total false (omega arith) (λ _. omega arith)
      (λ e. absurd (ground (arith, e))),
)
write_from-Relayed write zero k total (suc left) buffer fits enough all = absurd (omega arith)
write_from-Relayed write (suc fuel) k total (suc left) buffer fits enough all =
    elim (Bool-cases (ltb_ℤ (pos 0) (write k (suc left)))) [
      | inr e ↦ (
        _,
        write_from-failed write fuel k total (suc left) buffer (omega arith) e,
        stopped write buffer total true (omega arith) (λ e. absurd (ground (arith, e)))
            (λ _. (omega arith, (k, suc left, omega arith, ground (arith, e)))),
      )
      | inl e ↦
          let n = pos_part (write k (suc left)) in
          let fit : n ≤ suc left = ground (arith, fits k (suc left)) in
          let more : 0 < n = ground (arith, e) in
          let is_n : write k (suc left) ≡ pos n = ground (arith, e) in
          let (w, run, r) =
            write_from-Relayed write fuel (suc k) (total + n) (suc left - n) buffer fits
              (omega arith) (omega arith) in
          (
            record w { delivered = take n (drop total buffer) ++ w.delivered },
            write_from-took write fuel k total (suc left) n buffer w more fit is_n run,
            took write buffer total n w r,
          )
    ]
