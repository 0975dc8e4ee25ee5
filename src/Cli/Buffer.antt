-- ===== src/Cli/Buffer.antt =====
-- src/cmdlintf.c: the bounds of the buffer of the answers.
use mathlib.Core.List.{append-nil, append_assoc}
use tcp_proxy.Prelude.{
  ℕ, ◌+◌, ◌≤◌, ◌<◌, ◌≡◌, sym, ap, subst, ◌⊎◌, ◌∙◌, inl, inr, List, [], ◌∷◌, ◌++◌, arith, length,
  length-append,
}
use tcp_proxy.Cli.{PrintBuffer, bplen, bprint}

-- Texts of less than 80 characters are printed one after the other.
pub data Prints : PrintBuffer → List (List ℕ) → PrintBuffer → Type 0 where
  done : {b : PrintBuffer} → Prints b [] b
  print :
      {b c : PrintBuffer} {text : List ℕ} {texts : List (List ℕ)}
      → length text < 80
      → Prints (bprint b text).0 texts c
      → Prints b (text ∷ texts) c

abbrev pub joined : List (List ℕ) → List ℕ
joined [] = []
joined (text ∷ texts) = text ++ joined texts

bprint_full : (b : PrintBuffer) (text : List ℕ) → b.bp_size < bplen b + 80 → (bprint b text).0 ≡ b
unfolding bprint
bprint_full b text h = ground arith

bprint_room :
    (b : PrintBuffer) (text : List ℕ)
    → bplen b + 80 ≤ b.bp_size
    → (bprint b text).0 ≡ record b { bp_buffer = b.bp_buffer ++ text }
unfolding bprint
bprint_room b text h = ground arith

room-cases : (b : PrintBuffer) → (b.bp_size < bplen b + 80) ⊎ (bplen b + 80 ≤ b.bp_size)
room-cases b = ground arith

abbrev pub InBounds : PrintBuffer → Type 0
InBounds b = bplen b < b.bp_size

bprint-InBounds :
    (b : PrintBuffer) (text : List ℕ) → length text < 80 → InBounds b → InBounds (bprint b text).0
unfolding bprint bplen
bprint-InBounds b text short h = ground (arith, length-append b.bp_buffer text)

-- A full buffer stays full.
Prints-full :
    {b c : PrintBuffer} {texts : List (List ℕ)}
    → Prints b texts c
    → b.bp_size < bplen b + 80
    → c.bp_size < bplen c + 80
Prints-full done full = full
Prints-full (print {b} {c} {text} {texts} short rest) full =
    Prints-full rest (subst (λ d. d.bp_size < bplen d + 80) (sym (bprint_full b text full)) full)

-- If less of the buffer is filled than its size, then after any texts of less than 80 characters are
-- printed less of it is filled than its size, and either it holds all of them behind what it held,
-- or less than 80 characters are left.
pub Prints-InBounds :
    {b c : PrintBuffer} {texts : List (List ℕ)}
    → Prints b texts c
    → bplen b < b.bp_size
    → (bplen c < c.bp_size)
      × ((c.bp_buffer ≡ b.bp_buffer ++ joined texts) ⊎ (c.bp_size < bplen c + 80))
Prints-InBounds (done {b}) h = (h, inl (sym (append-nil b.bp_buffer)))
Prints-InBounds (print {b} {c} {text} {texts} short rest) h =
    let (fits, all) = Prints-InBounds rest (bprint-InBounds b text short h) in
    elim (room-cases b) [
      | inl full ↦ (fits, inr (Prints-full (print short rest) full))
      | inr room ↦ (
        fits,
        elim all [
          | inr full ↦ inr full
          | inl e ↦ inl (
              e
              ∙ ap (λ d. d.bp_buffer ++ joined texts) (bprint_room b text room)
              ∙ append_assoc b.bp_buffer text (joined texts))
        ],
      )
    ]
