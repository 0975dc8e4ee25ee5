-- ===== src/Cli/Words.antt =====
-- src/cmdlintf.c: the scanners of words against a division of the text into words.
use mathlib.Core.Option.{map}
use tcp_proxy.Prelude.{
  ℕ, zero, suc, subst, ◌+◌, ◌-◌, ◌≡◌, refl, sym, ap, ◌∙◌, inl, inr, true, false, Option, none, some,
  List, [], ◌∷◌, arith, ltb, ◌==◌, if◌then◌else◌, length, get_elem?, get_or, take, drop, Bool-cases,
}
use tcp_proxy.Cli.{
  max_cmd_word_len, whitespace, nthwordptr_from, nthwordptr, nthword_from, nthword, nofwords_from,
  nofwords,
}

-- A word that is complete joins the others.
unfoldable pub flush : List ℕ → List (List ℕ) → List (List ℕ)
flush [] rest = rest
flush (c ∷ word) rest = (c ∷ word) ∷ rest

-- The rest of the word that the text starts in, and the words after it.
unfoldable pub tokens : List ℕ → List ℕ × List (List ℕ)
unfolding flush
tokens [] = ([], [])
tokens (c ∷ text) =
    let (word, rest) = tokens text in
    if whitespace c then ([], flush word rest) else (c ∷ word, rest)

-- The words of a text: its longest parts without blanks and tabs.
unfoldable pub words : List ℕ → List (List ℕ)
unfolding tokens
words text = flush (tokens text).0 (tokens text).1

tokens_blank : (c : ℕ) (text : List ℕ) → whitespace c ≡ true → tokens (c ∷ text) ≡ ([], words text)
unfolding words tokens
tokens_blank c text e = rw e refl

tokens_char :
    (c : ℕ) (text : List ℕ)
    → whitespace c ≡ false
    → tokens (c ∷ text) ≡ (c ∷ (tokens text).0, (tokens text).1)
unfolding tokens
tokens_char c text e = rw e refl

words_blank : (c : ℕ) (text : List ℕ) → whitespace c ≡ true → words (c ∷ text) ≡ words text
unfolding words flush
words_blank c text e = rw (tokens_blank c text e) refl

words_char :
    (c : ℕ) (text : List ℕ)
    → whitespace c ≡ false
    → words (c ∷ text) ≡ (c ∷ (tokens text).0) ∷ (tokens text).1
unfolding words flush
words_char c text e = rw (tokens_char c text e) refl

nofwords_from_char :
    (j m c : ℕ) (text : List ℕ)
    → whitespace c ≡ false
    → nofwords_from j m (c ∷ text) ≡ nofwords_from j (suc m) text
unfolding nofwords_from
nofwords_from_char j m c text e = rw e refl

add_suc : (d j : ℕ) → d + suc j ≡ suc d + j
add_suc d j = omega arith

ltb-suc : (m : ℕ) → ltb 0 (suc m) ≡ true
ltb-suc m = ground arith

-- Between words, and within one.
mutual
  unfolding nofwords_from words flush

  nofwords_from_between : (j : ℕ) (text : List ℕ) → nofwords_from j 0 text ≡ j + length (words text)
  nofwords_from_between j [] = omega arith
  nofwords_from_between j (c ∷ text) = elim (Bool-cases (whitespace c)) [
    | inl e ↦ rw (words_blank c text e, e) (nofwords_from_between j text)
    | inr e ↦ omega (
      arith,
      nofwords_from_char j 0 c text e,
      nofwords_from_within j 0 text,
      ap length (words_char c text e),
    )
  ]

  nofwords_from_within :
      (j m : ℕ) (text : List ℕ) → nofwords_from j (suc m) text ≡ suc j + length (tokens text).1
  nofwords_from_within j m [] = ground arith
  nofwords_from_within j m (c ∷ text) = elim (Bool-cases (whitespace c)) [
    | inl e ↦ rw (tokens_blank c text e, e, ltb-suc m) (nofwords_from_between (suc j) text)
    | inr e ↦ rw (tokens_char c text e, e) (nofwords_from_within j (suc m) text)
  ]

-- The scanner counts the words of a line.
pub nofwords-words : (cmd : List ℕ) → nofwords cmd ≡ length (words cmd)
unfolding nofwords
nofwords-words cmd = omega (arith, nofwords_from_between 0 cmd)

take_nil : (n : ℕ) → take {A = ℕ} n [] ≡ []
take_nil zero = refl
take_nil (suc n) = refl

here_eqb : (j : ℕ) → (j == 0 + j) ≡ true
here_eqb j = ground arith

ahead_eqb : (d j : ℕ) → (j == suc d + j) ≡ false
ahead_eqb d j = ground arith

abbrev room : ℕ → ℕ
room k = max_cmd_word_len - 1 - k

take-room :
    (k c : ℕ) (word : List ℕ)
    → ltb k (max_cmd_word_len - 1) ≡ true
    → take (room k) (c ∷ word) ≡ c ∷ take (room (suc k)) word
take-room k c word e = let h : room k ≡ suc (room (suc k)) = ground (arith, e) in rw h refl

take_full : (k : ℕ) (word : List ℕ) → ltb k (max_cmd_word_len - 1) ≡ false → take (room k) word ≡ []
take_full k word e = let h : room k ≡ 0 = ground (arith, e) in rw h refl

-- The word that is looked for has begun; `k` characters of it are stored.
nthword_from_target :
    (j m k : ℕ) (text : List ℕ)
    → nthword_from (0 + j) j (suc m) k text ≡ take (room k) (tokens text).0
unfolding nthword_from tokens
nthword_from_target j m k [] = sym (take_nil (room k))
nthword_from_target j m k (c ∷ text) = elim (Bool-cases (whitespace c)) [
  | inl e ↦ rw (tokens_blank c text e, e, here_eqb j, ltb-suc m) (sym (take_nil (room k)))
  | inr e ↦ elim (Bool-cases (ltb k (max_cmd_word_len - 1))) [
    | inl l ↦
        rw (tokens_char c text e, take-room k c (tokens text).0 l, e, here_eqb j, l)
          (ap (λ w. c ∷ w) (nthword_from_target j (suc m) (suc k) text))
    | inr l ↦
        rw (tokens_char c text e, take_full k (c ∷ (tokens text).0) l, e, here_eqb j, l)
          (nthword_from_target j (suc m) k text ∙ take_full k (tokens text).0 l)
  ]
]

-- The word that is looked for is `d` words ahead.
mutual
  unfolding nthword_from words flush

  nthword_from_between :
      (d j : ℕ) (text : List ℕ)
      → nthword_from (d + j) j 0 0 text ≡ take (room 0) (get_or (words text) d [])
  nthword_from_between d j [] = refl
  nthword_from_between zero j (c ∷ text) = elim (Bool-cases (whitespace c)) [
    | inl e ↦ rw (words_blank c text e, e) (nthword_from_between zero j text)
    | inr e ↦
        rw (words_char c text e, e, here_eqb j) (ap (λ w. c ∷ w) (nthword_from_target j 0 1 text))
  ]
  nthword_from_between (suc d) j (c ∷ text) = elim (Bool-cases (whitespace c)) [
    | inl e ↦ rw (words_blank c text e, e) (nthword_from_between (suc d) j text)
    | inr e ↦ rw (words_char c text e, e, ahead_eqb d j) (nthword_from_within d j 0 text)
  ]

  nthword_from_within :
      (d j m : ℕ) (text : List ℕ)
      → nthword_from (suc d + j) j (suc m) 0 text ≡ take (room 0) (get_or (tokens text).1 d [])
  nthword_from_within d j m [] = refl
  nthword_from_within d j m (c ∷ text) = elim (Bool-cases (whitespace c)) [
    | inl e ↦
        rw (tokens_blank c text e, e, ahead_eqb d j, ltb-suc m)
          (subst (λ n. nthword_from n (suc j) 0 0 text ≡ take (room 0) (get_or (words text) d []))
            (add_suc d j) (nthword_from_between d (suc j) text))
    | inr e ↦ rw (tokens_char c text e, e, ahead_eqb d j) (nthword_from_within d j (suc m) text)
  ]

-- No word is empty, so that the first character decides whether `nthword` answers NULL.
abbrev as_answer : List ℕ → Option (List ℕ)
as_answer [] = none
as_answer (c ∷ word) = some (c ∷ word)

as_answer-flush :
    (word : List ℕ) (rest : List (List ℕ))
    → ((d : ℕ) → as_answer (take 63 (get_or rest d [])) ≡ map (take 63) (get_elem? rest d))
    → (d : ℕ)
    → as_answer (take 63 (get_or (flush word rest) d []))
      ≡ map (take 63) (get_elem? (flush word rest) d)
unfolding flush
as_answer-flush [] rest h d = h d
as_answer-flush (c ∷ word) rest h zero = refl
as_answer-flush (c ∷ word) rest h (suc d) = h d

as_answer-tokens :
    (text : List ℕ) (d : ℕ)
    → as_answer (take 63 (get_or (tokens text).1 d []))
      ≡ map (take 63) (get_elem? (tokens text).1 d)
unfolding words tokens
as_answer-tokens [] d = refl
as_answer-tokens (c ∷ text) d = elim (Bool-cases (whitespace c)) [
  | inl e ↦
      rw (tokens_blank c text e)
        (as_answer-flush (tokens text).0 (tokens text).1 (as_answer-tokens text) d)
  | inr e ↦ rw (tokens_char c text e) (as_answer-tokens text d)
]

-- `nthword` answers a word, its first 63 characters of it.
nthword-words :
    (cmd : List ℕ) (d : ℕ)
    → nthword cmd (suc d) ≡ map (take (max_cmd_word_len - 1)) (get_elem? (words cmd) d)
unfolding nthword words
nthword-words cmd d =
    let at : d + 1 ≡ suc d = omega arith in
    let h : nthword_from (suc d) 1 0 0 cmd ≡ take 63 (get_or (words cmd) d []) =
      subst (λ n. nthword_from n 1 0 0 cmd ≡ take 63 (get_or (words cmd) d [])) at
        (nthword_from_between d 1 cmd) in
    rw (h, nthword) (as_answer-flush (tokens cmd).0 (tokens cmd).1 (as_answer-tokens cmd) d)

-- What `nthwordptr` points to begins with the word, and ends with the text.
abbrev from_word : ℕ → List (List ℕ) → Option (List (List ℕ))
from_word d ws = if ltb d (length ws) then some (drop d ws) else none

from_word_next :
    (d : ℕ) (w : List ℕ) (ws : List (List ℕ)) → from_word (suc d) (w ∷ ws) ≡ from_word d ws
from_word_next d w ws = ground arith

from_word_here : (w : List ℕ) (ws : List (List ℕ)) → from_word 0 (w ∷ ws) ≡ some (w ∷ ws)
from_word_here w ws = ground arith

from_word-none : (d : ℕ) → from_word d [] ≡ none
from_word-none d = ground arith

mutual
  unfolding nthwordptr_from words flush

  nthwordptr_from_between :
      (d j : ℕ) (text : List ℕ)
      → map words (nthwordptr_from (d + j) j 0 text) ≡ from_word d (words text)
  nthwordptr_from_between d j [] = sym (from_word-none d)
  nthwordptr_from_between zero j (c ∷ text) = elim (Bool-cases (whitespace c)) [
    | inl e ↦ rw (words_blank c text e, e) (nthwordptr_from_between zero j text)
    | inr e ↦
        rw (e, here_eqb j)
          (ap some (words_char c text e)
            ∙ sym (from_word_here (c ∷ (tokens text).0) (tokens text).1))
  ]
  nthwordptr_from_between (suc d) j (c ∷ text) = elim (Bool-cases (whitespace c)) [
    | inl e ↦ rw (words_blank c text e, e) (nthwordptr_from_between (suc d) j text)
    | inr e ↦
        rw (words_char c text e, e, ahead_eqb d j)
          (nthwordptr_from_within d j 0 text
            ∙ sym (from_word_next d (c ∷ (tokens text).0) (tokens text).1))
  ]

  nthwordptr_from_within :
      (d j m : ℕ) (text : List ℕ)
      → map words (nthwordptr_from (suc d + j) j (suc m) text) ≡ from_word d (tokens text).1
  nthwordptr_from_within d j m [] = sym (from_word-none d)
  nthwordptr_from_within d j m (c ∷ text) = elim (Bool-cases (whitespace c)) [
    | inl e ↦
        rw (tokens_blank c text e, e, ahead_eqb d j, ltb-suc m)
          (subst (λ n. map words (nthwordptr_from n (suc j) 0 text) ≡ from_word d (words text))
            (add_suc d j) (nthwordptr_from_between d (suc j) text))
    | inr e ↦ rw (tokens_char c text e, e, ahead_eqb d j) (nthwordptr_from_within d j (suc m) text)
  ]

-- `nthwordptr`
pub nthwordptr-words :
    (cmd : List ℕ) (d : ℕ)
    → map words (nthwordptr cmd (suc d))
      ≡ (if ltb d (length (words cmd)) then some (drop d (words cmd)) else none)
unfolding nthwordptr
nthwordptr-words cmd d =
    let at : d + 1 ≡ suc d = omega arith in
    subst (λ n. map words (nthwordptr_from n 1 0 cmd) ≡ from_word d (words cmd)) at
      (nthwordptr_from_between d 1 cmd)

-- For any line, `nofwords` is the number of its longest parts without blanks and tabs; `nthword`
-- answers the first 63 characters of such a part, or NULL if there are not as many; `nthwordptr`
-- answers NULL then, and otherwise the rest of the line, whose parts are those from that part on.
pub scanners-words :
    (cmd : List ℕ) (d : ℕ)
    → (nofwords cmd ≡ length (words cmd))
      × (nthword cmd (suc d) ≡ map (take (max_cmd_word_len - 1)) (get_elem? (words cmd) d))
      × (map words (nthwordptr cmd (suc d))
          ≡ (if ltb d (length (words cmd)) then some (drop d (words cmd)) else none))
scanners-words cmd d = (nofwords-words cmd, nthword-words cmd d, nthwordptr-words cmd d)
