-- ===== src/Cli/Tree.antt =====
-- src/cmdlintf.c: what `cli_addcmd` puts into the tree of commands is what `find_match_as_possible`
-- finds there.
use tcp_proxy.Prelude.{
  ℕ, zero, suc, ◌+◌, ◌≡◌, refl, sym, ap, subst, ◌∙◌, inl, inr, Bool, true, false, ◌&&◌, Option,
  none, some, List, arith, ◌==◌, if◌then◌else◌, Bool-cases, Option-cases,
}
use tcp_proxy.Prelude.Int.{ℤ, pos, leb_ℤ}
use tcp_proxy.HashMap.{same_key}
use tcp_proxy.Cli.Words.{nofwords-words, nthwordptr-words}
use tcp_proxy.HashMap.Chains.{same_key_refl}
use tcp_proxy.Cli.{
  nthword, nofwords, Command, Commands, no_command, command, find_name, set_subcmd, NewCommand,
  bare_command, add_from, cli_addcmd, match_from, find_match_as_possible, nthwordptr, execute_line,
  send, run,
}

-- What the last word of a new command comes to.
abbrev pub new_command : NewCommand → List ℕ → Command
unfolding bare_command
new_command a word = record (bare_command a word) { func = a.cmdfunc; doc = a.doc; nargs = a.args }

-- The steps of the search.
module _ (text : List ℕ) (i : ℕ) (best : Option (Command × Commands) × ℕ) (word : List ℕ)
    (e : nthword text i ≡ some word) where
  match_from_hit :
      (c : Command) (sub next : Commands)
      → same_key c.name word ≡ true
      → match_from text i best (command c sub next) ≡ match_from text (suc i) (some (c, sub), i) sub
  unfolding match_from
  match_from_hit c sub next k = rw (match_from, e, k) refl

  match_from_miss :
      (c : Command) (sub next : Commands)
      → same_key c.name word ≡ false
      → match_from text i best (command c sub next) ≡ match_from text i best next
  unfolding match_from
  match_from_miss c sub next k = rw (match_from, e, k) refl

  -- A search that finds a command goes on below it.
  match_from_set :
      (new s : Commands) (c : Command) (sub : Commands)
      → find_name word s ≡ some (c, sub)
      → match_from text i best (set_subcmd word new s)
        ≡ match_from text (suc i) (some (c, new), i) new
  unfolding find_name set_subcmd
  match_from_set new no_command c sub f = absurd (ground (arith, f))
  match_from_set new (command c' sub' next) c sub f = elim (Bool-cases (same_key c'.name word)) [
    | inl k ↦
        let g : c' ≡ c = ground (arith, f, k) in
        rw (set_subcmd, k)
          (match_from_hit c' new next k
            ∙ ap (λ z. match_from text (suc i) (some (z, new), i) new) g)
    | inr k ↦
        let g : find_name word next ≡ some (c, sub) = ground (arith, f, k) in
        rw (set_subcmd, k)
          (match_from_miss c' sub' (set_subcmd word new next) k ∙ match_from_set new next c sub g)
  ]

find_name_set :
    (word : List ℕ) (new s : Commands) (c : Command) (sub : Commands)
    → find_name word s ≡ some (c, sub)
    → find_name word (set_subcmd word new s) ≡ some (c, new)
unfolding find_name set_subcmd
find_name_set word new no_command c sub f = absurd (ground (arith, f))
find_name_set word new (command c' sub' next) c sub f =
    ground (arith, f, find_name_set word new next c sub)

set_subcmd_again :
    (word : List ℕ) (new s : Commands)
    → set_subcmd word new (set_subcmd word new s) ≡ set_subcmd word new s
unfolding set_subcmd
set_subcmd_again word new no_command = refl
set_subcmd_again word new (command c sub next) = elim (Bool-cases (same_key c.name word)) [
  | inl k ↦ rw (k, set_subcmd, k) refl
  | inr k ↦ rw (k, set_subcmd, k) (ap (command c sub) (set_subcmd_again word new next))
]

-- The paths through a level of `cli_addcmd`.
module _ (a : NewCommand) (level : ℕ) (s : Commands) where
  no_word : (n : ℕ) → nthword a.cmd level ≡ none → add_from a n level s ≡ (s, false)
  unfolding add_from
  no_word zero e = refl
  no_word (suc n) e = rw (add_from, e) refl

  no_level : add_from a 0 level s ≡ (s, false)
  unfolding add_from
  no_level = refl

module _ (a : NewCommand) (level : ℕ) (s : Commands) (word : List ℕ)
    (e : nthword a.cmd level ≡ some word) where
  exists_last :
      (c : Command) (sub : Commands)
      → find_name word s ≡ some (c, sub)
      → add_from a 1 level s ≡ (s, false)
  unfolding add_from
  exists_last c sub f = rw (add_from, e, f) refl

  exists_inner :
      (n : ℕ) (c : Command) (sub : Commands)
      → find_name word s ≡ some (c, sub)
      → add_from a (suc (suc n)) level s ≡ (
        set_subcmd word (add_from a (suc n) (suc level) sub).0 s,
        (add_from a (suc n) (suc level) sub).1,
      )
  unfolding add_from
  exists_inner n c sub f =
      let z : (suc n == 0) ≡ false = ground arith in rw (add_from, e, f, z) refl

  missing_last :
      find_name word s ≡ none
      → add_from a 1 level s ≡ (command (new_command a word) no_command s, true)
  unfolding add_from
  missing_last f = rw (add_from, e, f) refl

  missing_inner :
      (n : ℕ)
      → find_name word s ≡ none
      → add_from a (suc (suc n)) level s ≡ (
        command (bare_command a word) (add_from a (suc n) (suc level) no_command).0 s,
        (add_from a (suc n) (suc level) no_command).1,
      )
  unfolding add_from
  missing_inner n f = let z : (suc n == 0) ≡ false = ground arith in rw (add_from, e, f, z) refl

-- What a search for the new command finds, with the level of its last word.
abbrev pub IsFound : NewCommand → ℕ → Option (Command × Commands) × ℕ → Type 0
IsFound a last found =
    (word : List ℕ) × (nthword a.cmd last ≡ some word)
    × (found ≡ (some (new_command a word, no_command), last))

refused : {A : Type 0} (r : Commands × Bool) (s : Commands) → r.1 ≡ true → r ≡ (s, false) → A
refused r s ok e = absurd (ground (arith, ok, ap (λ z. z.1) e))

add_from-IsFound :
    (a : NewCommand) (n level last : ℕ) (s : Commands) (best : Option (Command × Commands) × ℕ)
    → suc last ≡ n + level
    → (add_from a n level s).1 ≡ true
    → IsFound a last (match_from a.cmd level best (add_from a n level s).0)
unfolding match_from new_command
add_from-IsFound a zero level last s best l ok =
    refused (add_from a 0 level s) s ok (no_level a level s)
add_from-IsFound a (suc zero) level last s best l ok = elim (Option-cases (nthword a.cmd level)) [
  | inl e ↦ refused (add_from a 1 level s) s ok (no_word a level s 1 e)
  | inr (word, e) ↦ elim (Option-cases (find_name word s)) [
    | inl f ↦
        let at : level ≡ last = omega (arith, l) in
        subst (λ k. IsFound a k (match_from a.cmd level best (add_from a 1 level s).0)) at
          (
            word,
            e,
            ap (λ r. match_from a.cmd level best r.0) (missing_last a level s word e f)
                ∙ match_from_hit a.cmd level best word e (new_command a word) no_command s
                    (same_key_refl word),
          )
    | inr ((c, sub), f) ↦ refused (add_from a 1 level s) s ok (exists_last a level s word e c sub f)
  ]
]
add_from-IsFound a (suc (suc n)) level last s best l ok =
    elim (Option-cases (nthword a.cmd level)) [
      | inl e ↦ refused (add_from a (suc (suc n)) level s) s ok (no_word a level s (suc (suc n)) e)
      | inr (word, e) ↦ elim (Option-cases (find_name word s)) [
        | inl f ↦
            let step = missing_inner a level s word e n f in
            let below = add_from a (suc n) (suc level) no_command in
            let path =
              ap (λ r. match_from a.cmd level best r.0) step
              ∙ match_from_hit a.cmd level best word e (bare_command a word) below.0 s
                  (same_key_refl word) in
            subst (IsFound a last) (sym path) (
              add_from-IsFound a (suc n) (suc level) last no_command
                (some (bare_command a word, below.0), level) (omega (arith, l))
                (sym (ap (λ r. r.1) step) ∙ ok))
        | inr ((c, sub), f) ↦
            let step = exists_inner a level s word e n c sub f in
            let below = add_from a (suc n) (suc level) sub in
            let path =
              ap (λ r. match_from a.cmd level best r.0) step
              ∙ match_from_set a.cmd level best word e below.0 s c sub f in
            subst (IsFound a last) (sym path) (
              add_from-IsFound a (suc n) (suc level) last sub (some (c, below.0), level)
                (omega (arith, l)) (sym (ap (λ r. r.1) step) ∙ ok))
      ]
    ]

cli_addcmd-IsFound :
    (a : NewCommand) (s : Commands)
    → (cli_addcmd a s).1 ≡ true
    → IsFound a (nofwords a.cmd) (find_match_as_possible a.cmd (cli_addcmd a s).0)
unfolding cli_addcmd find_match_as_possible
cli_addcmd-IsFound a s ok =
    add_from-IsFound a (nofwords a.cmd) 1 (nofwords a.cmd) s (none, 0) (omega arith) ok

-- No word follows the last one.
nthwordptr_end : (cmd : List ℕ) → nthwordptr cmd (suc (nofwords cmd)) ≡ none
nthwordptr_end cmd = ground (arith, nofwords-words cmd, nthwordptr-words cmd (nofwords cmd))

-- If `cli_addcmd` reports success for a command with a function, executing a line that is the text
-- of the command sends the line to the server if the command is remote and there is a server, and
-- else runs that function with no further text.
pub execute_line-cli_addcmd :
    (a : NewCommand) (s : Commands) (svc_fd : ℤ) (f : ℕ)
    → (cli_addcmd a s).1 ≡ true
    → a.cmdfunc ≡ some f
    → execute_line svc_fd (cli_addcmd a s).0 a.cmd
      ≡ (if a.rmt && leb_ℤ (pos 0) svc_fd then send a.cmd else run f none)
unfolding execute_line new_command
execute_line-cli_addcmd a s svc_fd f ok e =
    let (word, _, found) = cli_addcmd-IsFound a s ok in
    rw (execute_line, ap (λ r. r.0) found, e, ap (λ r. r.1) found, nthwordptr_end a.cmd) refl

find_name_first :
    (c : Command) (sub next : Commands) → find_name c.name (command c sub next) ≡ some (c, sub)
unfolding find_name
find_name_first c sub next = rw (same_key_refl c.name) refl

set_subcmd_first :
    (c : Command) (sub next : Commands)
    → set_subcmd c.name sub (command c sub next) ≡ command c sub next
unfolding set_subcmd
set_subcmd_first c sub next = rw (same_key_refl c.name) refl

-- A result that a second addition of the command leaves as it is.
abbrev IsSettled : NewCommand → ℕ → ℕ → Commands × Bool → Type 0
IsSettled a n level r = add_from a n level r.0 ≡ (r.0, false)

add_from-IsSettled :
    (a : NewCommand) (n level : ℕ) (s : Commands) → IsSettled a n level (add_from a n level s)
unfolding new_command
add_from-IsSettled a zero level s =
    subst (IsSettled a 0 level) (sym (no_level a level s)) (no_level a level s)
add_from-IsSettled a (suc zero) level s = elim (Option-cases (nthword a.cmd level)) [
  | inl e ↦ subst (IsSettled a 1 level) (sym (no_word a level s 1 e)) (no_word a level s 1 e)
  | inr (word, e) ↦ elim (Option-cases (find_name word s)) [
    | inl f ↦ subst (IsSettled a 1 level) (sym (missing_last a level s word e f)) (
        exists_last a level (command (new_command a word) no_command s) word e (new_command a word)
          no_command (find_name_first (new_command a word) no_command s))
    | inr ((c, sub), f) ↦
        subst (IsSettled a 1 level) (sym (exists_last a level s word e c sub f))
          (exists_last a level s word e c sub f)
  ]
]
add_from-IsSettled a (suc (suc n)) level s = elim (Option-cases (nthword a.cmd level)) [
  | inl e ↦
      subst (IsSettled a (suc (suc n)) level) (sym (no_word a level s (suc (suc n)) e))
        (no_word a level s (suc (suc n)) e)
  | inr (word, e) ↦ elim (Option-cases (find_name word s)) [
    | inl f ↦
        let below = (add_from a (suc n) (suc level) no_command).0 in
        let settled = add_from-IsSettled a (suc n) (suc level) no_command in
        let new = command (bare_command a word) below s in
        subst (IsSettled a (suc (suc n)) level) (sym (missing_inner a level s word e n f)) (
          exists_inner a level new word e n (bare_command a word) below
            (find_name_first (bare_command a word) below s)
          ∙ ap (λ r. (set_subcmd word r.0 new, r.1)) settled
          ∙ ap (λ t. (t, false)) (set_subcmd_first (bare_command a word) below s))
    | inr ((c, sub), f) ↦
        let below = (add_from a (suc n) (suc level) sub).0 in
        let settled = add_from-IsSettled a (suc n) (suc level) sub in
        let new = set_subcmd word below s in
        subst (IsSettled a (suc (suc n)) level) (sym (exists_inner a level s word e n c sub f)) (
          exists_inner a level new word e n c below (find_name_set word below s c sub f)
          ∙ ap (λ r. (set_subcmd word r.0 new, r.1)) settled
          ∙ ap (λ t. (t, false)) (set_subcmd_again word below s))
  ]
]

-- Adding a command a second time fails and leaves the tree of commands as the first time left it.
pub cli_addcmd_twice :
    (a : NewCommand) (s : Commands) → cli_addcmd a (cli_addcmd a s).0 ≡ ((cli_addcmd a s).0, false)
unfolding cli_addcmd
cli_addcmd_twice a s = add_from-IsSettled a (nofwords a.cmd) 1 s
