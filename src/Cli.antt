-- ===== src/Cli.antt =====
-- src/cmdlintf.c: the words of a command line, the tree of commands, and what a line executes. A text
-- is a list of characters. The five buffers that `nthword` uses in turn are not modelled: a word is
-- read before the next one is asked for.
pub mod Words
pub mod Tree
pub mod Buffer
mod Tests
use tcp_proxy.Prelude.{
  ℕ, zero, suc, ◌+◌, ◌-◌, ◌≡◌, Bool, true, false, ◌&&◌, ◌||◌, not, Option, none, some, List, [],
  ◌∷◌, ◌++◌, arith, ltb, leb, ◌==◌, if◌then◌else◌, length,
}
use tcp_proxy.Prelude.Int.{ℤ, pos, ltb_ℤ, leb_ℤ, eqb_ℤ}
use tcp_proxy.HashMap.{same_key}

-- MAX_CMD_WORD_LEN
abbrev pub max_cmd_word_len : ℕ
max_cmd_word_len = 64

-- `whitespace` of readline: a blank or a tab.
abbrev pub whitespace : ℕ → Bool
whitespace c = c == 32 || c == 9

-- The loop of `nthwordptr`; the rest of the text stands for the pointer.
unfoldable pub nthwordptr_from : ℕ → ℕ → ℕ → List ℕ → Option (List ℕ)
nthwordptr_from n j m [] = none
nthwordptr_from n j m (c ∷ cmd) =
    let same = nthwordptr_from n j m cmd in
    let inside = nthwordptr_from n j (suc m) cmd in
    let next = nthwordptr_from n (suc j) 0 cmd in
    if whitespace c
    then (if ltb 0 m then (if j == n then none else next) else same)
    else if j == n
    then some (c ∷ cmd)
    else inside

unfoldable pub nthwordptr : List ℕ → ℕ → Option (List ℕ)
unfolding nthwordptr_from
nthwordptr cmd n = nthwordptr_from n 1 0 cmd

-- The characters that the loop of `nthword` stores, from `k` of them on.
unfoldable pub nthword_from : ℕ → ℕ → ℕ → ℕ → List ℕ → List ℕ
nthword_from n j m k [] = []
nthword_from n j m k (c ∷ cmd) =
    let same = nthword_from n j m k cmd in
    let inside = nthword_from n j (suc m) k cmd in
    let stored = nthword_from n j (suc m) (suc k) cmd in
    let next = nthword_from n (suc j) 0 k cmd in
    if whitespace c
    then (if ltb 0 m then (if j == n then [] else next) else same)
    else if j == n
    then (if ltb k (max_cmd_word_len - 1) then c ∷ stored else inside)
    else inside

unfoldable pub nthword : List ℕ → ℕ → Option (List ℕ)
unfolding nthword_from
nthword cmd n = elim (nthword_from n 1 0 0 cmd) [ [] ↦ none | c ∷ word ↦ some (c ∷ word) ]

unfoldable pub nofwords_from : ℕ → ℕ → List ℕ → ℕ
nofwords_from j m [] = if ltb 0 m then suc j else j
nofwords_from j m (c ∷ cmd) =
    let same = nofwords_from j m cmd in
    let inside = nofwords_from j (suc m) cmd in
    let next = nofwords_from (suc j) 0 cmd in
    if whitespace c then (if ltb 0 m then next else same) else inside

unfoldable pub nofwords : List ℕ → ℕ
unfolding nofwords_from
nofwords cmd = nofwords_from 0 0 cmd

-- The first loop of `stripwhite`.
unfoldable pub strip_front : List ℕ → List ℕ
strip_front [] = []
strip_front (c ∷ text) = if whitespace c then strip_front text else c ∷ text

-- The second loop, which goes back from the end.
unfoldable pub strip_back : List ℕ → List ℕ
strip_back [] = []
strip_back (c ∷ text) = elim (strip_back text) [
  | [] ↦ if whitespace c then [] else c ∷ []
  | d ∷ rest ↦ c ∷ d ∷ rest
]

unfoldable pub stripwhite : List ℕ → List ℕ
unfolding strip_front strip_back
stripwhite text = strip_back (strip_front text)

-- `command_t`, without its links. A function is an identity; `none` is NULL.
pub record Command : Type 0 where
  pub name : List ℕ
  pub is_rmt : Bool
  pub func : Option ℕ
  pub cmd_type : ℤ
  pub doc : Option (List ℕ)
  pub nargs : ℕ

-- A command with its links `subcmd` and `next`.
pub data Commands : Type 0 where
  no_command : Commands
  command : Command → Commands → Commands → Commands

-- The search for a name among siblings; with the command comes what `subcmd` points to.
unfoldable pub find_name : List ℕ → Commands → Option (Command × Commands)
find_name word no_command = none
find_name word (command c sub next) =
    if same_key c.name word then some (c, sub) else find_name word next

-- `subcmd` of the command that the search finds changes.
unfoldable pub set_subcmd : List ℕ → Commands → Commands → Commands
set_subcmd word new no_command = no_command
set_subcmd word new (command c sub next) =
    if same_key c.name word then command c new next else command c sub (set_subcmd word new next)

-- The arguments of `cli_addcmd`.
pub record NewCommand : Type 0 where
  pub cmd : List ℕ
  pub rmt : Bool
  pub cmdfunc : Option ℕ
  pub doc : Option (List ℕ)
  pub args : ℕ
  pub cmdtype : ℤ

-- A command as `calloc` and the assignments after it leave it.
unfoldable pub bare_command : NewCommand → List ℕ → Command
bare_command a word = record {
  name = word;
  is_rmt = a.rmt;
  func = none;
  cmd_type = a.cmdtype;
  doc = none;
  nargs = 0;
}

-- The loop over the levels, with `n` of them left, from what `subcmd` points to there. The answer tells
-- whether 1 is returned.
unfoldable pub add_from : NewCommand → ℕ → ℕ → Commands → Commands × Bool
unfolding find_name set_subcmd bare_command
add_from a zero level s = (s, false)
add_from a (suc n) level s = elim (nthword a.cmd level) [
  | none ↦ (s, false)
  | some word ↦ elim (find_name word s) [
    | some (c, sub) ↦
        let (sub', ok) = add_from a n (suc level) sub in
        if n == 0 then (s, false) else (set_subcmd word sub' s, ok)
    | none ↦
        let (sub', ok) = add_from a n (suc level) no_command in
        if n == 0
        then (
          command (record (bare_command a word) { func = a.cmdfunc; doc = a.doc; nargs = a.args })
              no_command s,
          true,
        )
        else (command (bare_command a word) sub' s, ok)
  ]
]

-- `s` is what `subcmd` of the root points to.
unfoldable pub cli_addcmd : NewCommand → Commands → Commands × Bool
unfolding add_from nofwords
cli_addcmd a s = add_from a (nofwords a.cmd) 1 s

-- The loop of `find_match_as_possible` from level `i` on, with the match so far and its level.
unfoldable pub match_from :
    List ℕ → ℕ → Option (Command × Commands) × ℕ → Commands → Option (Command × Commands) × ℕ
match_from text i best no_command = best
match_from text i best (command c sub next) =
    let deeper = match_from text (suc i) (some (c, sub), i) sub in
    let later = match_from text i best next in
    elim (nthword text i) [
      | none ↦ best
      | some word ↦ if same_key c.name word then deeper else later
    ]

-- `mcnt` is 0 where the code leaves it as it was.
unfoldable pub find_match_as_possible : List ℕ → Commands → Option (Command × Commands) × ℕ
unfolding match_from
find_match_as_possible text s = match_from text 1 (none, 0) s

-- The loop of `find_match_command`, with `n` levels left.
unfoldable pub exact_from :
    List ℕ → ℕ → ℕ → Option (Command × Commands) → Commands → Option (Command × Commands)
unfolding find_name
exact_from text zero i found s = found
exact_from text (suc n) i found s = elim (nthword text i) [
  | none ↦ found
  | some word ↦ elim (find_name word s) [
    | none ↦ none
    | some (c, sub) ↦ exact_from text n (suc i) (some (c, sub)) sub
  ]
]

unfoldable pub find_match_command : List ℕ → ℕ → Commands → Option (Command × Commands)
unfolding exact_from
find_match_command text mcnt s = exact_from text mcnt 1 none s

-- What a line comes to.
pub data Execution : Type 0 where
  no_such_command : Option (List ℕ) → Execution
  incomplete_command : List ℕ → Execution
  run : ℕ → Option (List ℕ) → Execution
  send : List ℕ → Execution
  ignored : Execution

-- `svc_fd` is the socket of the server, negative if there is none.
unfoldable pub execute_line : ℤ → Commands → List ℕ → Execution
unfolding find_match_as_possible
execute_line svc_fd s cmd =
    let (found, i) = find_match_as_possible cmd s in
    elim found [
      | none ↦ no_such_command (nthword cmd 1)
      | some (c, sub) ↦ elim c.func [
        | none ↦ incomplete_command cmd
        | some f ↦
            if c.is_rmt && leb_ℤ (pos 0) svc_fd then send cmd else run f (nthwordptr cmd (suc i))
      ]
    ]

unfoldable pub external_execute : Commands → List ℕ → ℤ → Execution
unfolding find_match_as_possible
external_execute s cmd cmdtype =
    let (found, i) = find_match_as_possible cmd s in
    elim found [
      | none ↦ no_such_command (nthword cmd 1)
      | some (c, sub) ↦ elim c.func [
        | none ↦ incomplete_command cmd
        | some f ↦ if eqb_ℤ cmdtype c.cmd_type then run f (nthwordptr cmd (suc i)) else ignored
      ]
    ]

-- The buffer of the answers; `bp_index` is the length of what it holds.
pub record PrintBuffer : Type 0 where
  pub bp_size : ℕ
  pub bp_buffer : List ℕ

unfoldable pub bpinit : PrintBuffer → PrintBuffer
bpinit b = record b { bp_buffer = [] }

unfoldable pub bplen : PrintBuffer → ℕ
bplen b = length b.bp_buffer

-- `text` is what `vsprintf` makes of the arguments.
unfoldable pub bprint : PrintBuffer → List ℕ → PrintBuffer × ℕ
unfolding bplen
bprint b text =
    if ltb b.bp_size (bplen b + 80)
    then (b, 0)
    else (record b { bp_buffer = b.bp_buffer ++ text }, length text)
