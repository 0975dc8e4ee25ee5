-- ===== src/Cli/Tests.antt =====
-- src/cmdlintf.c: two commands and a small buffer.
use mathlib.Core.Option.{map}
use tcp_proxy.Prelude.{
  ℕ, ◌+◌, ◌-◌, ◌<◌, ◌≡◌, refl, ◌⊎◌, true, false, ◌&&◌, none, some, List, [], ◌∷◌, ◌++◌, arith, ltb,
  if◌then◌else◌, length, get_elem?, take, drop,
}
use tcp_proxy.Prelude.Int.{pos, negsuc, leb_ℤ}
use tcp_proxy.Cli.{
  max_cmd_word_len, nofwords, nthword, nthwordptr, stripwhite, Commands, no_command, NewCommand,
  cli_addcmd, run, send, execute_line, PrintBuffer, bplen, bprint, incomplete_command,
  no_such_command,
}
use tcp_proxy.Cli.Words.{words, scanners-words}
use tcp_proxy.Cli.Tree.{execute_line-cli_addcmd, cli_addcmd_twice}
use tcp_proxy.Cli.Buffer.{done, print, joined, Prints-InBounds}

-- "ab  c" and "ab d"
abbrev first_line : List ℕ
first_line = 97 ∷ 98 ∷ 32 ∷ 32 ∷ 99 ∷ []

abbrev second_line : List ℕ
second_line = 97 ∷ 98 ∷ 32 ∷ 100 ∷ []

abbrev first_command : NewCommand
first_command = record {
  cmd = first_line;
  rmt = false;
  cmdfunc = some 1;
  doc = none;
  args = 0;
  cmdtype = pos 0;
}

abbrev second_command : NewCommand
second_command = record {
  cmd = second_line;
  rmt = true;
  cmdfunc = some 2;
  doc = none;
  args = 0;
  cmdtype = pos 0;
}

abbrev one_command : Commands
unfolding cli_addcmd
one_command = (cli_addcmd first_command no_command).0

scanners-words_example :
    (nofwords first_line ≡ length (words first_line))
    × (nthword first_line 2 ≡ map (take (max_cmd_word_len - 1)) (get_elem? (words first_line) 1))
    × (map words (nthwordptr first_line 2)
        ≡ (if ltb 1 (length (words first_line)) then some (drop 1 (words first_line)) else none))
scanners-words_example = scanners-words first_line 1

execute_line-cli_addcmd_example :
    execute_line (pos 4) (cli_addcmd second_command one_command).0 second_line
    ≡ (if second_command.rmt && leb_ℤ (pos 0) (pos 4) then send second_line else run 2 none)
unfolding cli_addcmd nofwords nthword tcp_proxy.HashMap.same_key
execute_line-cli_addcmd_example =
    execute_line-cli_addcmd second_command one_command (pos 4) 2 refl refl

cli_addcmd_twice_example :
    cli_addcmd second_command (cli_addcmd second_command one_command).0
    ≡ ((cli_addcmd second_command one_command).0, false)
cli_addcmd_twice_example = cli_addcmd_twice second_command one_command

abbrev small_buffer : PrintBuffer
small_buffer = record { bp_size = 81; bp_buffer = [] }

Prints-InBounds_example :
    (bplen (bprint (bprint small_buffer first_line).0 second_line).0
      < (bprint (bprint small_buffer first_line).0 second_line).0.bp_size)
    × (((bprint (bprint small_buffer first_line).0 second_line).0.bp_buffer
          ≡ [] ++ joined (first_line ∷ second_line ∷ []))
        ⊎ ((bprint (bprint small_buffer first_line).0 second_line).0.bp_size
            < bplen (bprint (bprint small_buffer first_line).0 second_line).0 + 80))
unfolding bplen
Prints-InBounds_example =
    Prints-InBounds (print (omega arith) (print (omega arith) done)) (omega arith)

-- The rest of the line goes to the function.
with_argument :
    execute_line (negsuc 0) one_command (97 ∷ 98 ∷ 32 ∷ 99 ∷ 32 ∷ 100 ∷ [])
    ≡ run 1 (some (100 ∷ []))
unfolding execute_line cli_addcmd nofwords nthword nthwordptr tcp_proxy.HashMap.same_key
with_argument = refl

incomplete : execute_line (negsuc 0) one_command (97 ∷ 98 ∷ []) ≡ incomplete_command (97 ∷ 98 ∷ [])
unfolding execute_line cli_addcmd nofwords nthword nthwordptr tcp_proxy.HashMap.same_key
incomplete = refl

unknown : execute_line (negsuc 0) one_command (98 ∷ 32 ∷ []) ≡ no_such_command (some (98 ∷ []))
unfolding execute_line cli_addcmd nofwords nthword nthwordptr tcp_proxy.HashMap.same_key
unknown = refl

stripped : stripwhite (32 ∷ 9 ∷ 97 ∷ 32 ∷ 98 ∷ 32 ∷ []) ≡ 97 ∷ 32 ∷ 98 ∷ []
unfolding stripwhite
stripped = refl
