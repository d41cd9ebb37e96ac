-- ===== src/Pipeline/Tests.antt =====
-- A file with one component of two commands, and two pipelines.
use agh_sys_opy.Prelude.{ℕ, ◌≡◌, refl, List, [], ◌∷◌, none, some, arith}
use agh_sys_opy.Text.{strtok_at, cut_at, skip_delim, tokens, scan}
use agh_sys_opy.Pipeline.{Component, Executable, Process}
use agh_sys_opy.Pipeline.Run.{waited, find_component, exec_commands}
use agh_sys_opy.Pipeline.Wiring.{
  Names, done, next, chain, Writes, Reads, exec_commands-chain, exec_commands_shared,
}
use agh_sys_opy.Pipeline.Parse.{
  count_lines, count_from, parse_file, parse_component, parse_commands, parse_command, trim_name,
  count_words, count_words_from,
}
use agh_sys_opy.Pipeline.Parse.RoundTrip.{print_file, parse_file-print_file}

-- `a = ls -l | wc`
abbrev ls : List (List ℕ)
ls = (b'l' ∷ b's' ∷ []) ∷ (b'-' ∷ b'l' ∷ []) ∷ []

abbrev wc : List (List ℕ)
wc = (b'w' ∷ b'c' ∷ []) ∷ []

abbrev a : Component
a = record { name = b'a' ∷ []; cmds = ls ∷ wc ∷ [] }

abbrev once : Executable
once = (b'a' ∷ []) ∷ []

abbrev twice : Executable
twice = (b'a' ∷ []) ∷ (b'a' ∷ []) ∷ []

abbrev file : List ℕ
file = print_file (a ∷ []) (once ∷ twice ∷ [])

file_counts : count_lines file ≡ (1, 2)
unfolding count_lines count_from
file_counts = refl

-- A space in front of the newline leaves one word more than `count_words` counts.
space_at_end : parse_component (b'a' ∷ b'=' ∷ b' ' ∷ b'w' ∷ b'c' ∷ b' ' ∷ 10 ∷ []) ≡ none
unfolding parse_component parse_commands parse_command trim_name count_words count_words_from
    strtok_at cut_at skip_delim tokens scan
space_at_end = refl

once-Names : Names (a ∷ []) once (ls ∷ wc ∷ [])
unfolding find_component
once-Names = next refl refl done

twice-Names : Names (a ∷ []) twice (ls ∷ wc ∷ ls ∷ wc ∷ [])
unfolding find_component
twice-Names = next refl refl (next refl refl done)

exec_commands-chain_example :
    exec_commands (a ∷ []) twice ≡ waited (chain 0 (ls ∷ wc ∷ ls ∷ wc ∷ []))
exec_commands-chain_example =
    exec_commands-chain (a ∷ []) twice (ls ∷ wc ∷ ls ∷ wc ∷ []) twice-Names

exec_commands_shared_example :
    (ps : List Process) × (exec_commands (a ∷ []) twice ≡ waited ps)
    × Writes ps 0 1
    × Writes ps 2 1
    × Reads ps 1 1
    × Reads ps 3 1
exec_commands_shared_example = exec_commands_shared (a ∷ []) twice ls wc ls wc [] twice-Names

a-IsComponent : agh_sys_opy.Pipeline.Parse.Components.AllComponents (a ∷ [])
a-IsComponent = (
  (
    (refl, tt),
    (((refl, (refl, tt)), ((refl, (refl, tt)), tt)), (((refl, (refl, tt)), tt), tt)),
    omega arith,
    omega arith,
  ),
  tt,
)

both-AllPipelines : agh_sys_opy.Pipeline.Parse.Executables.AllPipelines (once ∷ twice ∷ [])
both-AllPipelines = (
  (((refl, tt), tt), omega arith, omega arith),
  ((((refl, tt), ((refl, tt), tt)), omega arith, omega arith), tt),
)

file_parsed : parse_file file ≡ some (a ∷ [], once ∷ twice ∷ [])
file_parsed =
    parse_file-print_file (a ∷ []) (once ∷ twice ∷ []) a-IsComponent both-AllPipelines (omega arith)

parse_file-print_file_example : parse_file file ≡ some (a ∷ [], once ∷ twice ∷ [])
parse_file-print_file_example =
    parse_file-print_file (a ∷ []) (once ∷ twice ∷ []) a-IsComponent both-AllPipelines (omega arith)
