-- ===== src/Pipeline/Parse.antt =====
-- count_lines, count_words and parse_file of cw05/zad1/main.c, on the bytes of a file.
pub mod Words
pub mod Counts
pub mod Components
pub mod Executables
pub mod RoundTrip
use agh_sys_opy.Prelude.{
  ℕ, zero, suc, ◌+◌, ◌*◌, ◌/◌, Bool, true, false, ◌&&◌, ◌||◌, not, List, [], ◌∷◌, map, Option, none,
  some, ◌==◌, ltb, if◌then◌else◌, length, take,
}
use agh_sys_opy.Text.{is_space, strip_newline, getline, strtok_at, tokens}
use agh_sys_opy.Pipeline.{Component, Executable, max_size, component_bytes, executable_bytes}

-- The loop of `count_lines`: `second` is `i`, the counter that grows, and `was_n` tells that the
-- last byte was a newline.
unfoldable pub count_from : Bool → Bool → List ℕ → ℕ × ℕ
count_from second was_n [] = if was_n then (0, 0) else (0, 1)
count_from second was_n (c ∷ file) =
    let newline = c == 10 in
    let (first_lines, second_lines) = count_from (second || (newline && was_n)) newline file in
    if newline && not was_n
    then (if second then (first_lines, suc second_lines) else (suc first_lines, second_lines))
    else (first_lines, second_lines)

unfoldable pub count_lines : List ℕ → ℕ × ℕ
unfolding count_from
count_lines file = count_from false false file

-- The loop of `count_words`, up to the NUL.
unfoldable pub count_words_from : Bool → List ℕ → ℕ
count_words_from inword [] = if inword then 1 else 0
count_words_from inword (c ∷ str) =
    let rest = count_words_from (not (is_space c)) str in
    if is_space c && inword then suc rest else rest

unfoldable pub count_words : List ℕ → ℕ
unfolding count_words_from
count_words str = count_words_from false str

-- The name of a component: one space at its end is taken off.
unfoldable pub trim_name : List ℕ → List ℕ
trim_name [] = []
trim_name (c ∷ []) = if is_space c then [] else c ∷ []
trim_name (c ∷ d ∷ rest) = c ∷ trim_name (d ∷ rest)

-- The words of a command. The array has room for `count_words` of them and a NULL; more words leave
-- it without the NULL, past which `execvp` and `free_all` read: `none`.
unfoldable pub parse_command : List ℕ → Option (List (List ℕ))
unfolding count_words
parse_command temp =
    let words = map strip_newline (tokens (λ c. c == b' ') temp) in
    if ltb (count_words temp) (length words) then none else some words

unfoldable pub parse_commands : List (List ℕ) → Option (List (List (List ℕ)))
unfolding parse_command
parse_commands [] = some []
parse_commands (t ∷ ts) = elim (parse_command t) [
  | none ↦ none
  | some cmd ↦ elim (parse_commands ts) [ none ↦ none | some cmds ↦ some (cmd ∷ cmds) ]
]

-- A line that names a component; `none` also where it has no name, which is NULL.
abbrev pub with_commands : List ℕ → Option (List (List (List ℕ))) → Option Component
with_commands token none = none
with_commands token (some cmds) = some (record { name = trim_name token; cmds = cmds })

unfoldable pub parse_component : List ℕ → Option Component
unfolding parse_commands trim_name
parse_component line = elim (strtok_at b'=' line) [
  | none ↦ none
  | some (token, rest) ↦
      with_commands token (parse_commands (take max_size (tokens (λ c. c == b'|') rest)))
]

abbrev pub is_empty_line : List ℕ → Bool
is_empty_line [] = false
is_empty_line (c ∷ line) = c == 10

-- The first loop of `parse_file`, with room for `room` components more, and the file behind the
-- empty line. Each line has a byte, so the length of the file is enough fuel. `none` stands for
-- undefined behaviour, as a write behind the array.
unfoldable pub parse_components : ℕ → ℕ → List ℕ → Option (List Component × List ℕ)
unfolding parse_component
parse_components zero room file = some ([], file)
parse_components (suc fuel) room [] = some ([], [])
parse_components (suc fuel) room (c ∷ file) =
    let (line, behind) = getline (c ∷ file) in
    elim (is_empty_line line) [
      | true ↦ some ([], behind)
      | false ↦ elim room [
        | zero ↦ none
        | suc left ↦ elim (parse_component line) [
          | none ↦ none
          | some comp ↦ elim (parse_components fuel left behind) [
            | none ↦ none
            | some (comps, rest) ↦ some (comp ∷ comps, rest)
          ]
        ]
      ]
    ]

unfoldable pub parse_executable : List ℕ → Executable
parse_executable line =
    map strip_newline (take max_size (tokens (λ c. c == b' ' || c == b'|') line))

-- The second loop.
unfoldable pub parse_executables : ℕ → ℕ → List ℕ → Option (List Executable)
unfolding parse_executable
parse_executables zero room file = some []
parse_executables (suc fuel) room [] = some []
parse_executables (suc fuel) room (c ∷ file) =
    let (line, behind) = getline (c ∷ file) in
    elim room [
      | zero ↦ none
      | suc left ↦ elim (parse_executables fuel left behind) [
        | none ↦ none
        | some lines ↦ some (parse_executable line ∷ lines)
      ]
    ]

-- The array for the pipelines is allocated in units of a component, so it has room for half as many
-- again.
abbrev pub executables_room : ℕ → ℕ
executables_room count = count * component_bytes / executable_bytes

abbrev pub with_executables :
    List Component → Option (List Executable) → Option (List Component × List Executable)
with_executables comps none = none
with_executables comps (some lines) = some (comps, lines)

unfoldable pub parse_file : List ℕ → Option (List Component × List Executable)
unfolding count_lines parse_components parse_executables
parse_file file = elim (parse_components (length file) (count_lines file).0 file) [
  | none ↦ none
  | some (comps, rest) ↦
      with_executables comps
        (parse_executables (length rest) (executables_room (count_lines file).1) rest)
]
