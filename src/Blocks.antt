-- ===== src/Blocks.antt =====
-- cw01/zad1/mylib.c: an array of blocks, each the numbers of lines, words and bytes that `wc` counts
-- in some files. `none` stands for undefined behaviour. Failed allocations and errors of the file
-- system are not modelled; numbers fit their types.
pub mod Command
pub mod Places
pub mod Array
pub mod Driver
mod Tests
use agh_sys_opy.Prelude.{
  ℕ, not, get_elem?, set, zero, suc, ◌+◌, ◌-◌, Bool, true, false, ◌&&◌, List, [], ◌∷◌, ◌++◌, Option,
  none, some, ◌==◌, ltb, leb, if◌then◌else◌, length, replicate, str_eq,
}
use agh_sys_opy.Prelude.Int.{ℤ, pos, negsuc}
use agh_sys_opy.Text.{is_space, strtol, print_decimal, getline, tokens}

pub record FileInfo : Type 0 where
  pub lines : ℤ
  pub words : ℤ
  pub chars : ℤ
  pub filename : Option (List ℕ)

pub record Block : Type 0 where
  pub block_length : ℕ
  pub files : Option (List FileInfo)

abbrev pub prg : List ℕ
prg = b'w' ∷ b'c' ∷ b' ' ∷ []

abbrev pub redir : List ℕ
redir = b'1' ∷ b'>' ∷ b'>' ∷ []

-- `char_quant`, the size of the command in bytes.
unfoldable pub char_quant : List (List ℕ) → List ℕ → ℕ
char_quant [] temp_filename = length prg + length redir + length temp_filename + 1
char_quant (f ∷ files) temp_filename = char_quant files temp_filename + (length f + 1)

-- `strcat` to the text in an array of `size` bytes.
abbrev pub strcat : ℕ → List ℕ → List ℕ → Option (List ℕ)
strcat size text s = if ltb (length text + length s) size then some (text ++ s) else none

-- The loop over the files. The blank takes the place of the NUL, the bytes behind it are 0.
unfoldable pub add_files : ℕ → List ℕ → List (List ℕ) → Option (List ℕ)
add_files size text [] = some text
add_files size text (f ∷ files) = elim (strcat size text f) [
  | none ↦ none
  | some longer ↦ elim (strcat size longer (b' ' ∷ [])) [
    | none ↦ none
    | some spaced ↦ add_files size spaced files
  ]
]

unfoldable pub create_command : List (List ℕ) → List ℕ → Option (List ℕ)
unfolding char_quant add_files
create_command files temp_filename =
    let size = char_quant files temp_filename in
    elim (strcat size [] prg) [
      | none ↦ none
      | some text ↦ elim (add_files size text files) [
        | none ↦ none
        | some named ↦ elim (strcat size named redir) [
          | none ↦ none
          | some redirected ↦ strcat size redirected temp_filename
        ]
      ]
    ]

abbrev pub is_free : Block → Bool
is_free b = elim b.files [ none ↦ true | some infos ↦ false ]

-- The loop of `find_free_index`, which reads a block before it tests the index.
unfoldable pub find_free_from : ℕ → List Block → ℕ → Option ℕ
find_free_from i [] len = none
find_free_from i (b ∷ blocks) len =
    let later = find_free_from (suc i) blocks len in
    if not (is_free b) && ltb i len then later else some i

-- The index, or -1 as `none`.
unfoldable pub find_free_index : List Block → ℕ → Option (Option ℕ)
unfolding find_free_from
find_free_index blocks len = elim (find_free_from 0 blocks len) [
  | none ↦ none
  | some i ↦ some (if i == len then none else some i)
]

abbrev pub empty_block : Block
empty_block = record { block_length = 0; files = none }

-- `create_array` at a positive size.
abbrev pub create_array : ℕ → List Block
create_array array_size = replicate array_size empty_block

-- What is written to the temporary file: the number of the files, and what the shell adds to it for
-- the command.
unfoldable pub count_to_file : (List ℕ → List ℕ) → List ℕ → List (List ℕ) → Option (List ℕ)
unfolding create_command
count_to_file shell temp_filename files = elim (create_command files temp_filename) [
  | none ↦ none
  | some command ↦ some (print_decimal (length files) ++ (10 ∷ shell command))
]

-- `name`: cleared by `calloc`, and only copied from.
abbrev pub name : List ℕ
name = []

abbrev pub total : List ℕ
total = b't' ∷ b'o' ∷ b't' ∷ b'a' ∷ b'l' ∷ []

abbrev pub info_of : List (List ℕ) → Option FileInfo
info_of (l ∷ w ∷ c ∷ token ∷ rest) =
    some (record { lines = strtol l; words = strtol w; chars = strtol c; filename = some name })
info_of _ = none

abbrev pub unread_info : FileInfo
unread_info = record { lines = pos 0; words = pos 0; chars = pos 0; filename = none }

-- The loop of `file_to_memory` with `n` rounds left: the entries, `i` behind it, and what is left of
-- the file.
unfoldable pub read_infos : ℕ → ℕ → List ℕ → Option (List FileInfo × ℕ × List ℕ)
read_infos zero i file = some ([], i, file)
read_infos (suc n) i [] = some (replicate (suc n) unread_info, i, [])
read_infos (suc n) i (c ∷ file) =
    let (line, behind) = getline (c ∷ file) in
    elim (info_of (tokens is_space line)) [
      | none ↦ none
      | some info ↦ elim (read_infos n (suc i) behind) [
        | none ↦ none
        | some (infos, last, rest) ↦ some (info ∷ infos, last, rest)
      ]
    ]

abbrev pub is_nil : List ℕ → Bool
is_nil [] = true
is_nil (c ∷ rest) = false

-- `blocks[index].length`: without the last line that was read where it is the total.
abbrev pub length_without_total : ℕ → ℕ → List ℕ → ℕ
length_without_total n i rest = if is_nil rest && (str_eq name total && ltb 1 n) then i - 1 else n

unfoldable pub read_block : List ℕ → Option Block
unfolding read_infos
read_block file =
    let (line, behind) = getline file in
    elim (strtol line) [
      | negsuc n ↦ none
      | pos n ↦ elim (read_infos n 0 behind) [
        | none ↦ none
        | some (infos, i, rest) ↦
            some (record { block_length = length_without_total n i rest; files = some infos })
      ]
    ]

-- The array and the index, or -1 as `none`.
unfoldable pub file_to_memory : List Block → ℕ → List ℕ → Option (List Block × Option ℕ)
unfolding find_free_index read_block
file_to_memory blocks blocks_length file =
    if blocks_length == 0
    then some (blocks, none)
    else elim (find_free_index blocks blocks_length) [
      | none ↦ none
      | some none ↦ some (blocks, none)
      | some (some index) ↦ elim (read_block file) [
        | none ↦ none
        | some b ↦ some (set blocks index b, some index)
      ]
    ]

-- The names of the entries are freed, up to `length`, and `files` becomes NULL.
abbrev pub freed : Block → Option Block
freed b = elim b.files [
  | none ↦ some b
  | some infos ↦
      if ltb (length infos) b.block_length then none else some (record b { files = none })
]

unfoldable pub free_block : List Block → ℕ → ℕ → Option (List Block)
free_block blocks len index = if leb len index then some blocks else elim (get_elem? blocks index) [
  | none ↦ none
  | some b ↦ elim (freed b) [ none ↦ none | some c ↦ some (set blocks index c) ]
]

-- The loop of `free_block_array`, with `n` rounds left.
unfoldable pub free_each : ℕ → ℕ → List Block → ℕ → Option (List Block)
unfolding free_block
free_each zero i blocks len = some blocks
free_each (suc n) i blocks len = elim (free_block blocks len i) [
  | none ↦ none
  | some rest ↦ free_each n (suc i) rest len
]

-- Whether `free_block_array` is defined.
unfoldable pub free_block_array : Option (List Block) → ℕ → Bool
unfolding free_each
free_block_array none len = true
free_block_array (some blocks) len = elim (free_each len 0 blocks len) [
  | none ↦ false
  | some rest ↦ true
]
