-- ===== src/Fifo/Producer.antt =====
-- producer.c of cw05/zad3: the buffers that read_to_fifo writes to the FIFO, one for each chunk of
-- its file.
use agh_sys_opy.Prelude.{
  ℕ, zero, suc, ◌+◌, List, [], ◌∷◌, ◌++◌, length, take, drop, set, replicate, Option, none, some,
  ltb, ◌==◌, if◌then◌else◌,
}

-- The pointer is behind a byte that is not the NUL. `slack` is the byte behind the array, which is
-- read where the array has no NUL; `none` where the loop goes on behind it.
unfoldable pub replace_behind : ℕ → List ℕ → Option (List ℕ)
replace_behind slack [] = if slack == 0 then some [] else none
replace_behind slack (c ∷ rest) =
    let byte = if c == 10 then 9 else c in
    let later = replace_behind slack rest in
    if byte == 0
    then some (c ∷ rest)
    else elim later [ none ↦ none | some bytes ↦ some (byte ∷ bytes) ]

unfoldable pub remove_newlines : ℕ → List ℕ → Option (List ℕ)
unfolding replace_behind
remove_newlines slack [] = none
remove_newlines slack (c ∷ rest) =
    if c == 0
    then some (c ∷ rest)
    else elim (replace_behind slack rest) [ none ↦ none | some bytes ↦ some (c ∷ bytes) ]

-- `calloc`, `strcpy` of the row and the blank.
abbrev pub first_buffer : List ℕ → ℕ → List ℕ
first_buffer row_num chars_num = row_num ++ (b' ' ∷ replicate chars_num 0)

-- `fread` to the place behind the blank, and the NUL behind a chunk that is short.
abbrev pub read_chunk : List ℕ → ℕ → List ℕ → List ℕ → List ℕ
read_chunk row_num chars_num chunk buffer =
    let place = length row_num + 1 in
    let filled = take place buffer ++ (chunk ++ drop (place + length chunk) buffer) in
    if ltb (length chunk) chars_num then set filled (length chunk + place) 0 else filled

-- `PIPE_BUF`: what the kernel writes to a FIFO as one piece.
abbrev pub pipe_buf : ℕ
pipe_buf = 4096

-- The loop, up to `fflush`. The lock is given up before it, so that a buffer of more bytes may mix
-- with those of other producers: `none`. Each round reads a byte at least, so that the length of the file and one more are
-- enough fuel; `none` also where the fuel does not last.
unfoldable pub copy_chunks : ℕ → ℕ → List ℕ → ℕ → List ℕ → List ℕ → Option (List (List ℕ))
unfolding remove_newlines
copy_chunks slack zero row_num chars_num buffer file = none
copy_chunks slack (suc fuel) row_num chars_num buffer file = elim (take chars_num file) [
  | [] ↦ some []
  | c ∷ cs ↦ elim (remove_newlines slack (read_chunk row_num chars_num (c ∷ cs) buffer)) [
    | none ↦ none
    | some next ↦
        let later = copy_chunks slack fuel row_num chars_num next (drop chars_num file) in
        if ltb pipe_buf (chars_num + length row_num + 1)
        then none
        else elim later [ none ↦ none | some buffers ↦ some (next ∷ buffers) ]
  ]
]

unfoldable pub read_to_fifo : ℕ → List ℕ → List ℕ → ℕ → Option (List (List ℕ))
unfolding copy_chunks
read_to_fifo slack row_num file chars_num =
    copy_chunks slack (suc (length file)) row_num chars_num (first_buffer row_num chars_num) file
