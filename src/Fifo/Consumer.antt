-- ===== src/Fifo/Consumer.antt =====
-- consumer.c of cw05/zad3: read_from_fifo, from the bytes of the FIFO to the bytes of the file.
use agh_sys_opy.Prelude.{
  ℕ, zero, suc, List, [], ◌∷◌, ◌++◌, length, take, drop, leb, ◌==◌, if◌then◌else◌,
}
use agh_sys_opy.Prelude.Int.{ℤ, pos, negsuc}
use agh_sys_opy.Text.{c_string, strtol}
use agh_sys_opy.Fifo.{add_line}

-- The end, with what the file holds; an array that overflows is undefined.
pub data Outcome : Type 0 where
  finished : List ℕ → Outcome
  exited : List ℕ → Outcome
  undefined : Outcome
  out_of_fuel : Outcome

abbrev pub row_num_size : ℕ
row_num_size = 20

-- What follows a row: the file before, the chunk, and the loop behind it. The file is gone when the
-- chunk turns out to be empty.
abbrev pub add_chunk : ℤ → List ℕ → List ℕ → (List ℕ → Outcome) → Outcome
add_chunk (negsuc n) file chunk later = exited file
add_chunk (pos row_num) file chunk later =
    if row_num == 0
    then exited file
    else elim chunk [ [] ↦ exited [] | c ∷ cs ↦ later (add_line file (c_string (c ∷ cs)) row_num) ]

-- The loop, with the bytes of `row_num_arr` so far. Each round reads a byte at least, so that the
-- length of the FIFO and one more are enough fuel. `c` is a `char`, in which 255 is `EOF`.
unfoldable pub read_loop : ℕ → ℕ → List ℕ → List ℕ → List ℕ → Outcome
unfolding add_line
read_loop zero chars_num row fifo file = out_of_fuel
read_loop (suc fuel) chars_num row [] file = finished file
read_loop (suc fuel) chars_num row (c ∷ fifo) file =
    let after_row = read_loop fuel chars_num [] (drop chars_num fifo) in
    let after_digit = read_loop fuel chars_num (row ++ (c ∷ [])) fifo file in
    if c == 255
    then finished file
    else if leb row_num_size (length row)
    then undefined
    else if c == b' '
    then add_chunk (strtol row) file (take chars_num fifo) after_row
    else after_digit

unfoldable pub read_from_fifo : ℕ → List ℕ → List ℕ → Outcome
unfolding read_loop
read_from_fifo chars_num fifo file = read_loop (suc (length fifo)) chars_num [] fifo file
