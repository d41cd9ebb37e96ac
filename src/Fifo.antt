-- ===== src/Fifo.antt =====
-- Producers and consumers over a FIFO: cw05/zad3. Here `add_line` of consumer.c, on the bytes of a
-- file.
pub mod Lines
pub mod Producer
pub mod Consumer
pub mod Writes
pub mod Chunks
pub mod Reads
pub mod Delivery
mod Tests
use agh_sys_opy.Prelude.{
  ℕ, zero, suc, ◌+◌, ◌-◌, Bool, true, false, List, [], ◌∷◌, ◌++◌, length, replicate, ltb, ◌==◌,
  if◌then◌else◌,
}
use agh_sys_opy.Text.{getline, strip_newline}

abbrev pub newline : ℕ
newline = 10

-- The body of the first loop: what is written for the line number `i`.
unfoldable pub write_line : List ℕ → ℕ → ℕ → List ℕ → List ℕ
unfolding strip_newline
write_line to_add row_num i line =
    if i == row_num then strip_newline line ++ (to_add ++ (newline ∷ [])) else line

-- The first loop, after `i` lines: what it writes, and `i` at its end. Each round reads a byte at
-- least, so the length of the file is enough fuel.
unfoldable pub copy_lines : ℕ → List ℕ → ℕ → ℕ → List ℕ → List ℕ × ℕ
unfolding getline write_line
copy_lines zero to_add row_num i file = ([], i)
copy_lines (suc fuel) to_add row_num i [] = ([], i)
copy_lines (suc fuel) to_add row_num i (c ∷ rest) =
    let (line, behind) = getline (c ∷ rest) in
    let (out, n) = copy_lines fuel to_add row_num (suc i) behind in
    (write_line to_add row_num (suc i) line ++ out, n)

-- What is written behind the copy, for a row that the file does not have.
unfoldable pub add_missing : List ℕ → ℕ → List ℕ × ℕ → List ℕ
add_missing to_add row_num (out, i) =
    if ltb i row_num
    then out ++ (replicate (row_num - i - 1) newline ++ (to_add ++ (newline ∷ [])))
    else out

unfoldable pub add_line : List ℕ → List ℕ → ℕ → List ℕ
unfolding copy_lines add_missing
add_line file to_add row_num =
    add_missing to_add row_num (copy_lines (length file) to_add row_num 0 file)
