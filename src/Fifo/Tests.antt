-- ===== src/Fifo/Tests.antt =====
-- Lines added to a small file.
use agh_sys_opy.Prelude.{
  zero, suc, ◌^◌, ◌<◌, ◌++◌, map, length, none, some, ap, sym, arith, ℕ, ◌≡◌, refl, List, [], ◌∷◌,
}
use agh_sys_opy.Text.Strings.{NoNul}
use agh_sys_opy.Fifo.{add_line, copy_lines, add_missing, write_line}
use agh_sys_opy.Text.{
  print_decimal, digits, strtol, read_signed, read_digits, strip_newline, getline,
}
use agh_sys_opy.Fifo.Lines.{render, add_line-append_at}
use agh_sys_opy.Fifo.Producer.{replace_behind, remove_newlines, copy_chunks, read_to_fifo}
use agh_sys_opy.Fifo.Consumer.{finished, exited, read_loop, read_from_fifo}
use agh_sys_opy.Fifo.Writes.{tab}
use agh_sys_opy.Fifo.Chunks.{InOnePiece}
use agh_sys_opy.Fifo.Delivery.{
  Writings, all_bytes, buffers_of, row, line_at, read_from_fifo-read_to_fifo,
}

abbrev two_lines : List (List ℕ)
two_lines = (b'a' ∷ []) ∷ (b'b' ∷ []) ∷ []

-- Where the last line has no newline, a text for the line behind it joins it.
unfinished_line : add_line (b'a' ∷ []) (b'x' ∷ []) 2 ≡ b'a' ∷ b'x' ∷ 10 ∷ []
unfolding add_line copy_lines add_missing getline write_line strip_newline
unfinished_line = refl

add_line-append_at_example :
    add_line (render two_lines) (b'x' ∷ []) 4
    ≡ render ((b'a' ∷ []) ∷ (b'b' ∷ []) ∷ [] ∷ (b'x' ∷ []) ∷ [])
add_line-append_at_example =
    add_line-append_at two_lines 3 (b'x' ∷ []) ((refl, tt), ((refl, tt), tt))

-- The first producer has two chunks of two bytes, the third one a short one.
abbrev files : ℕ → List ℕ
files zero = b'a' ∷ b'b' ∷ 10 ∷ b'c' ∷ []
files (suc zero) = []
files (suc (suc zero)) = b'x' ∷ []
files (suc (suc (suc j))) = []

abbrev writings : Writings
writings =
    (0, b'1' ∷ b' ' ∷ b'a' ∷ b'b' ∷ [])
    ∷ (2, b'3' ∷ b' ' ∷ b'x' ∷ 0 ∷ [])
    ∷ (0, b'1' ∷ b' ' ∷ 9 ∷ b'c' ∷ [])
    ∷ []

files-NoNul : (j : ℕ) → NoNul (files j)
files-NoNul zero = (refl, (refl, (refl, (refl, tt))))
files-NoNul (suc zero) = tt
files-NoNul (suc (suc zero)) = (refl, tt)
files-NoNul (suc (suc (suc j))) = tt

files_fit : (j : ℕ) → 0 < length (files j) → suc j < 2 ^ 31
files_fit zero h = omega arith
files_fit (suc zero) h = omega arith
files_fit (suc (suc zero)) h = omega arith
files_fit (suc (suc (suc j))) h = absurd (omega arith)

files_whole : (j : ℕ) → 0 < length (files j) → InOnePiece (row j) 2
unfolding print_decimal digits
files_whole zero h = omega arith
files_whole (suc zero) h = absurd (omega arith)
files_whole (suc (suc zero)) h = omega arith
files_whole (suc (suc (suc j))) h = absurd (omega arith)

no_more : (j : ℕ) → buffers_of (suc (suc (suc j))) writings ≡ []
no_more j = ground arith

files_written : (j : ℕ) → read_to_fifo 0 (row j) (files j) 2 ≡ some (buffers_of j writings)
unfolding read_to_fifo copy_chunks remove_newlines replace_behind print_decimal digits
files_written zero = refl
files_written (suc zero) = refl
files_written (suc (suc zero)) = refl
files_written (suc (suc (suc j))) = ap some (sym (no_more j))

read_from_fifo-read_to_fifo_example :
    (ends : List (List ℕ)) × (read_from_fifo 2 (all_bytes writings) (render two_lines)
      ≡ finished (render ends))
    × ((i : ℕ) → line_at i ends ≡ line_at i two_lines ++ map tab (files i))
read_from_fifo-read_to_fifo_example =
    read_from_fifo-read_to_fifo 1 files writings two_lines files-NoNul files_fit files_whole
      files_written ((refl, tt), ((refl, tt), tt))

-- A chunk that fills the buffer, with a byte behind it that is not 0.
unterminated : read_to_fifo 7 (b'1' ∷ []) (b'a' ∷ b'b' ∷ []) 2 ≡ none
unfolding read_to_fifo copy_chunks remove_newlines replace_behind
unterminated = refl

-- Where the FIFO ends behind a row, the file is lost.
lost_file : read_from_fifo 2 (b'1' ∷ b' ' ∷ []) (render two_lines) ≡ exited []
unfolding read_from_fifo read_loop strtol read_signed read_digits
lost_file = refl
