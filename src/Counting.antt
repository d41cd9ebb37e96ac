-- ===== src/Counting.antt =====
-- count_chars_and_lines of cw02/zad2/main_lib.c, on the bytes of a file; main_sys.c has the same loop
-- over read. The counters fit an `int`.
pub mod Lines
mod Tests
use agh_sys_opy.Prelude.{
  ℕ, zero, suc, Bool, true, false, List, [], ◌∷◌, Option, none, some, ◌==◌, if◌then◌else◌, length,
  take, drop,
}

abbrev pub buffer_size : ℕ
buffer_size = 1024

pub record Counts : Type 0 where
  pub count_char : ℕ
  pub count_line : ℕ
  pub was_line_used : Bool

-- One byte of the buffer: a newline begins a line that is not used.
abbrev pub begin_line : ℕ → Counts → Counts
begin_line c s = if c == 10 then record s { was_line_used = false } else s

abbrev pub found : Counts → Counts
found s = record {
  count_char = suc s.count_char;
  count_line = if s.was_line_used then s.count_line else suc s.count_line;
  was_line_used = true;
}

abbrev pub count_byte : ℕ → Counts → ℕ → Counts
count_byte to_find s c = if c == to_find then found (begin_line c s) else begin_line c s

unfoldable pub count_buffer : ℕ → Counts → List ℕ → Counts
count_buffer to_find s [] = s
count_buffer to_find s (c ∷ buffer) = count_buffer to_find (count_byte to_find s c) buffer

-- The outer loop, with a buffer of `size` bytes. `none`: out of fuel.
unfoldable pub count_file : ℕ → ℕ → ℕ → Counts → List ℕ → Option Counts
unfolding count_buffer
count_file size zero to_find s file = none
count_file size (suc fuel) to_find s file =
    let next = count_buffer to_find s (take size file) in
    let rest = count_file size fuel to_find next (drop size file) in
    if length (take size file) == 0 then some next else rest

-- A buffer that is not empty has a byte at least.
unfoldable pub count_chars_and_lines : ℕ → List ℕ → Option Counts
unfolding count_file
count_chars_and_lines to_find file =
    count_file buffer_size (suc (length file)) to_find
      (record { count_char = 0; count_line = 0; was_line_used = false }) file
