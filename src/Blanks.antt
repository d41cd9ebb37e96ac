-- ===== src/Blanks.antt =====
-- copy_and_remove_blanks of cw02/zad1/main_lib.c, on the bytes of a file; main_sys.c has the same loop
-- over read and lseek.
pub mod Lines
mod Walk
mod Buffers
pub mod Copy
pub mod Endless
mod Tests
use agh_sys_opy.Prelude.{
  ℕ, zero, suc, ◌+◌, ◌-◌, Bool, true, false, ◌||◌, List, [], ◌∷◌, ◌++◌, Option, none, some, ◌==◌,
  if◌then◌else◌, length, take, drop,
}
use agh_sys_opy.Text.{is_space}

abbrev pub buffer_size : ℕ
buffer_size = 1024

-- The locals of the inner loop, the place in the input file, and what was written.
pub record Scan : Type 0 where
  pub cur_start : ℕ
  pub is_blank : Bool
  pub position : ℕ
  pub written : List ℕ

abbrev pub see : ℕ → Scan → Scan
see c s = record s { is_blank = if is_space c then s.is_blank else false }

-- The end of a line: `buffer + cur_start` is written up to the byte `i`, where it is not blank.
abbrev pub end_line : List ℕ → ℕ → Scan → Scan
end_line buffer i s = record s {
  cur_start = suc i;
  is_blank = true;
  written =
      if s.is_blank
      then s.written
      else s.written ++ take (i - s.cur_start + 1) (drop s.cur_start buffer);
}

-- A line that the buffer cuts is read again: `fseek` to its start.
abbrev pub seek_back : ℕ → Scan → Scan
seek_back i s = record s { position = s.position + s.cur_start - suc i }

-- The byte `c` at the index `i` of a buffer of `size` bytes.
unfoldable pub scan_byte : ℕ → List ℕ → ℕ → ℕ → Scan → Scan
scan_byte size buffer i c s =
    let seen = see c s in
    if suc i == size
    then seek_back i seen
    else if (c == 10) || (suc i == length buffer)
    then end_line buffer i seen
    else seen

-- The inner loop, from the index `i` on.
unfoldable pub scan : ℕ → List ℕ → List ℕ → ℕ → Scan → Scan
unfolding scan_byte
scan size buffer [] i s = s
scan size buffer (c ∷ rest) i s = scan size buffer rest (suc i) (scan_byte size buffer i c s)

abbrev pub read_buffer : ℕ → List ℕ → ℕ → List ℕ
read_buffer size file position = take size (drop position file)

abbrev pub scan_buffer : ℕ → List ℕ → ℕ → List ℕ → Scan
scan_buffer size buffer position written = scan size buffer buffer 0 (record {
  cur_start = 0;
  is_blank = true;
  position = position + length buffer;
  written = written;
})

-- The outer loop. `none`: out of fuel.
unfoldable pub copy_file : ℕ → ℕ → List ℕ → ℕ → List ℕ → Option (List ℕ)
unfolding scan
copy_file size zero file position written = none
copy_file size (suc fuel) file position written =
    let buffer = read_buffer size file position in
    let s = scan_buffer size buffer position written in
    let rest = copy_file size fuel file s.position s.written in
    if length buffer == 0 then some s.written else rest

abbrev pub copy_and_remove_blanks : ℕ → List ℕ → Option (List ℕ)
copy_and_remove_blanks fuel file = copy_file buffer_size fuel file 0 []
