-- ===== src/Fifo/Reads.antt =====
-- What a consumer does with one buffer.
use agh_sys_opy.Prelude.{
  ℕ, zero, suc, ◌+◌, ◌^◌, ◌<◌, ◌≤◌, ◌≡◌, refl, ap, ap₂, sym, ◌∙◌, Bool, false, ◌&&◌, not, List, [],
  ◌∷◌, ◌++◌, append_assoc, append-nil, length, length-append, take, drop, take-append, drop-append,
  leb, ◌==◌, arith,
}
use agh_sys_opy.Prelude.Int.{pos}
use agh_sys_opy.Text.{strtol, print_decimal}
use agh_sys_opy.Text.Words.{strtol-alone}
use agh_sys_opy.Text.Tokens.{Every, IsToken-Every, print_decimal-IsToken, print_decimal_fits}
use agh_sys_opy.Text.{c_string}
use agh_sys_opy.Fifo.{add_line}
use agh_sys_opy.Fifo.Consumer.{row_num_size, read_loop}
use agh_sys_opy.Fifo.Writes.{buffer_of}

-- A byte of a row for the consumer.
abbrev digit_byte : ℕ → Bool
digit_byte c = not (c == 255) && not (c == b' ')

-- One round for each byte of a row.
read_loop_row :
    (w : List ℕ) (total fuel n : ℕ) (row rest file : List ℕ)
    → total ≡ length w + fuel
    → Every digit_byte w
    → length row + length w ≤ row_num_size
    → read_loop total n row (w ++ rest) file ≡ read_loop fuel n (row ++ w) rest file
unfolding read_loop
read_loop_row [] total fuel n row rest file e h fits =
    ap₂ (λ t r. read_loop t n r rest file) (omega arith) (sym (append-nil row))
read_loop_row (c ∷ w) zero fuel n row rest file e h fits = absurd (omega arith)
read_loop_row (c ∷ w) (suc total) fuel n row rest file e h fits =
    let go_on : (c == 255) ≡ false = ground (arith, h.0) in
    let digit : (c == b' ') ≡ false = ground (arith, h.0) in
    let room : leb row_num_size (length row) ≡ false = ground (arith, fits) in
    rw (read_loop, go_on, room, digit)
      (read_loop_row w total fuel n (row ++ (c ∷ [])) rest file (omega arith) h.1
          (omega (arith, length-append row (c ∷ [])))
        ∙ ap (λ r. read_loop fuel n r rest file) (append_assoc row (c ∷ []) w))

read_loop_chunk :
    (fuel n k : ℕ) (row body rest file : List ℕ)
    → strtol row ≡ pos (suc k)
    → length row < row_num_size
    → 0 < n
    → length body ≡ n
    → read_loop (suc fuel) n row (b' ' ∷ (body ++ rest)) file
      ≡ read_loop fuel n [] rest (add_line file (c_string body) (suc k))
unfolding read_loop
read_loop_chunk fuel n k row [] rest file number fits some_byte e = absurd (omega arith)
read_loop_chunk fuel n k row (b ∷ body) rest file number fits some_byte e =
    let room : leb row_num_size (length row) ≡ false = ground (arith, fits) in
    let positive : (suc k == 0) ≡ false = ground arith in
    let taken : take n (b ∷ (body ++ rest)) ≡ b ∷ body = take-append n (b ∷ body) rest (sym e) in
    let dropped : drop n (b ∷ (body ++ rest)) ≡ rest =
      drop-append n 0 (b ∷ body) rest (omega arith) in
    rw (read_loop, room, number, taken, dropped, positive) refl

-- The rows that are numbers of lines, from 1 on, and fit an `int`.
pub print_decimal-row :
    (k : ℕ)
    → suc k < 2 ^ 31
    → Every digit_byte (print_decimal (suc k)) × (length (print_decimal (suc k)) < row_num_size)
print_decimal-row k h = (
  IsToken-Every digit_byte (print_decimal (suc k))
      (print_decimal-IsToken digit_byte (suc k) (λ d lt. ground arith)),
  omega (arith, print_decimal_fits (suc k) h),
)

-- A buffer for the line number `k`, from 1 on: its body is added to that line.
pub read_loop-buffer_of :
    (total fuel n k : ℕ) (body rest file : List ℕ)
    → total ≡ length (print_decimal (suc k)) + suc fuel
    → suc k < 2 ^ 31
    → 0 < n
    → length body ≡ n
    → read_loop total n [] (buffer_of (print_decimal (suc k)) body ++ rest) file
      ≡ read_loop fuel n [] rest (add_line file (c_string body) (suc k))
read_loop-buffer_of total fuel n k body rest file enough fits some_byte e =
    let (digits, short) = print_decimal-row k fits in
    ap (λ s. read_loop total n [] s file) (append_assoc (print_decimal (suc k)) (b' ' ∷ body) rest)
    ∙ read_loop_row (print_decimal (suc k)) total (suc fuel) n [] (b' ' ∷ (body ++ rest)) file
        enough digits (omega (arith, short))
    ∙ read_loop_chunk fuel n k (print_decimal (suc k)) body rest file (strtol-alone (suc k)) short
        some_byte e
