-- ===== src/Image/Pixels.antt =====
-- The pixels of an image and what the threads of cw08/zad1/main.c do to them. The definitions stand
-- for the code where every difference and width * height fit an `int`, as they do for values between
-- 0 and the maximum.
pub mod Columns
pub mod Blocks
pub mod Race
mod Tests
use agh_sys_opy.Prelude.{
  ℕ, zero, suc, ◌+◌, ◌-◌, ◌*◌, ◌/◌, ◌%◌, Bool, true, false, ◌&&◌, not, List, [], ◌∷◌, ◌==◌,
  if◌then◌else◌, ltb, write_at,
}
use agh_sys_opy.Prelude.Int.{ℤ, pos, negsuc, minus, ◌-ℤ◌, ltb_ℤ}

-- `struct Image`, with the array `values` as a function; it is read at indices below
-- width * height. The dimensions are positive.
pub record Image : Type 0 where
  pub width : ℕ
  pub height : ℕ
  pub max_pixel : ℤ
  pub values : ℕ → ℤ

abbrev pub size : Image → ℕ
size img = img.width * img.height

-- `/ 2` and `% n` on `int`, which round towards zero.
abbrev pub half : ℤ → ℤ
half (pos n) = pos (n / 2)
half (negsuc n) = minus (suc n / 2)

abbrev pub rem : ℤ → ℕ → ℤ
rem (pos a) n = pos (a % n)
rem (negsuc a) n = minus (suc a % n)

abbrev pub is_index : ℤ → ℕ → Bool
is_index (pos a) t = a == t
is_index (negsuc a) t = false

-- One pixel is negated, where the difference fits an `int`.
abbrev pub negate_at : ℤ → ℕ → (ℕ → ℤ) → ℕ → ℤ
negate_at max_pixel i values = write_at i (max_pixel -ℤ values i) values

-- The number by which the threads share the pixels in the mode `numbers`.
pub key : ℤ → ℤ → ℤ
key max_pixel value = if ltb_ℤ (half max_pixel) value then max_pixel -ℤ value else value

-- The body of the loop of `start_routine_numbers`, for the thread `index` of `threads_num`, while no
-- other thread writes the pixel.
pub numbers_at : ℤ → ℕ → ℕ → ℕ → (ℕ → ℤ) → ℕ → ℤ
numbers_at max_pixel threads_num index i values =
    if is_index (rem (key max_pixel (values i)) threads_num) index
    then negate_at max_pixel i values
    else values

-- The loop itself, with `n` rounds left, from `i` on.
pub numbers_loop : ℤ → ℕ → ℕ → ℕ → ℕ → (ℕ → ℤ) → ℕ → ℤ
numbers_loop max_pixel threads_num index zero i values = values
numbers_loop max_pixel threads_num index (suc n) i values =
    numbers_loop max_pixel threads_num index n (suc i)
      (numbers_at max_pixel threads_num index i values)

pub start_routine_numbers : Image → ℕ → ℕ → (ℕ → ℤ) → ℕ → ℤ
start_routine_numbers img threads_num index values =
    numbers_loop img.max_pixel threads_num index (img.height * img.width) 0 values

-- `ceil((double) width / threads_num)`
abbrev pub coef : ℕ → ℕ → ℕ
coef width threads_num = (width + threads_num - 1) / threads_num

-- The inner loop of `start_routine_block`: `for (j = i; j < size; j += width)`.
pub column_loop : ℕ → ℤ → ℕ → ℕ → ℕ → (ℕ → ℤ) → ℕ → ℤ
column_loop zero max_pixel width bound j values = values
column_loop (suc fuel) max_pixel width bound j values =
    let rest = column_loop fuel max_pixel width bound (j + width) (negate_at max_pixel j values) in
    if ltb j bound then rest else values

-- The outer loop: `for (i = left_end; i < right_end && i < width; ++i)`, with `n` rounds to
-- `right_end` left. The inner loop makes `height` rounds.
pub block_loop : ℕ → Image → ℕ → (ℕ → ℤ) → ℕ → ℤ
block_loop zero img i values = values
block_loop (suc n) img i values =
    let rest =
      block_loop n img (suc i)
        (column_loop img.height img.max_pixel img.width (size img) i values) in
    if ltb i img.width then rest else values

pub start_routine_block : Image → ℕ → ℕ → (ℕ → ℤ) → ℕ → ℤ
unfolding block_loop column_loop
start_routine_block img threads_num index values =
    let left_end = index * coef img.width threads_num in
    block_loop (coef img.width threads_num) img left_end values
