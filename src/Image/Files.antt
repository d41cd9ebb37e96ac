-- ===== src/Image/Files.antt =====
-- save_image and read_image of cw08/zad1/main.c, on the bytes of a file, for numbers that fit an
-- `int`, width * height included. What read_image does after a negative dimension is left out.
pub mod Lines
pub mod Values
pub mod RoundTrip
pub mod Width
pub mod Ending
mod Tests
use agh_sys_opy.Prelude.{
  ℕ, zero, suc, ◌+◌, ◌-◌, ◌*◌, Bool, true, false, ◌||◌, List, [], ◌∷◌, ◌++◌, Option, none, some,
  length, ltb, ◌==◌, if◌then◌else◌, write_at,
}
use agh_sys_opy.Prelude.Int.{ℤ, pos, negsuc}
use agh_sys_opy.Text.{print_decimal, print_int, strtol, tokens, fgets}
use agh_sys_opy.Image.Pixels.{Image, size}

abbrev pub max_line : ℕ
max_line = 100

-- The body of the loop of `save_image`: what is written for a value that prints as `buffer`, and
-- `cur_line_len` behind it.
unfoldable pub write_value : List ℕ → ℕ → List ℕ × ℕ
write_value buffer cur_line_len =
    if ltb (cur_line_len + length buffer + 1) max_line
    then ((if cur_line_len == 0 then buffer else b' ' ∷ buffer), cur_line_len + (length buffer + 1))
    else (10 ∷ buffer, length buffer + 1)

-- The loop, with `n` rounds left.
unfoldable pub write_values : ℕ → ℕ → (ℕ → ℤ) → ℕ → List ℕ
unfolding write_value
write_values zero i values cur_line_len = []
write_values (suc n) i values cur_line_len =
    let (out, len) = write_value (print_int (values i)) cur_line_len in
    out ++ write_values n (suc i) values len

unfoldable pub write_header : Image → List ℕ
write_header img =
    b'P'
    ∷ b'2'
    ∷ 10
    ∷ (print_decimal img.width
        ++ (b' ' ∷ (print_decimal img.height ++ (10 ∷ (print_int img.max_pixel ++ (10 ∷ []))))))

-- The loop compares with width * height, which fits an `int`.
unfoldable pub save_image : Image → List ℕ
unfolding write_header write_values
save_image img = write_header img ++ write_values (size img) 0 img.values 0

-- What `read_image` knows so far. A field that no word has set is uninitialised in the program and 0
-- here; the loop uses only fields that are set.
pub record Reading : Type 0 where
  pub word_num : ℕ
  pub image : Image

pub data Outcome (A : Type 0) : Type 0 where
  ok : A → Outcome A
  exited : Outcome A
  undefined : Outcome A
  negative_size : Outcome A
  out_of_fuel : Outcome A

abbrev pub is_delim : ℕ → Bool
is_delim c = c == b' ' || (c == 9 || c == 10)

abbrev pub next_word : Image → Reading → Outcome Reading
next_word img r = ok (record { word_num = suc r.word_num; image = img })

-- A dimension that is read: 0 ends the program; the model leaves out negative ones.
unfoldable pub dimension : ℤ → (ℕ → Outcome Reading) → Outcome Reading
dimension (pos zero) k = exited
dimension (pos (suc n)) k = k (suc n)
dimension (negsuc n) k = negative_size

unfoldable pub read_max : ℤ → Reading → Outcome Reading
read_max (pos zero) r = exited
read_max (pos (suc n)) r = next_word (record r.image { max_pixel = pos (suc n) }) r
read_max (negsuc n) r = next_word (record r.image { max_pixel = negsuc n }) r

unfoldable pub read_value : ℕ → ℤ → Reading → Outcome Reading
read_value i v r =
    if ltb i (size r.image)
    then next_word (record r.image { values = write_at i v r.image.values }) r
    else exited

-- The body of the inner loop: the word of number `word_num`. The warning on a first word other than
-- P2 is not modelled.
unfoldable pub read_word : ℕ → List ℕ → Reading → Outcome Reading
unfolding dimension read_max read_value
read_word zero token r = next_word r.image r
read_word (suc zero) token r =
    dimension (strtol token) (λ n. next_word (record r.image { width = n }) r)
read_word (suc (suc zero)) token r =
    dimension (strtol token) (λ n. next_word (record r.image { height = n }) r)
read_word (suc (suc (suc zero))) token r = read_max (strtol token) r
read_word (suc (suc (suc (suc i)))) token r = read_value i (strtol token) r

abbrev pub bind : {A B : Type 0} → Outcome A → (A → Outcome B) → Outcome B
bind (ok a) f = f a
bind exited f = exited
bind undefined f = undefined
bind negative_size f = negative_size
bind out_of_fuel f = out_of_fuel

-- The inner loop: the tokens of a line.
unfoldable pub read_words : List (List ℕ) → Reading → Outcome Reading
unfolding read_word
read_words [] r = ok r
read_words (token ∷ rest) r = bind (read_word r.word_num token r) (λ next. read_words rest next)

abbrev pub is_comment : List ℕ → Bool
is_comment [] = false
is_comment (c ∷ rest) = c == b'#'

-- A line by its tokens: the first of them, and what is known behind the line. The first token of a
-- line of blanks is NULL, which is read.
unfoldable pub read_line : List (List ℕ) → Reading → Outcome (List ℕ × Reading)
unfolding read_words
read_line [] r = undefined
read_line (token ∷ more) r =
    if is_comment token
    then ok (token, r)
    else bind (read_words (token ∷ more) r) (λ next. ok (token, next))

-- The outer loop. `stale` is the first token of the buffer as the last round left it, which is all
-- that it still holds, since `strtok_r` ended it with a NUL; `none` before the first round. At the
-- end of the file the loop goes on with it until four words are read.
unfoldable pub read_lines : ℕ → List ℕ → Option (List ℕ) → Reading → Outcome Image
unfolding read_line
read_lines zero file stale r = out_of_fuel
read_lines (suc fuel) [] none r = undefined
read_lines (suc fuel) [] (some token) r = elim (ltb r.word_num 4) [
  | true ↦ bind (read_line (token ∷ []) r) (λ p. read_lines fuel [] (some p.0) p.1)
  | false ↦ ok r.image
]
read_lines (suc fuel) (c ∷ file) stale r =
    let (line, rest) = fgets (max_line - 1) (c ∷ file) in
    bind (read_line (tokens is_delim line) r) (λ p. read_lines fuel rest (some p.0) p.1)

abbrev pub unread : Reading
unread = record {
  word_num = 0;
  image = record { width = 0; height = 0; max_pixel = pos 0; values = λ i. pos 0 };
}

unfoldable pub read_image : ℕ → List ℕ → Outcome Image
unfolding read_lines
read_image fuel file = read_lines fuel file none unread
