-- ===== src/Image/Files/Tests.antt =====
-- Small files that are written and read.
use agh_sys_opy.Prelude.{ℕ, zero, suc, ◌≡◌, refl, List, [], ◌∷◌, arith, get_or}
use agh_sys_opy.Prelude.Int.{ℤ, pos}
use agh_sys_opy.Text.{
  print_int, print_decimal, digits, strtol, read_signed, read_digits, scan, tokens, fgets,
}
use agh_sys_opy.Image.Pixels.{Image}
use agh_sys_opy.Image.Files.{
  write_value, write_values, write_header, save_image, ok, read_word, read_words, read_max,
  dimension, read_line, read_lines, read_image,
}
use agh_sys_opy.Image.Files.RoundTrip.{Saveable}
use agh_sys_opy.Image.Files.Width.{LinesWithin, save_image-LinesWithin}

abbrev pixels : ℕ → ℤ
pixels i = get_or (pos 0 ∷ pos 12 ∷ []) i (pos 7)

abbrev picture : Image
picture = record { width = 1; height = 2; max_pixel = pos 15; values = pixels }

abbrev picture_bytes : List ℕ
picture_bytes =
    b'P' ∷ b'2' ∷ 10 ∷ b'1' ∷ b' ' ∷ b'2' ∷ 10 ∷ b'1' ∷ b'5' ∷ 10 ∷ b'0' ∷ b' ' ∷ b'1' ∷ b'2' ∷ []

picture_saved : save_image picture ≡ picture_bytes
unfolding save_image write_header write_values write_value print_int print_decimal digits
picture_saved = refl

-- Without a maximum the last line is looked at again, and the width is taken for the maximum.
abbrev missing_maximum : List ℕ
missing_maximum = b'P' ∷ b'2' ∷ 10 ∷ b'3' ∷ b' ' ∷ b'4' ∷ 10 ∷ []

width_as_maximum :
    read_image 6 missing_maximum
    ≡ ok (record { width = 3; height = 4; max_pixel = pos 3; values = λ i. pos 0 })
unfolding read_image read_lines read_line read_words read_word read_max dimension fgets tokens scan
    strtol read_signed read_digits
width_as_maximum = refl

IsInt-pixels : (i : ℕ) → agh_sys_opy.Text.Tokens.IsInt (pixels i)
IsInt-pixels zero = omega arith
IsInt-pixels (suc zero) = omega arith
IsInt-pixels (suc (suc i)) = omega arith

picture-Saveable : Saveable picture
picture-Saveable = (
  omega arith,
  omega arith,
  λ e. ground (arith, e),
  omega arith,
  omega arith,
  omega arith,
  IsInt-pixels,
)

save_image-LinesWithin_example : LinesWithin 98 0 (save_image picture)
save_image-LinesWithin_example = save_image-LinesWithin picture picture-Saveable
