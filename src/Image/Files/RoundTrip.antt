-- ===== src/Image/Files/RoundTrip.antt =====
-- What `save_image` writes, `read_image` reads: the header, and the whole file.
use agh_sys_opy.Prelude.{ℕ, ◌^◌, ◌≢◌, ◌<◌, List, [], ◌∷◌}
use agh_sys_opy.Prelude.Int.{pos}
use agh_sys_opy.Text.Tokens.{IsInt}
use agh_sys_opy.Image.Pixels.{Image}
use agh_sys_opy.Image.Files.{Reading}

abbrev read_dimensions : ℕ → ℕ → Reading
read_dimensions w h = record {
  word_num = 3;
  image = record { width = w; height = h; max_pixel = pos 0; values = λ i. pos 0 };
}

-- An image that a file can hold: the numbers are `int`s, and those of the header are not 0.
abbrev pub Saveable : Image → Type 0
Saveable img =
    (0 < img.width)
    × (0 < img.height)
    × (img.max_pixel ≢ pos 0)
    × (img.width < 2 ^ 31)
    × (img.height < 2 ^ 31)
    × IsInt img.max_pixel
    × ((i : ℕ) → IsInt (img.values i))

abbrev read_header : Image → Reading
read_header img = record {
  word_num = 4;
  image = record {
    width = img.width;
    height = img.height;
    max_pixel = img.max_pixel;
    values = λ i. pos 0;
  };
}

abbrev magic : List ℕ
magic = b'P' ∷ b'2' ∷ []
