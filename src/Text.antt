-- ===== src/Text.antt =====
-- What the programs use of the C library on strings: `sprintf("%d")`, `strtol` in base 10, and
-- `strtok_r`. A string is the list of its bytes before the terminating NUL.
pub mod Decimal
pub mod Words
pub mod Tokens
pub mod Strings
use agh_sys_opy.Prelude.{
  ℕ, zero, suc, ◌+◌, ◌-◌, ◌*◌, ◌/◌, ◌%◌, Bool, true, false, ◌&&◌, ◌||◌, List, [], ◌∷◌, Option, none,
  some, ltb, leb, ◌==◌, if◌then◌else◌,
}
use agh_sys_opy.Prelude.Int.{ℤ, pos, negsuc, minus}

abbrev pub is_digit : ℕ → Bool
is_digit c = leb b'0' c && leb c b'9'

-- `isspace`: the blank and the bytes 9 to 13.
abbrev pub is_space : ℕ → Bool
is_space c = c == b' ' || (leb 9 c && leb c 13)

-- The digits of `n` in front of `rest`, the last digit first; `fuel` above `n` is enough.
unfoldable pub digits : ℕ → ℕ → List ℕ → List ℕ
digits zero n rest = rest
digits (suc fuel) n rest =
    let more = digits fuel (n / 10) ((b'0' + n % 10) ∷ rest) in
    if ltb n 10 then (b'0' + n) ∷ rest else more

-- `sprintf(buffer, "%d", n)` at a number that is not negative.
unfoldable pub print_decimal : ℕ → List ℕ
unfolding digits
print_decimal n = digits (suc n) n []

-- `sprintf(buffer, "%d", v)`
unfoldable pub print_int : ℤ → List ℕ
unfolding print_decimal
print_int (pos n) = print_decimal n
print_int (negsuc n) = b'-' ∷ print_decimal (suc n)

-- The number that the digits at the front of a string spell, after those that spell `value`.
unfoldable pub read_digits : ℕ → List ℕ → ℕ
read_digits value [] = value
read_digits value (c ∷ rest) =
    let more = read_digits (value * 10 + (c - b'0')) rest in if is_digit c then more else value

-- The sign and the digits.
unfoldable pub read_signed : List ℕ → ℤ
unfolding read_digits
read_signed [] = pos 0
read_signed (c ∷ rest) =
    if c == b'-'
    then minus (read_digits 0 rest)
    else if c == b'+'
    then pos (read_digits 0 rest)
    else pos (read_digits 0 (c ∷ rest))

-- `strtol(s, NULL, 10)`, at numbers that fit.
unfoldable pub strtol : List ℕ → ℤ
unfolding read_signed
strtol [] = pos 0
strtol (c ∷ rest) = let later = strtol rest in if is_space c then later else read_signed (c ∷ rest)

-- `strtok_r` with the blank as the delimiter: the blanks in front are passed over.
pub skip_blanks : List ℕ → List ℕ
skip_blanks [] = []
skip_blanks (c ∷ rest) = let later = skip_blanks rest in if c == b' ' then later else c ∷ rest

-- The bytes up to the next blank, and those behind it.
pub cut_token : List ℕ → List ℕ × List ℕ
cut_token [] = ([], [])
cut_token (c ∷ rest) =
    let (token, behind) = cut_token rest in if c == b' ' then ([], rest) else (c ∷ token, behind)

-- The token and what the saved pointer points at; `none` for NULL.
pub strtok : List ℕ → Option (List ℕ × List ℕ)
unfolding skip_blanks cut_token
strtok s = elim (skip_blanks s) [ [] ↦ none | c ∷ rest ↦ some (cut_token (c ∷ rest)) ]

-- A line without the newline that `fgets` and `getline` leave at its end.
unfoldable pub strip_newline : List ℕ → List ℕ
strip_newline [] = []
strip_newline (c ∷ []) = if c == 10 then [] else c ∷ []
strip_newline (c ∷ d ∷ rest) = c ∷ strip_newline (d ∷ rest)

-- The tokens that `strtok_r` returns one after the other: the pieces between delimiters that are not
-- empty. `scan` is the piece that a string begins with, which may be empty, and the tokens behind it.
abbrev pub add_token : List ℕ → List (List ℕ) → List (List ℕ)
add_token [] ts = ts
add_token (c ∷ w) ts = (c ∷ w) ∷ ts

unfoldable pub scan : (ℕ → Bool) → List ℕ → List ℕ × List (List ℕ)
scan is_delim [] = ([], [])
scan is_delim (c ∷ rest) =
    let (w, ts) = scan is_delim rest in if is_delim c then ([], add_token w ts) else (c ∷ w, ts)

unfoldable pub tokens : (ℕ → Bool) → List ℕ → List (List ℕ)
unfolding scan
tokens is_delim s = let (w, ts) = scan is_delim s in add_token w ts

-- `fgets` with room for `n` bytes before the NUL, and what is left of the file.
unfoldable pub fgets : ℕ → List ℕ → List ℕ × List ℕ
fgets zero file = ([], file)
fgets (suc n) [] = ([], [])
fgets (suc n) (c ∷ rest) =
    let (line, left) = fgets n rest in if c == 10 then (c ∷ [], rest) else (c ∷ line, left)

-- `getline`, where the file is not at its end: the line with its newline, and what is behind it.
unfoldable pub getline : List ℕ → List ℕ × List ℕ
getline [] = ([], [])
getline (c ∷ rest) =
    let (line, behind) = getline rest in if c == 10 then (c ∷ [], rest) else (c ∷ line, behind)

-- `strtok_r` with one delimiter: the token and what the saved pointer points at; `none` for NULL.
unfoldable pub skip_delim : ℕ → List ℕ → List ℕ
skip_delim d [] = []
skip_delim d (c ∷ rest) = let later = skip_delim d rest in if c == d then later else c ∷ rest

unfoldable pub cut_at : ℕ → List ℕ → List ℕ × List ℕ
cut_at d [] = ([], [])
cut_at d (c ∷ rest) =
    let (token, behind) = cut_at d rest in if c == d then ([], rest) else (c ∷ token, behind)

unfoldable pub strtok_at : ℕ → List ℕ → Option (List ℕ × List ℕ)
unfolding skip_delim cut_at
strtok_at d s = elim (skip_delim d s) [ [] ↦ none | c ∷ rest ↦ some (cut_at d (c ∷ rest)) ]

-- The string at the front of an array, up to its NUL.
abbrev pub c_string : List ℕ → List ℕ
c_string [] = []
c_string (c ∷ rest) = if c == 0 then [] else c ∷ c_string rest
