-- ===== src/Text/Decimal.antt =====
-- `strtol` reads back what `sprintf("%d")` writes.
use agh_sys_opy.Prelude.{
  ◌∙◌, ℕ, zero, suc, ◌+◌, ◌/◌, ◌%◌, ◌<◌, ◌≡◌, refl, false, List, [], ◌∷◌, ◌++◌, arith, dec_lt,
}
use agh_sys_opy.Prelude.Int.{pos}
use agh_sys_opy.Text.{is_digit, digits, print_decimal, read_digits, read_signed, strtol}

-- The string does not go on with a digit.
abbrev pub EndsNumber : List ℕ → Type 0
EndsNumber [] = Unit
EndsNumber (c ∷ rest) = is_digit c ≡ false

read_digits-digits :
    (fuel n : ℕ) (rest : List ℕ)
    → n < fuel
    → read_digits 0 (digits fuel n rest) ≡ read_digits n rest
unfolding read_digits digits
read_digits-digits zero n rest h = absurd (omega arith)
read_digits-digits (suc fuel) n rest h =
    ground (arith, read_digits-digits fuel (n / 10) ((b'0' + n % 10) ∷ rest))

read_digits_end : (n : ℕ) (rest : List ℕ) → EndsNumber rest → read_digits n rest ≡ n
unfolding read_digits
read_digits_end n [] h = refl
read_digits_end n (c ∷ rest) h = rw h

digits-append : (fuel n : ℕ) (xs ys : List ℕ) → digits fuel n (xs ++ ys) ≡ digits fuel n xs ++ ys
unfolding digits
digits-append zero n xs ys = refl
digits-append (suc fuel) n xs ys =
    ground (arith, digits-append fuel (n / 10) ((b'0' + n % 10) ∷ xs) ys)

-- The first byte that is written is a digit, so no blank and no sign.
strtol-digits :
    (fuel n : ℕ) (rest : List ℕ)
    → n < fuel
    → strtol (digits fuel n rest) ≡ pos (read_digits 0 (digits fuel n rest))
unfolding strtol read_signed digits
strtol-digits zero n rest h = absurd (omega arith)
strtol-digits (suc fuel) n rest h = elim (dec_lt n 10) [
  | yes last ↦ ground arith
  | no more ↦ ground (arith, strtol-digits fuel (n / 10) ((b'0' + n % 10) ∷ rest))
]

-- A number that `sprintf("%d")` writes is read back by `strtol`, whatever follows that is no digit.
pub strtol-print_decimal :
    (n : ℕ) (rest : List ℕ) → EndsNumber rest → strtol (print_decimal n ++ rest) ≡ pos n
unfolding print_decimal
strtol-print_decimal n rest h = rw (
  ← digits-append (suc n) n [] rest,
  strtol-digits (suc n) n rest (omega arith),
  read_digits-digits (suc n) n rest (omega arith),
  read_digits_end n rest h,
)

pub read_digits-print_decimal : (n : ℕ) → read_digits 0 (print_decimal n) ≡ n
unfolding print_decimal
read_digits-print_decimal n =
    read_digits-digits (suc n) n [] (omega arith) ∙ read_digits_end n [] tt
