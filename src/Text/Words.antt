-- ===== src/Text/Words.antt =====
-- Decimal numbers written with a blank behind each, read back by `strtok_r` and `strtol`.
use agh_sys_opy.Prelude.{
  ℕ, zero, suc, ◌+◌, ◌/◌, ◌%◌, ◌<◌, ◌≤◌, ◌≡◌, refl, false, List, [], ◌∷◌, ◌++◌, map, append-nil,
  arith, ltb, ◌==◌, length, dec_lt, lt→ltb, none, some, ap,
}
use agh_sys_opy.Prelude.Int.{ℤ, pos}
use agh_sys_opy.Text.{digits, print_decimal, skip_blanks, cut_token, strtok, strtol, strip_newline}
use agh_sys_opy.Text.Decimal.{strtol-print_decimal}

abbrev pub NoBlank : List ℕ → Type 0
NoBlank [] = Unit
NoBlank (c ∷ rest) = ((c == b' ') ≡ false) × NoBlank rest

-- A string without blanks that is not empty.
abbrev pub IsWord : List ℕ → Type 0
IsWord [] = ⊥
IsWord (c ∷ rest) = NoBlank (c ∷ rest)

digits-IsWord : (fuel n : ℕ) (rest : List ℕ) → n < fuel → NoBlank rest → IsWord (digits fuel n rest)
unfolding digits
digits-IsWord zero n rest h b = absurd (omega arith)
digits-IsWord (suc fuel) n rest h b = elim (dec_lt n 10) [
  | yes last ↦ rw (lt→ltb n 10 last) (ground arith, b)
  | no more ↦
      rw (small more)
        (digits-IsWord fuel (n / 10) ((b'0' + n % 10) ∷ rest) (omega arith) (ground arith, b))
]
  where
    small : (n < 10 → ⊥) → ltb n 10 ≡ false
    small more = ground arith

pub print_decimal-IsWord : (n : ℕ) → IsWord (print_decimal n)
unfolding print_decimal
print_decimal-IsWord n = digits-IsWord (suc n) n [] (omega arith) tt

cut_token-NoBlank : (s rest : List ℕ) → NoBlank s → cut_token (s ++ (b' ' ∷ rest)) ≡ (s, rest)
unfolding cut_token
cut_token-NoBlank [] rest h = refl
cut_token-NoBlank (c ∷ s) rest (hc, hs) = rw (cut_token-NoBlank s rest hs, hc)

pub strtok-IsWord : (s rest : List ℕ) → IsWord s → strtok (s ++ (b' ' ∷ rest)) ≡ some (s, rest)
unfolding strtok skip_blanks
strtok-IsWord [] rest h = absurd h
strtok-IsWord (c ∷ s) rest h =
    rw (strtok, skip_blanks, h.0) (ap some (cut_token-NoBlank (c ∷ s) rest h))

-- Numbers, each with a blank behind it.
abbrev pub listing : List ℕ → List ℕ
listing [] = []
listing (i ∷ is) = print_decimal i ++ (b' ' ∷ listing is)

-- The numbers in a string, as a program reads them with `strtok_r` and `strtol`; at most `fuel`.
pub read_ids : ℕ → List ℕ → List ℤ
unfolding strtok strtol
read_ids zero s = []
read_ids (suc fuel) s = elim (strtok s) [ none ↦ [] | some p ↦ strtol p.0 ∷ read_ids fuel p.1 ]

pub strtol-alone : (n : ℕ) → strtol (print_decimal n) ≡ pos n
strtol-alone n = rw append-nil at (strtol-print_decimal n [] tt)

read_ids-empty : (fuel : ℕ) → read_ids fuel [] ≡ []
unfolding read_ids strtok skip_blanks
read_ids-empty zero = refl
read_ids-empty (suc fuel) = refl

-- Numbers that are written with a blank behind each are read back, in order.
pub read_ids-listing :
    (fuel : ℕ) (is : List ℕ) → length is ≤ fuel → read_ids fuel (listing is) ≡ map pos is
unfolding read_ids
read_ids-listing fuel [] h = read_ids-empty fuel
read_ids-listing zero (i ∷ is) h = absurd (omega arith)
read_ids-listing (suc fuel) (i ∷ is) h =
    rw
      (
        read_ids,
        strtok-IsWord (print_decimal i) (listing is) (print_decimal-IsWord i),
        strtol-alone i,
        read_ids-listing fuel is (omega arith),
      )
      refl

pub length-print_decimal : (n : ℕ) → n < 100 → length (print_decimal n) ≤ 2
unfolding print_decimal digits
length-print_decimal zero h = omega arith
length-print_decimal (suc n) h = ground arith

pub strip_newline-append : (s : List ℕ) → strip_newline (s ++ (10 ∷ [])) ≡ s
unfolding strip_newline
strip_newline-append [] = refl
strip_newline-append (c ∷ []) = refl
strip_newline-append (c ∷ d ∷ rest) = ap (λ s. c ∷ s) (strip_newline-append (d ∷ rest))
