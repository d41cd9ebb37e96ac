-- ===== src/Image/Files/Width.antt =====
-- How long the lines are that `save_image` writes.
use agh_sys_opy.Prelude.{
  ℕ, zero, suc, ◌+◌, ◌-◌, ◌<◌, ◌≤◌, ◌≡◌, refl, true, false, not, not-true, List, [], ◌∷◌, ◌++◌,
  append_assoc, length, ◌==◌, arith, subst, sym, dec_lt,
}
use agh_sys_opy.Prelude.Int.{ℤ, pos}
use agh_sys_opy.Text.{print_int}
use agh_sys_opy.Text.Tokens.{Every, IsInt, length-print_int}
use agh_sys_opy.Image.Pixels.{Image, size}
use agh_sys_opy.Image.Files.{max_line, write_value, write_values, write_header, save_image}
use agh_sys_opy.Image.Files.Lines.{print_int-Plain, IsToken-one_line}
use agh_sys_opy.Image.Files.RoundTrip.{Saveable}
use agh_sys_opy.Image.Files.Values.{
  write_value_fits, write_value_wraps, write_value_first, write_values_next, write_values_none,
}

-- No line of a file is longer than `n` bytes, where `column` bytes stand on the first line already.
abbrev pub LinesWithin : ℕ → ℕ → List ℕ → Type 0
LinesWithin n column [] = Unit
LinesWithin n column (c ∷ file) = elim (c == 10) [
  | true ↦ LinesWithin n 0 file
  | false ↦ (column < n) × LinesWithin n (suc column) file
]

within-cons :
    (n column c : ℕ) (file : List ℕ)
    → (c == 10) ≡ false
    → column < n
    → LinesWithin n (suc column) file
    → LinesWithin n column (c ∷ file)
within-cons n column c file e h rest = rw (LinesWithin, e) (h, rest)

within-append :
    (n column next : ℕ) (w file : List ℕ)
    → Every (λ c. not (c == 10)) w
    → column + length w ≡ next
    → next ≤ n
    → LinesWithin n next file
    → LinesWithin n column (w ++ file)
within-append n column next [] file one_line e h rest =
    subst (λ k. LinesWithin n k file) (omega arith) rest
within-append n column next (c ∷ w) file one_line e h rest =
    within-cons n column c (w ++ file) (not-true (c == 10) one_line.0) (omega arith)
      (within-append n (suc column) next w file one_line.1 (omega arith) h rest)

within-print_int :
    (column next : ℕ) (v : ℤ) (file : List ℕ)
    → column + length (print_int v) ≡ next
    → next ≤ 98
    → LinesWithin 98 next file
    → LinesWithin 98 column (print_int v ++ file)
within-print_int column next v file =
    within-append 98 column next (print_int v) file
      (IsToken-one_line (print_int v) (print_int-Plain v))

within-write_value :
    (n i : ℕ) (values : ℕ → ℤ) (column cur : ℕ) (out : List ℕ) (len : ℕ)
    → write_value (print_int (values i)) cur ≡ (out, len)
    → LinesWithin 98 column (out ++ write_values n (suc i) values len)
    → LinesWithin 98 column (write_values (suc n) i values cur)
within-write_value n i values column cur out len e h =
    subst (LinesWithin 98 column) (sym (write_values_next n i values cur out len e)) h

-- Behind a value `cur_line_len` is one more than the bytes on the line.
write_values-LinesWithin :
    (n i : ℕ) (values : ℕ → ℤ) (column cur : ℕ)
    → ((j : ℕ) → IsInt (values j))
    → cur ≡ column + 1
    → LinesWithin 98 column (write_values n i values cur)
write_values-LinesWithin zero i values column cur ints e = rw write_values_none tt
write_values-LinesWithin (suc n) i values column cur ints e =
    elim (dec_lt (cur + length (print_int (values i)) + 1) max_line) [
      | yes fits ↦
          let rest : List ℕ =
            write_values n (suc i) values (cur + (length (print_int (values i)) + 1)) in
          within-write_value n i values column cur _ _
            (write_value_fits (print_int (values i)) cur (omega arith) fits)
            (within-cons 98 column b' ' (print_int (values i) ++ rest) refl (omega arith) (
              within-print_int (suc column) (suc column + length (print_int (values i))) (values i)
                rest refl (omega arith)
                (write_values-LinesWithin n (suc i) values
                  (suc column + length (print_int (values i)))
                  (cur + (length (print_int (values i)) + 1)) ints (omega arith))))
      | no wraps ↦
          within-write_value n i values column cur _ _
            (write_value_wraps (print_int (values i)) cur (omega arith))
            (within-print_int 0 (length (print_int (values i))) (values i) _ (omega arith)
              (omega (arith, length-print_int (values i) (ints i)))
              (write_values-LinesWithin n (suc i) values (length (print_int (values i))) _ ints
                refl))
    ]

write_values_within :
    (n : ℕ) (values : ℕ → ℤ)
    → ((j : ℕ) → IsInt (values j))
    → LinesWithin 98 0 (write_values n 0 values 0)
write_values_within zero values ints = rw write_values_none tt
write_values_within (suc n) values ints =
    within-write_value n 0 values 0 0 _ _
      (write_value_first (print_int (values 0)) (length-print_int (values 0) (ints 0)))
      (within-print_int 0 (length (print_int (values 0))) (values 0) _ (omega arith)
        (omega (arith, length-print_int (values 0) (ints 0)))
        (write_values-LinesWithin n 1 values (length (print_int (values 0))) _ ints refl))

header_flat :
    (img : Image) (body : List ℕ)
    → write_header img ++ body
      ≡ b'P'
        ∷ b'2'
        ∷ 10
        ∷ (print_int (pos img.width)
            ++ (b' '
                ∷ (print_int (pos img.height) ++ (10 ∷ (print_int img.max_pixel ++ (10 ∷ body))))))
unfolding write_header print_int
header_flat img body = simp append_assoc

-- Where the numbers of the image are `int`s, no line of the file that `save_image` writes is longer
-- than 98 bytes, so that `fgets` with a buffer of 100 reads each line whole.
pub save_image-LinesWithin :
    (img : Image) → Saveable img → LinesWithin (max_line - 2) 0 (save_image img)
unfolding save_image
save_image-LinesWithin img (pw, ph, pm, iw, ih, im, iv) =
    subst (LinesWithin 98 0) (sym (header_flat img _)) (
      omega arith,
      (
        omega arith,
        within-print_int 0 w (pos img.width) _ (omega arith) (omega (arith, wide)) (
            within-cons 98 w b' ' behind_width refl (omega (arith, wide)) (
              within-print_int (suc w) (suc w + h) (pos img.height) behind_height refl
                (omega (arith, wide, high))
                (within-print_int 0 (length (print_int img.max_pixel)) img.max_pixel (10 ∷ body)
                  (omega arith) (omega (arith, length-print_int img.max_pixel im))
                  (write_values_within (size img) img.values iv)))),
      ),
    )
  where
    body : List ℕ
    body = write_values (size img) 0 img.values 0

    behind_height : List ℕ
    behind_height = 10 ∷ (print_int img.max_pixel ++ (10 ∷ body))

    behind_width : List ℕ
    behind_width = print_int (pos img.height) ++ behind_height

    w : ℕ
    w = length (print_int (pos img.width))

    h : ℕ
    h = length (print_int (pos img.height))

    wide : w ≤ 11
    wide = length-print_int (pos img.width) iw

    high : h ≤ 11
    high = length-print_int (pos img.height) ih
