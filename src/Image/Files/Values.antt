-- ===== src/Image/Files/Values.antt =====
-- The values of an image: written one after the other, and read line by line.
use agh_sys_opy.Prelude.{
  ℕ, zero, suc, ◌+◌, ◌<◌, ◌≤◌, ◌≡◌, refl, false, List, [], ◌∷◌, ◌++◌, append_assoc, append-nil,
  Option, some, length, length-append, ltb, dec_lt, write_at, arith, ap, ◌∙◌, lt→ltb, sym,
  ℕ_discrete,
}
use agh_sys_opy.Prelude.Int.{ℤ}
use agh_sys_opy.Text.{print_int}
use agh_sys_opy.Text.Tokens.{join_words, IsInt, length-print_int, strtol-print_int}
use agh_sys_opy.Image.Pixels.{Image, size}
use agh_sys_opy.Image.Files.{
  max_line, write_value, write_values, Reading, Outcome, ok, read_words, read_word, read_value,
  bind, read_lines,
}
use agh_sys_opy.Image.Files.Lines.{
  printed, Plain, Plain-append, print_int-Plain, join_words-append, read_words-append,
  read_lines-line, read_lines_last,
}

-- One more value: behind the others on a line that it fits, or on a line of its own.
pub write_value_fits :
    (b : List ℕ) (cur : ℕ)
    → 0 < cur
    → cur + length b + 1 < max_line
    → write_value b cur ≡ (b' ' ∷ b, cur + (length b + 1))
unfolding write_value
write_value_fits b cur used h = ground arith

pub write_value_wraps :
    (b : List ℕ) (cur : ℕ)
    → max_line ≤ cur + length b + 1
    → write_value b cur ≡ (10 ∷ b, length b + 1)
unfolding write_value
write_value_wraps b cur h = ground arith

pub write_value_first : (b : List ℕ) → length b ≤ 11 → write_value b 0 ≡ (b, length b + 1)
unfolding write_value
write_value_first b h = ground arith

pub write_values_next :
    (n i : ℕ) (values : ℕ → ℤ) (cur : ℕ) (out : List ℕ) (len : ℕ)
    → write_value (print_int (values i)) cur ≡ (out, len)
    → write_values (suc n) i values cur ≡ out ++ write_values n (suc i) values len
unfolding write_values
write_values_next n i values cur out len e = rw (write_values, e) refl

pub write_values_none : (i : ℕ) (values : ℕ → ℤ) (cur : ℕ) → write_values zero i values cur ≡ []
unfolding write_values
write_values_none i values cur = refl

bind-ok :
    {A B : Type 0} (o : Outcome A) (f : A → Outcome B) (b : B)
    → bind o f ≡ ok b
    → (a : A) × (o ≡ ok a) × (f a ≡ ok b)
bind-ok (ok a) f b e = (a, refl, e)
bind-ok Outcome.exited f b e = absurd (cc e)
bind-ok Outcome.undefined f b e = absurd (cc e)
bind-ok Outcome.negative_size f b e = absurd (cc e)
bind-ok Outcome.out_of_fuel f b e = absurd (cc e)

same_line :
    (n i : ℕ) (values : ℕ → ℤ) (j : List ℕ)
    → length j + 1 + length (print_int (values i)) + 1 < max_line
    → j ++ write_values (suc n) i values (length j + 1)
      ≡ (j ++ (b' ' ∷ print_int (values i)))
        ++ write_values n (suc i) values (length (j ++ (b' ' ∷ print_int (values i))) + 1)
same_line n i values j h =
    ap (λ s. j ++ s)
      (write_values_next n i values (length j + 1) _ _
        (write_value_fits (print_int (values i)) (length j + 1) (omega arith) h))
    ∙ sym (append_assoc j (b' ' ∷ print_int (values i)) _)
    ∙ ap (λ l. (j ++ (b' ' ∷ print_int (values i))) ++ write_values n (suc i) values l) len
  where
    len :
        length j + 1 + (length (print_int (values i)) + 1)
        ≡ length (j ++ (b' ' ∷ print_int (values i))) + 1
    len = omega (arith, length-append j (b' ' ∷ print_int (values i)))

next_line :
    (n i : ℕ) (values : ℕ → ℤ) (j : List ℕ)
    → max_line ≤ length j + 1 + length (print_int (values i)) + 1
    → j ++ write_values (suc n) i values (length j + 1)
      ≡ j
        ++ (10
            ∷ (print_int (values i)
                ++ write_values n (suc i) values (length (print_int (values i)) + 1)))
next_line n i values j h =
    ap (λ s. j ++ s)
      (write_values_next n i values (length j + 1) _ _
        (write_value_wraps (print_int (values i)) (length j + 1) h))

at_end :
    (fuel : ℕ) (w : List ℕ) (next : Reading)
    → 4 ≤ next.word_num
    → read_lines (suc fuel) [] (some w) next ≡ ok next.image
unfolding read_lines
at_end fuel w next h = rw (read_lines, over) refl
  where
    over : ltb next.word_num 4 ≡ false
    over = ground arith

-- The rest of the file, where the words `w ∷ ws` stand on the line that is being written.
read_lines-write_values :
    (n i fuel : ℕ) (values : ℕ → ℤ) (w : List ℕ) (ws : List (List ℕ)) (stale : Option (List ℕ))
    (r next : Reading)
    → ((j : ℕ) → IsInt (values j))
    → Plain (w ∷ ws)
    → length (join_words (w ∷ ws)) + 1 < max_line
    → n + 2 ≤ fuel
    → read_words ((w ∷ ws) ++ printed n i values) r ≡ ok next
    → 4 ≤ next.word_num
    → read_lines fuel
        (join_words (w ∷ ws) ++ write_values n i values (length (join_words (w ∷ ws)) + 1))
        stale
        r
      ≡ ok next.image
read_lines-write_values n i zero values w ws stale r next ints h short enough e four =
    absurd (omega arith)
read_lines-write_values n i (suc zero) values w ws stale r next ints h short enough e four =
    absurd (omega arith)
read_lines-write_values zero i (suc (suc fuel)) values w ws stale r next ints h short enough e
      four =
    rw
      (
        write_values_none,
        append-nil,
        read_lines_last (suc fuel) w ws stale r h (omega arith),
        rw append-nil at e,
        at_end fuel w next four,
      )
      refl
read_lines-write_values (suc n) i (suc fuel) values w ws stale r next ints h short enough e four =
    elim (dec_lt (length (join_words (w ∷ ws)) + 1 + length (print_int (values i)) + 1) max_line) [
      | yes fits ↦
          ap (λ file. read_lines (suc fuel) file stale r)
            (same_line n i values (join_words (w ∷ ws)) fits
              ∙ ap (λ j. j ++ write_values n (suc i) values (length j + 1))
                  (sym (join_words-append w ws (print_int (values i)))))
          ∙ read_lines-write_values n (suc i) (suc fuel) values w
              (ws ++ (print_int (values i) ∷ [])) stale r next ints
              (Plain-append (w ∷ ws) (print_int (values i)) h (print_int-Plain (values i)))
              (omega (
                arith,
                ap (λ (j : List ℕ). length j) (join_words-append w ws (print_int (values i))),
                length-append (join_words (w ∷ ws)) (b' ' ∷ print_int (values i)),
              ))
              (omega arith)
              (ap (λ s. read_words s r) (append_assoc (w ∷ ws) (print_int (values i) ∷ []) _) ∙ e)
              four
      | no wraps ↦
          let (mid, e1, e2) =
            bind-ok _ _ next (sym (read_words-append (w ∷ ws) (printed (suc n) i values) r) ∙ e) in
          ap (λ file. read_lines (suc fuel) file stale r)
            (next_line n i values (join_words (w ∷ ws)) (omega arith))
          ∙ read_lines-line fuel w ws _ stale r h (omega arith)
          ∙ ap
              (λ o. bind o (λ m.
                read_lines fuel
                  (print_int (values i)
                    ++ write_values n (suc i) values (length (print_int (values i)) + 1))
                  (some w) m))
              e1
          ∙ read_lines-write_values n (suc i) fuel values (print_int (values i)) [] (some w) mid
              next ints (print_int-Plain (values i), tt)
              (omega (arith, length-print_int (values i) (ints i))) (omega arith) e2 four
    ]

-- What the words of the values leave: the image with the `n` values from `i` on.
abbrev pub Fills : ℕ → ℕ → (ℕ → ℤ) → Image → Reading → Type 0
Fills n i values img next =
    (4 ≤ next.word_num)
    × (next.image.width ≡ img.width)
    × (next.image.height ≡ img.height)
    × (next.image.max_pixel ≡ img.max_pixel)
    × ((j : ℕ) → i ≤ j → j < i + n → next.image.values j ≡ values j)
    × ((j : ℕ) → j < i → next.image.values j ≡ img.values j)

pub read_words-Fills :
    (n i : ℕ) (values : ℕ → ℤ) (img : Image)
    → i + n ≤ size img
    → (next : Reading) × (read_words
          (printed n i values)
          (record { word_num = suc (suc (suc (suc i))); image = img })
        ≡ ok next)
      × Fills n i values img next
unfolding read_words read_word read_value
read_words-Fills zero i values img h = (
  record { word_num = suc (suc (suc (suc i))); image = img },
  refl,
  (omega arith, refl, refl, refl, λ j lo hi. absurd (omega arith), λ j lo. refl),
)
read_words-Fills (suc n) i values img h =
    let written : Image = record img { values = write_at i (values i) img.values } in
    let (next, e, fills) = read_words-Fills n (suc i) values written (omega arith) in
    (
      next,
      rw (read_words, read_word, strtol-print_int (values i), lt→ltb i (size img) (omega arith)) e,
      (
        fills.0,
        fills.1,
        fills.2,
        fills.3,
        λ j lo hi. elim (ℕ_discrete i j) [
          | yes same ↦ ground (arith, fills.5 j)
          | no other ↦ fills.4 j (omega arith) (omega arith)
        ],
        λ j lo. ground (arith, fills.5 j),
      ),
    )

-- The values behind the header.
pub read_lines-values :
    (n fuel : ℕ) (values : ℕ → ℤ) (stale : Option (List ℕ)) (r next : Reading)
    → ((j : ℕ) → IsInt (values j))
    → n + 2 ≤ fuel
    → read_words (printed (suc n) 0 values) r ≡ ok next
    → 4 ≤ next.word_num
    → read_lines fuel (write_values (suc n) 0 values 0) stale r ≡ ok next.image
read_lines-values n fuel values stale r next ints enough e four =
    ap (λ file. read_lines fuel file stale r)
      (write_values_next n 0 values 0 _ _
        (write_value_first (print_int (values 0)) (length-print_int (values 0) (ints 0))))
    ∙ read_lines-write_values n 1 fuel values (print_int (values 0)) [] stale r next ints
        (print_int-Plain (values 0), tt) (omega (arith, length-print_int (values 0) (ints 0)))
        enough e four
