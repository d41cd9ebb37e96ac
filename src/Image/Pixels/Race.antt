-- ===== src/Image/Pixels/Race.antt =====
-- The mode `numbers`, one access to a pixel at a time: two threads whose rounds at a pixel overlap.
use agh_sys_opy.Prelude.{
  ℕ, ◌%◌, ◌/◌, ◌<◌, ◌≡◌, ◌≢◌, Bool, true, false, List, [], ◌∷◌, ◌++◌, ltb, if◌then◌else◌, arith,
  lt→ltb,
}
use agh_sys_opy.Prelude.Int.{ℤ, pos, ◌-ℤ◌, ltb_ℤ}
use agh_sys_opy.Image.Pixels.{half, rem, is_index, key, numbers_at}

-- Where a thread stands in its round: it has compared the pixel with the half of the maximum, it has
-- read the pixel again for `value`, it has found that it is to negate the pixel, it has read the pixel
-- for that.
pub data Round : Type 0 where
  start : Round
  compared : Bool → Round
  valued : ℤ → Round
  selected : Round
  loaded : ℤ → Round
  finished : Round

-- The next access of the thread `index` of `threads_num`, with the pixel that it leaves.
unfoldable pub advance : ℤ → ℕ → ℕ → ℤ → Round → ℤ × Round
advance max_pixel threads_num index pixel start = (pixel, compared (ltb_ℤ (half max_pixel) pixel))
advance max_pixel threads_num index pixel (compared true) = (pixel, valued (max_pixel -ℤ pixel))
advance max_pixel threads_num index pixel (compared false) = (pixel, valued pixel)
advance max_pixel threads_num index pixel (valued value) =
    (pixel, if is_index (rem value threads_num) index then selected else finished)
advance max_pixel threads_num index pixel selected = (pixel, loaded pixel)
advance max_pixel threads_num index pixel (loaded value) = (max_pixel -ℤ value, finished)
advance max_pixel threads_num index pixel finished = (pixel, finished)

-- A round that no other thread disturbs is a round of the loop.
abbrev next_access : ℤ → ℕ → ℕ → ℤ × Round → ℤ × Round
next_access max_pixel threads_num index (pixel, round) =
    advance max_pixel threads_num index pixel round

round_alone :
    (max_pixel : ℤ) (threads_num index i : ℕ) (values : ℕ → ℤ)
    → let go = next_access max_pixel threads_num index in
      go (go (go (go (go (values i, start)))))
      ≡ (numbers_at max_pixel threads_num index i values i, finished)
unfolding advance numbers_at key
round_alone max_pixel threads_num index i values = ground arith

-- The threads 0 and `t`, and the pixel.
pub record Two : Type 0 where
  pub pixel : ℤ
  pub first : Round
  pub other : Round

-- The accesses of the two in the order of a schedule, where `true` stands for the thread `t`.
unfoldable pub run_two : ℤ → ℕ → ℕ → List Bool → Two → Two
unfolding advance
run_two max_pixel threads_num t [] s = s
run_two max_pixel threads_num t (true ∷ rest) s =
    let (pixel, round) = advance max_pixel threads_num t s.pixel s.other in
    run_two max_pixel threads_num t rest (record s { pixel = pixel; other = round })
run_two max_pixel threads_num t (false ∷ rest) s =
    let (pixel, round) = advance max_pixel threads_num 0 s.pixel s.first in
    run_two max_pixel threads_num t rest (record s { pixel = pixel; first = round })

abbrev pub both : ℤ → Round → Two
both pixel round = record { pixel = pixel; first = round; other = round }

abbrev pub whole_round : Bool → List Bool
whole_round t = t ∷ t ∷ t ∷ t ∷ t ∷ []

module _ (m n t : ℕ) (some_value : 0 < m) (threads : 0 < n) (owner : m % n ≡ t)
    (not_first : t ≢ 0) where
  large : ltb (m / 2) m ≡ true
  large = lt→ltb (m / 2) m (omega arith)

  one_by_one :
      (run_two (pos m) n t (whole_round false ++ whole_round true) (both (pos m) start)
        ≡ both (pos 0) finished)
      × (run_two (pos m) n t (whole_round true ++ whole_round false) (both (pos m) start)
          ≡ both (pos 0) finished)
  unfolding run_two advance ◌-ℤ◌
  one_by_one = (ground (arith, large), ground (arith, large))

  overlapping :
      run_two
        (pos m)
        n
        t
        (true ∷ (whole_round false ++ (true ∷ true ∷ true ∷ true ∷ [])))
        (both (pos m) start)
      ≡ both (pos m) finished
  unfolding run_two advance ◌-ℤ◌
  overlapping = ground (arith, large)

-- In the mode `numbers`, at a pixel with the maximum, for the threads 0 and `t`, where the maximum is
-- positive and leaves the rest `t`, which is not 0, on division by the number of threads: when one
-- thread makes its whole round before the other begins, in either order, the pixel ends as 0, as it
-- should. When thread `t` has compared the pixel, thread 0 then makes its whole round, and thread `t`
-- goes on, both of them negate the pixel, and it ends as the maximum again.
pub rounds_race :
    (m n t : ℕ)
    → 0 < m
    → 0 < n
    → m % n ≡ t
    → t ≢ 0
    → (run_two (pos m) n t (whole_round false ++ whole_round true) (both (pos m) start)
        ≡ both (pos 0) finished)
      × (run_two (pos m) n t (whole_round true ++ whole_round false) (both (pos m) start)
          ≡ both (pos 0) finished)
      × (run_two
            (pos m)
            n
            t
            (true ∷ (whole_round false ++ (true ∷ true ∷ true ∷ true ∷ [])))
            (both (pos m) start)
          ≡ both (pos m) finished)
rounds_race m n t some_value threads owner not_first =
    let (before, behind) = one_by_one m n t some_value threads owner not_first in
    (before, behind, overlapping m n t some_value threads owner not_first)
