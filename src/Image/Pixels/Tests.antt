-- ===== src/Image/Pixels/Tests.antt =====
-- Two threads of cw08/zad1 on a small image, in both modes.
use agh_sys_opy.Prelude.{ℕ, ◌≡◌, refl, true, false, ◌++◌, [], ◌∷◌, arith, get_or}
use agh_sys_opy.Prelude.Int.{ℤ, pos, ◌-ℤ◌}
use agh_sys_opy.Image.Pixels.{
  Image, key, numbers_at, numbers_loop, start_routine_numbers, start_routine_block,
}
use agh_sys_opy.Image.Pixels.Race.{start, finished, both, whole_round, run_two, rounds_race}

abbrev pixels : ℕ → ℤ
pixels i = get_or (pos 0 ∷ pos 9 ∷ pos 4 ∷ pos 5 ∷ []) i (pos 0)

abbrev picture : Image
picture = record { width = 2; height = 2; max_pixel = pos 9; values = pixels }

-- The key of 4 and of 5 is 4: thread 0 of 2 negates both, and thread 1 the other two never.
numbers_of_thread :
    (start_routine_numbers picture 2 0 pixels 2 ≡ pos 5)
    × (start_routine_numbers picture 2 1 pixels 2 ≡ pos 4)
    × (start_routine_block picture 2 1 pixels 3 ≡ pos 4)
    × (start_routine_block picture 2 1 pixels 2 ≡ pos 4)
unfolding start_routine_numbers numbers_loop numbers_at key ◌-ℤ◌ start_routine_block
numbers_of_thread = (refl, refl, refl, refl)

-- The maximum 9 and two threads: the pixel stays 9.
rounds_race_example :
    (run_two (pos 9) 2 1 (whole_round false ++ whole_round true) (both (pos 9) start)
      ≡ both (pos 0) finished)
    × (run_two (pos 9) 2 1 (whole_round true ++ whole_round false) (both (pos 9) start)
        ≡ both (pos 0) finished)
    × (run_two
          (pos 9)
          2
          1
          (true ∷ (whole_round false ++ (true ∷ true ∷ true ∷ true ∷ [])))
          (both (pos 9) start)
        ≡ both (pos 9) finished)
rounds_race_example = rounds_race 9 2 1 (omega arith) (omega arith) refl (λ e. ground (arith, e))
