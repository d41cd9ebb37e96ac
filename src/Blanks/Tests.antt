-- ===== src/Blanks/Tests.antt =====
-- A file with two blank lines, and one with a long line.
use agh_sys_opy.Prelude.{
  ℕ, zero, suc, ◌≡◌, refl, ap, List, [], ◌∷◌, length-replicate, length-append, replicate, some,
  none, arith,
}
use agh_sys_opy.Blanks.{copy_and_remove_blanks}
use agh_sys_opy.Blanks.Lines.{extend, lines_of}
use agh_sys_opy.Blanks.Copy.{copy_and_remove_blanks-lines_of}
use agh_sys_opy.Blanks.Endless.{copy_and_remove_blanks_endless}

abbrev notes : List ℕ
notes = b'a' ∷ 10 ∷ b' ' ∷ 9 ∷ 10 ∷ 10 ∷ b' ' ∷ b'b' ∷ []

copy_and_remove_blanks-lines_of_example :
    copy_and_remove_blanks 9 notes ≡ some (b'a' ∷ 10 ∷ b' ' ∷ b'b' ∷ [])
unfolding lines_of
copy_and_remove_blanks-lines_of_example =
    copy_and_remove_blanks-lines_of notes
      (omega arith, (omega arith, (omega arith, (omega arith, tt))))

abbrev wall : List ℕ
wall = replicate 1024 b'a'

wall_lines : (n : ℕ) → lines_of (replicate (suc n) b'a') ≡ (replicate n b'a', b'a') ∷ []
unfolding lines_of
wall_lines zero = refl
wall_lines (suc n) = ap (extend b'a') (wall_lines n)

copy_and_remove_blanks_endless_example : copy_and_remove_blanks 5000 wall ≡ none
copy_and_remove_blanks_endless_example =
    copy_and_remove_blanks_endless wall (replicate 1023 b'a', b'a') [] 5000 (wall_lines 1023)
      (omega (
        arith,
        length-replicate {A = ℕ} 1023 b'a',
        length-append {A = ℕ} (replicate 1023 b'a') (b'a' ∷ []),
      ))
