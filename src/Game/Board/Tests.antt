-- ===== src/Game/Board/Tests.antt =====
-- Boards of cw10/zad1 and their verdicts.
use agh_sys_opy.Prelude.{ℕ, ◌≡◌, refl, List, [], ◌∷◌, arith, get_or, find_from}
use agh_sys_opy.Game.Board.{Cells, line_winner, check_game_status}
use agh_sys_opy.Game.Board.Verdict.{IsVerdict, check_game_status-IsVerdict}

-- A board from its nine cells; the rest are blank.
abbrev cells_of : List ℕ → Cells
cells_of cs i = get_or cs i b' '

abbrev diagonal : Cells
diagonal = cells_of (b'X' ∷ b'O' ∷ b'O' ∷ b' ' ∷ b'X' ∷ b' ' ∷ b' ' ∷ b' ' ∷ b'X' ∷ [])

abbrev full : Cells
full = cells_of (b'X' ∷ b'O' ∷ b'X' ∷ b'X' ∷ b'O' ∷ b'O' ∷ b'O' ∷ b'X' ∷ b'X' ∷ [])

verdicts :
    (check_game_status diagonal ≡ b'X')
    × (check_game_status full ≡ b'd')
    × (check_game_status (cells_of []) ≡ 0)
unfolding check_game_status line_winner find_from
verdicts = (refl, refl, refl)

check_game_status-IsVerdict_example : IsVerdict diagonal (check_game_status diagonal)
check_game_status-IsVerdict_example = check_game_status-IsVerdict diagonal (λ i lt. ground arith)
