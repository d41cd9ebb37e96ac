-- ===== src/Game/Board.antt =====
-- The board of nine cells and its verdict: `check_line` and `check_game_status` of
-- cw10/zad1/server.c. A cell holds a byte; `board[i]` is `b i` at `i < 9`.
pub mod Verdict
mod Tests
use agh_sys_opy.Prelude.{
  ℕ, zero, suc, ◌+◌, Bool, ◌&&◌, not, List, [], ◌∷◌, Option, none, some, ◌==◌, if◌then◌else◌,
  find_index, find_from,
}

abbrev pub Cells : Type 0
Cells = ℕ → ℕ

abbrev pub board_size : ℕ
board_size = 9

abbrev pub blank : ℕ
blank = b' '

abbrev pub symbol_1 : ℕ
symbol_1 = b'X'

abbrev pub symbol_2 : ℕ
symbol_2 = b'O'

abbrev pub draw : ℕ
draw = b'd'

abbrev pub check_line : ℕ → ℕ → ℕ → ℕ
check_line f1 f2 f3 = if not (f1 == blank) && (f1 == f2) && (f2 == f3) then f1 else 0

-- The table `opts`: the rows, the columns and the diagonals.
abbrev pub opts : List (ℕ × ℕ × ℕ)
opts =
    (0, 1, 2)
    ∷ (3, 4, 5)
    ∷ (6, 7, 8)
    ∷ (0, 3, 6)
    ∷ (1, 4, 7)
    ∷ (2, 5, 8)
    ∷ (0, 4, 8)
    ∷ (2, 4, 6)
    ∷ []

-- The first loop: the winner on the first line that has one, and 0 where none has.
pub line_winner : List (ℕ × ℕ × ℕ) → Cells → ℕ
line_winner [] b = 0
line_winner ((i, j, k) ∷ rest) b =
    let later = line_winner rest b in
    let winner = check_line (b i) (b j) (b k) in if winner == 0 then later else winner

-- The second loop stops at the first blank.
pub check_game_status : Cells → ℕ
check_game_status b =
    let winner = line_winner opts b in
    if not (winner == 0)
    then winner
    else elim (find_index board_size (λ i. b i == blank)) [ some i ↦ 0 | none ↦ draw ]
