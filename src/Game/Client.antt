-- ===== src/Game/Client.antt =====
-- The player's program: cw10/zad1/client.c, from the first message of the server on. What the
-- player types is a list of numbers, one for each call of `scanf`.
pub mod Play
use agh_sys_opy.Prelude.{
  ℕ, zero, suc, Bool, true, false, not, ◌||◌, List, [], ◌∷◌, Option, none, some, ◌==◌,
  if◌then◌else◌, ltb,
}
use agh_sys_opy.Prelude.Int.{ℤ, pos, negsuc}
use agh_sys_opy.Game.Board.{Cells, board_size, blank, draw}
use agh_sys_opy.Game.Message.{Reply, Request}

-- The globals `id` and `symbol`.
pub record Player : Type 0 where
  pub id : ℕ
  pub symbol : ℕ

-- What is printed at the end of a game.
pub data Ending : Type 0 where
  drawn won lost : Ending

-- What the program does on a message: it goes on, or leaves by `exit(code)`; either way with the
-- messages sent, the newest first. `handle_exit` sends a last one.
pub data Turn : Type 0 where
  goes_on : Player → List Request → Turn
  leaves : (code : ℕ) → List Request → Turn
  ends : Ending → List Request → Turn
  -- `scanf` has nothing more to read.
  waits : Turn

-- The test of the loop of `handle_board`. `board[move - 1]` is read only at 1..9.
abbrev pub is_invalid : Cells → ℤ → Bool
is_invalid cells (pos zero) = true
is_invalid cells (pos (suc k)) = not (ltb k board_size) || not (cells k == blank)
is_invalid cells (negsuc n) = true

-- The first `scanf` and the loop: the numbers are read up to the first valid move.
pub read_move : Cells → List ℤ → Option ℤ
read_move cells [] = none
read_move cells (move ∷ rest) =
    let again = read_move cells rest in if is_invalid cells move then again else some move

pub handle_board : Player → Cells → List ℤ → Turn
handle_board p cells input = elim (read_move cells input) [
  | some move ↦ goes_on p (Request.move p.id move ∷ [])
  | none ↦ waits
]

abbrev pub handle_finish : Player → ℕ → Ending
handle_finish p winner =
    if winner == draw then Ending.drawn else if winner == p.symbol then Ending.won else Ending.lost

-- The message of `handle_exit`.
abbrev pub goodbye : Player → List Request
goodbye p = Request.disconnect p.id ∷ []

-- The switch of `main`.
pub handle_reply : Player → List ℤ → Reply → Turn
unfolding handle_board
handle_reply p input (Reply.connect id) = goes_on (record p { id = id }) []
handle_reply p input Reply.disconnect = leaves 0 (goodbye p)
handle_reply p input Reply.ping = goes_on p (Request.ping p.id ∷ [])
handle_reply p input (Reply.board cells) = handle_board p cells input
handle_reply p input Reply.name_taken = leaves 1 (goodbye p)
handle_reply p input (Reply.finish winner) = ends (handle_finish p winner) (goodbye p)
handle_reply p input (Reply.start name symbol) = goes_on (record p { symbol = symbol }) []
handle_reply p input Reply.op_left = leaves 0 (goodbye p)
handle_reply p input Reply.too_many = leaves 1 (goodbye p)
