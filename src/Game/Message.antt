-- ===== src/Game/Message.antt =====
-- The messages of cw10/zad1/utils.h. A message that a program sends holds the fields that the
-- program sets; the C struct has the rest uninitialised.
use agh_sys_opy.Prelude.{ℕ, List}
use agh_sys_opy.Prelude.Int.{ℤ}
use agh_sys_opy.Game.Board.{Cells}

abbrev pub max_players : ℕ
max_players = 12

abbrev pub max_cname_len : ℕ
max_cname_len = 50

-- What the server writes to a client.
pub data Reply : Type 0 where
  connect : (id : ℕ) → Reply
  disconnect : Reply
  ping : Reply
  board : (cells : Cells) → Reply
  name_taken : Reply
  too_many : Reply
  finish : (winner : ℕ) → Reply
  start : (name : List ℕ) → (symbol : ℕ) → Reply
  op_left : Reply

-- What a registered client writes to the server; `invalid` is a message of any other type. (The
-- CONNECT message that opens a connection is the name that it carries.)
pub data Request : Type 0 where
  disconnect : (id : ℕ) → Request
  ping : (id : ℕ) → Request
  move : (id : ℕ) → (move : ℤ) → Request
  invalid : (id : ℕ) → Request
