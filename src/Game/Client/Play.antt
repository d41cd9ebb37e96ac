-- ===== src/Game/Client/Play.antt =====
-- The moves that the client lets through, and what the server does with them.
use agh_sys_opy.Prelude.{
  ℕ, zero, suc, ◌<◌, ◌≡◌, refl, true, false, List, [], ◌∷◌, ◌++◌, Option, none, some, arith,
  Bool-cases, inl, inr, Succeeds,
}
use agh_sys_opy.Prelude.Int.{ℤ, pos, negsuc}
use agh_sys_opy.Game.Board.{Cells, board_size, blank}
use agh_sys_opy.Game.Message.{Reply, Request}
use agh_sys_opy.Game.Server.{Server}
use agh_sys_opy.Game.Server.Handlers.{handle_move}
use agh_sys_opy.Game.Server.Handlers.Play.{HasMoved, handle_move-HasMoved}
use agh_sys_opy.Game.Server.Invariant.{IsValid}
use agh_sys_opy.Game.Client.{
  Player, goes_on, waits, is_invalid, read_move, handle_board, handle_reply,
}

-- A move to a blank cell.
abbrev pub IsLegal : Cells → ℤ → Type 0
IsLegal cells move = (k : ℕ) × (move ≡ pos (suc k)) × (k < board_size) × (cells k ≡ blank)

is_invalid-IsLegal : (cells : Cells) (move : ℤ) → is_invalid cells move ≡ false → IsLegal cells move
is_invalid-IsLegal cells (pos zero) e = absurd (ground arith)
is_invalid-IsLegal cells (pos (suc k)) e = (k, refl, ground arith, ground arith)
is_invalid-IsLegal cells (negsuc n) e = absurd (ground arith)

read_move-IsLegal :
    (cells : Cells) (input : List ℤ) (move : ℤ)
    → read_move cells input ≡ some move
    → IsLegal cells move
unfolding read_move
read_move-IsLegal cells [] move e = absurd (ground arith)
read_move-IsLegal cells (first ∷ rest) move e = elim (Bool-cases (is_invalid cells first)) [
  | inl bad ↦ read_move-IsLegal cells rest move (rw bad at e)
  | inr good ↦ rw (← some_eq (rw good at e)) (is_invalid-IsLegal cells first good)
]
  where
    some_eq : some first ≡ some move → first ≡ move
    some_eq e = cc

-- No number of the list is a move to a blank cell.
abbrev pub NoneLegal : Cells → List ℤ → Type 0
NoneLegal cells [] = Unit
NoneLegal cells (x ∷ xs) = (¬ IsLegal cells x) × NoneLegal cells xs

IsLegal-is_invalid : (cells : Cells) (move : ℤ) → IsLegal cells move → is_invalid cells move ≡ false
IsLegal-is_invalid cells move (k, e, lt, b) = rw e (ground arith)

read_move_first :
    (cells : Cells) (refused : List ℤ) (move : ℤ) (rest : List ℤ)
    → NoneLegal cells refused
    → IsLegal cells move
    → read_move cells (refused ++ (move ∷ rest)) ≡ some move
unfolding read_move
read_move_first cells [] move rest h legal = rw (IsLegal-is_invalid cells move legal)
read_move_first cells (x ∷ xs) move rest h legal = elim (Bool-cases (is_invalid cells x)) [
  | inl bad ↦ rw bad (read_move_first cells xs move rest h.1 legal)
  | inr good ↦ absurd (h.0 (is_invalid-IsLegal cells x good))
]

-- On a board the player is asked until a number is a move to a blank cell: the program asks the
-- server for that move, and every number before it is refused.
pub board_reply_first :
    (p : Player) (cells : Cells) (refused : List ℤ) (move : ℤ) (rest : List ℤ)
    → NoneLegal cells refused
    → IsLegal cells move
    → handle_reply p (refused ++ (move ∷ rest)) (Reply.board cells)
      ≡ goes_on p (Request.move p.id move ∷ [])
unfolding handle_reply handle_board
board_reply_first p cells refused move rest h legal =
    ground (arith, read_move_first cells refused move rest h legal)

-- The request that a client sends on a board asks for a move to a blank cell of that board.
handle_board-IsLegal :
    (p p' : Player) (cells : Cells) (input : List ℤ) (id : ℕ) (move : ℤ)
    → handle_board p cells input ≡ goes_on p' (Request.move id move ∷ [])
    → (id ≡ p.id) × IsLegal cells move
unfolding handle_board
handle_board-IsLegal p p' cells input id move e = go (read_move cells input) refl e
  where
    go :
        (r : Option ℤ)
        → read_move cells input ≡ r
        → elim r [ some m ↦ goes_on p (Request.move p.id m ∷ []) | none ↦ waits ]
          ≡ goes_on p' (Request.move id move ∷ [])
        → (id ≡ p.id) × IsLegal cells move
    go (some m) here eq =
        let same : m ≡ move = cc in (cc, rw (← same) (read_move-IsLegal cells input m here))
    go none here eq = absurd (ground arith)

-- The whole round of a move: where the server's table is valid and holds the board that it sent to
-- the player, the request with which the player's program answers is handled, keeps the table
-- valid, and writes the player's symbol at a cell that was blank.
pub board_reply-HasMoved :
    (s : Server) (p p' : Player) (j a id : ℕ) (cells : Cells) (input : List ℤ) (move : ℤ)
    → IsValid s
    → (s.clients p.id).taken ≡ true
    → (s.clients p.id).opponent ≡ some j
    → (s.clients p.id).board ≡ some a
    → s.heap a ≡ some cells
    → handle_reply p input (Reply.board cells) ≡ goes_on p' (Request.move id move ∷ [])
    → (k : ℕ) × (cells k ≡ blank)
      × Succeeds (λ s'. IsValid s' × HasMoved s p.id j a k cells s') (handle_move s id move)
unfolding handle_reply
board_reply-HasMoved s p p' j a id cells input move v t o b h e =
    let (same, legal) = handle_board-IsLegal p p' cells input id move e in
    let (k, is_k, lt, free) = legal in
    let (a', cells', mine, shared, here, done) = handle_move-HasMoved s p.id j k v t o lt in
    let ea : a' ≡ a = ground arith in
    let ec : cells' ≡ cells = cc in (k, free, rw (same, is_k, ← ea, ← ec) done)
