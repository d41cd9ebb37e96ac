-- ===== src/Game/Server/Handlers/Tests.antt =====
-- Two players connect to the server of cw10/zad1 and play; the theorems at these states.
use agh_sys_opy.Prelude.{ℕ, ◌≡◌, refl, true, [], ◌∷◌, some, none, arith, find_from, Succeeds}
use agh_sys_opy.Prelude.Int.{pos}
use agh_sys_opy.Game.Board.{Cells, blank, symbol_1, symbol_2}
use agh_sys_opy.Game.Server.{
  Server, empty_board, creat_clients, check_username, register_client, find_opponent, accept_client,
}
use agh_sys_opy.Game.Server.Accept.{accept_client-IsValid}
use agh_sys_opy.Game.Server.Invariant.{IsValid, creat_clients-IsValid}
use agh_sys_opy.Game.Client.{Player}
use agh_sys_opy.Game.Client.Play.{IsLegal, board_reply_first, board_reply-HasMoved}
use agh_sys_opy.Game.Server.Handlers.{handle_disconnect, handle_move, handle_exit}
use agh_sys_opy.Game.Server.Handlers.Leave.{HasLeft, handle_disconnect-HasLeft}
use agh_sys_opy.Game.Server.Handlers.Play.{HasMoved, handle_move-HasMoved}
use agh_sys_opy.Game.Server.Handlers.Shutdown.{handle_exit_frees_all}
use agh_sys_opy.Game.Server.Handlers.Session.{start, later, connects, Reach-IsValid}

abbrev one_player : Server
one_player = accept_client creat_clients 4 (b'a' ∷ []) 0

-- Player 0 waits until player 1 comes.
abbrev two_players : Server
two_players = accept_client one_player 5 (b'b' ∷ []) 1

one_player-IsValid : IsValid one_player
one_player-IsValid = accept_client-IsValid creat_clients 4 (b'a' ∷ []) 0 creat_clients-IsValid

two_players-IsValid : IsValid two_players
two_players-IsValid = accept_client-IsValid one_player 5 (b'b' ∷ []) 1 one_player-IsValid

two_players_facts :
    ((two_players.clients 1).taken ≡ true)
    × ((two_players.clients 1).opponent ≡ some 0)
    × ((two_players.clients 0).opponent ≡ some 1)
    × ((two_players.clients 0).symbol ≡ symbol_1)
    × ((one_player.clients 0).taken ≡ true)
unfolding accept_client check_username register_client find_opponent find_from
two_players_facts = (refl, refl, refl, refl, refl)

handle_disconnect-HasLeft_example :
    Succeeds (λ s'. IsValid s' × HasLeft two_players 1 s') (handle_disconnect two_players 1)
handle_disconnect-HasLeft_example =
    handle_disconnect-HasLeft two_players 1 0 two_players-IsValid two_players_facts.0
      two_players_facts.1

handle_move-HasMoved_example :
    (a : ℕ) × (cells : Cells) × ((two_players.clients 1).board ≡ some a)
    × ((two_players.clients 0).board ≡ some a)
    × (two_players.heap a ≡ some cells)
    × Succeeds
        (λ s'. IsValid s' × HasMoved two_players 1 0 a 4 cells s')
        (handle_move two_players 1 (pos 5))
handle_move-HasMoved_example =
    handle_move-HasMoved two_players 1 0 4 two_players-IsValid two_players_facts.0
      two_players_facts.1 (omega arith)

handle_exit_frees_all_example :
    Succeeds (λ s'. (a : ℕ) → s'.heap a ≡ none) (handle_exit two_players)
handle_exit_frees_all_example = handle_exit_frees_all two_players two_players-IsValid

Reach-IsValid_example : IsValid two_players
Reach-IsValid_example =
    Reach-IsValid (later (later start (connects 4 (b'a' ∷ []) 0)) (connects 5 (b'b' ∷ []) 1))

abbrev second : Player
second = record { id = 1; symbol = symbol_2 }

two_players_board :
    ((two_players.clients 1).board ≡ some 0) × (two_players.heap 0 ≡ some empty_board)
unfolding accept_client check_username register_client find_opponent find_from
two_players_board = (refl, refl)

no_move : ¬ IsLegal empty_board (pos 0)
no_move (k, e, lt, b) = ground arith

no_tenth : ¬ IsLegal empty_board (pos 10)
no_tenth (k, e, lt, b) = ground arith

-- 0 and 10 are refused, 5 is taken.
board_reply-HasMoved_example :
    (k : ℕ) × (empty_board k ≡ blank)
    × Succeeds
        (λ s'. IsValid s' × HasMoved two_players 1 0 0 k empty_board s')
        (handle_move two_players 1 (pos 5))
board_reply-HasMoved_example =
    board_reply-HasMoved two_players second second 0 0 1 empty_board (pos 0 ∷ pos 10 ∷ pos 5 ∷ [])
      (pos 5) two_players-IsValid two_players_facts.0 two_players_facts.1 two_players_board.0
      two_players_board.1
      (board_reply_first second empty_board (pos 0 ∷ pos 10 ∷ []) (pos 5) []
        (no_move, (no_tenth, tt)) (4, refl, omega arith, refl))
