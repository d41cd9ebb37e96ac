-- ===== src/Game/Server/Handlers.antt =====
-- The handlers that run after a client is registered: `handle_disconnect`, `handle_move`, the
-- switch of `start_routine_manage_sockets`, one round of `start_routine_ping`, and `handle_exit`.
pub mod Leave
pub mod Play
pub mod Shutdown
pub mod Session
mod Tests
use agh_sys_opy.Prelude.{
  ℕ, zero, suc, ◌+◌, ◌-◌, Bool, true, false, not, Option, none, some, ◌==◌, if◌then◌else◌, ltb,
  write_at,
}
use agh_sys_opy.Prelude.Int.{ℤ, pos, negsuc}
use agh_sys_opy.Game.Board.{Cells, board_size, check_game_status}
use agh_sys_opy.Game.Message.{max_players, Reply, Request}
use agh_sys_opy.Game.Server.{
  Server, write, ping_epoll_add, lock, unlock, epoll_del, close, client, call, set_client,
}

-- `free(clients[id].board)`, and NULL in both players' fields. A board is freed once.
release_board : Server → ℕ → ℕ → Option Server
release_board s id j = elim (s.clients id).board [
  | none ↦ some s
  | some a ↦ elim (s.heap a) [
    | none ↦ none
    | some cells ↦
        let mine = record (s.clients id) { board = none } in
        let s1 = set_client id mine (record s { heap = write_at a none s.heap }) in
        some (set_client j (record (s1.clients j) { board = none }) s1)
  ]
]

-- Both opponents are cleared, and the other player is told.
leave_opponent : Server → ℕ → ℕ → Server
leave_opponent s id j =
    let s1 = set_client j (record (s.clients j) { opponent = none }) s in
    let s2 = set_client id (record (s1.clients id) { opponent = none }) s1 in
    call (write (s2.clients j).sockfd Reply.op_left) s2

-- `handle_disconnect` from the lock on, for the opponent `j`.
leave_game : Server → ℕ → ℕ → Option Server
unfolding release_board leave_opponent
leave_game s id j =
    let s1 = leave_opponent (call (lock (client (some j))) s) id j in
    let s2 = call (epoll_del (s1.clients id).sockfd) s1 in
    let s3 =
      call (close (s2.clients id).sockfd)
        (set_client id (record (s2.clients id) { taken = false }) s2) in
    elim (release_board s3 id j) [
      | some s4 ↦ some (call (unlock (client (some j))) s4)
      | none ↦ none
    ]

-- A player who has no opponent: the mutex of `clients[-1]` is locked, outside of the array.
pub handle_disconnect : Server → ℕ → Option Server
unfolding leave_game
handle_disconnect s id =
    if not (s.clients id).taken
    then some s
    else elim (s.clients id).opponent [ none ↦ none | some j ↦ leave_game s id j ]

-- `move - 1` as an index of the board; `none` is out of range.
abbrev pub cell_of : ℤ → Option ℕ
cell_of (pos zero) = none
cell_of (pos (suc k)) = if ltb k board_size then some k else none
cell_of (negsuc n) = none

-- `clients[id].board[move - 1] = clients[id].symbol`, and the board that results.
store_symbol : Server → ℕ → ℤ → Option (Server × Cells)
store_symbol s id move = elim (s.clients id).board [
  | none ↦ none
  | some a ↦ elim (s.heap a) [
    | none ↦ none
    | some cells ↦ elim (cell_of move) [
      | none ↦ none
      | some k ↦
          let cells' = write_at k (s.clients id).symbol cells in
          some (record s { heap = write_at a (some cells') s.heap }, cells')
    ]
  ]
]

-- What the players are told after a move that leaves the board `cells`.
tell_move : Server → ℕ → ℕ → Cells → Server
tell_move s id opponent cells =
    let status = check_game_status cells in
    if not (status == 0)
    then call (write (s.clients id).sockfd (Reply.finish status))
        (call (write (s.clients opponent).sockfd (Reply.finish status)) s)
    else call (write (s.clients opponent).sockfd (Reply.board cells)) s

pub handle_move : Server → ℕ → ℤ → Option Server
unfolding store_symbol tell_move
handle_move s id move = elim (s.clients id).opponent [
  | none ↦ some s
  | some j ↦
      let s1 = call (lock (client (some j))) s in
      let stored = store_symbol s1 id move in
      if not (s1.clients j).taken
      then some
          (call (unlock (client (some j))) (call (write (s1.clients id).sockfd Reply.op_left) s1))
      else elim stored [
        | some (s2, cells) ↦ some (call (unlock (client (some j))) (tell_move s2 id j cells))
        | none ↦ none
      ]
]

-- The body of the loop of `handle_exit`, at the index `i`.
exit_client : Server → ℕ → Option Server
exit_client s i =
    let s1 =
      call (close (s.clients i).sockfd) (call (write (s.clients i).sockfd Reply.disconnect) s) in
    if not (s.clients i).taken then some s else elim (s.clients i).board [
      | none ↦ some s1
      | some a ↦ elim (s.heap a) [
        | none ↦ none
        | some cells ↦ elim (s.clients i).opponent [
          | none ↦ none
          | some j ↦ some (
              set_client j (record (s.clients j) { board = none })
                (record s1 { heap = write_at a none s.heap }))
        ]
      ]
    ]

-- The loop of `handle_exit`, with `n` rounds left, at the index `i`.
exit_clients : ℕ → ℕ → Server → Option Server
exit_clients zero i s = some s
exit_clients (suc n) i s = elim (exit_client s i) [
  | some s1 ↦ exit_clients n (suc i) s1
  | none ↦ none
]

-- The players' part of `handle_exit`.
pub handle_exit : Server → Option Server
unfolding exit_clients
handle_exit s = exit_clients max_players 0 s

-- One round of the loop of `start_routine_ping` at the index `i`; `ndfs` is what `epoll_wait` gives.
ping_client : Server → ℕ → ℤ → Option Server
ping_client s i ndfs =
    let sockfd = (s.clients i).sockfd in
    let s1 = call (write sockfd Reply.ping) (call (ping_epoll_add sockfd) s) in
    let dropped = handle_disconnect s1 i in
    if not (s.clients i).taken
    then some s
    else elim ndfs [ pos n ↦ some s1 | negsuc zero ↦ dropped | negsuc (suc n) ↦ some s1 ]

pub ping_clients : ℕ → ℕ → (ℕ → ℤ) → Server → Option Server
unfolding ping_client
ping_clients zero i ndfs s = some s
ping_clients (suc n) i ndfs s = elim (ping_client (call (lock (client (some i))) s) i (ndfs i)) [
  | some s1 ↦ ping_clients n (suc i) ndfs (call (unlock (client (some i))) s1)
  | none ↦ none
]

-- How a handler ends: the server goes on, has left by `exit(1)`, or has done something undefined.
pub data Outcome : Type 0 where
  running : Server → Outcome
  exited : Server → Outcome
  undefined : Outcome

-- `exit(1)`, which runs `handle_exit`.
abbrev leave : Option Server → Outcome
leave (some s) = exited s
leave none = undefined

-- The end of one round of the loop: the client's mutex is released.
abbrev pub unlocked : ℕ → Option Server → Outcome
unlocked id (some s) = running (call (unlock (client (some id))) s)
unlocked id none = undefined

-- The switch over the type of a message, with the client's mutex held.
handle_request : Server → Request → Outcome
handle_request s (Request.disconnect id) = unlocked id (handle_disconnect s id)
handle_request s (Request.move id move) = unlocked id (handle_move s id move)
handle_request s (Request.ping id) = unlocked id (some s)
handle_request s (Request.invalid id) = leave (handle_exit s)

-- `msg.id`
abbrev pub request_id : Request → ℕ
request_id (Request.disconnect id) = id
request_id (Request.move id move) = id
request_id (Request.ping id) = id
request_id (Request.invalid id) = id

-- One message of `start_routine_manage_sockets`. `clients[msg.id]` is in the array only at an id
-- below `max_players`.
pub manage_socket : Server → Request → Outcome
unfolding handle_request
manage_socket s msg =
    let s1 = call (lock (client (some (request_id msg)))) s in
    if ltb (request_id msg) max_players then handle_request s1 msg else undefined
