-- ===== src/Game/Server.antt =====
-- The server's table of players, its heap of boards and its handlers: cw10/zad1/server.c.
-- `clients[i]` is `s.clients i` at `i < max_players`. A handler is a function on the server's
-- state; `none` means that the C code follows a null or dangling pointer or writes outside a
-- board. Calls to the system are kept in `log`, the newest first.
pub mod Handlers
pub mod Invariant
pub mod Accept
use agh_sys_opy.Prelude.{
  ℕ, zero, suc, ◌+◌, ◌-◌, ◌%◌, ◌<◌, Bool, true, false, ◌&&◌, not, List, [], ◌∷◌, Option, none, some,
  ◌==◌, if◌then◌else◌, ltb, find_index, find_from, write_at, str_eq,
}
use agh_sys_opy.Prelude.Int.{ℤ, pos, negsuc}
use agh_sys_opy.Game.Board.{Cells, board_size, blank, symbol_1, symbol_2, check_game_status}
use agh_sys_opy.Game.Message.{max_players, Reply, Request}

-- `struct client`; -1 in `opponent` is `none`, and so is NULL in `board`.
pub record Client : Type 0 where
  pub name : List ℕ
  pub taken : Bool
  pub opponent : Option ℕ
  pub sockfd : ℕ
  pub symbol : ℕ
  pub board : Option ℕ

-- `clients_mutex`, and the mutex of a client: `none` stands for the index -1.
pub data Mutex : Type 0 where
  table : Mutex
  client : Option ℕ → Mutex

-- A call to the system.
pub data Call : Type 0 where
  write : (sockfd : ℕ) → Reply → Call
  lock : Mutex → Call
  unlock : Mutex → Call
  epoll_add : (sockfd : ℕ) → Call
  epoll_del : (sockfd : ℕ) → Call
  close : (sockfd : ℕ) → Call
  ping_epoll_add : (sockfd : ℕ) → Call

-- `heap a` is the board at address `a`, if one is allocated there. `malloc` returns `next`.
pub record Server : Type 0 where
  pub clients : ℕ → Client
  pub heap : ℕ → Option Cells
  pub next : ℕ
  pub log : List Call

abbrev pub call : Call → Server → Server
call c s = record s { log = c ∷ s.log }

abbrev pub set_client : ℕ → Client → Server → Server
set_client i c s = record s { clients = write_at i c s.clients }

-- `creat_clients`, over the zeroed static array: `opponent` is 0 before a slot is first taken.
abbrev pub creat_clients : Server
creat_clients = record {
  clients = λ _. record {
    name = [];
    taken = false;
    opponent = some 0;
    sockfd = 0;
    symbol = 0;
    board = none;
  };
  heap = λ _. none;
  next = 0;
  log = [];
}

-- The test of the loop of `check_username`.
abbrev pub has_name : Server → List ℕ → ℕ → Bool
has_name s name i = (s.clients i).taken && str_eq (s.clients i).name name

-- What `check_username` does with the player that it has found.
reject_name : Server → ℕ → Option ℕ → Server × Bool
reject_name s sockfd (some i) = (call (write sockfd Reply.name_taken) s, true)
reject_name s sockfd none = (s, false)

pub check_username : Server → ℕ → List ℕ → Server × Bool
unfolding reject_name
check_username s sockfd name = reject_name s sockfd (find_index max_players (has_name s name))

abbrev pub is_free : Server → ℕ → Bool
is_free s i = not (s.clients i).taken

-- The slot `i` as `register_client` leaves it.
abbrev pub registered : Server → ℕ → List ℕ → ℕ → Client
registered s sockfd name i =
    let c = s.clients i in record c { name = name; taken = true; sockfd = sockfd; opponent = none }

-- What `register_client` does with the slot that it has found.
take_slot : Server → ℕ → List ℕ → Option ℕ → Server × Option ℕ
take_slot s sockfd name (some i) = (
  call (epoll_add sockfd)
      (call (write sockfd (Reply.connect i)) (set_client i (registered s sockfd name i) s)),
  some i,
)
take_slot s sockfd name none = (call (write sockfd Reply.too_many) s, none)

pub register_client : Server → ℕ → List ℕ → Server × Option ℕ
unfolding take_slot
register_client s sockfd name = take_slot s sockfd name (find_index max_players (is_free s))

abbrev is_none : Option ℕ → Bool
is_none none = true
is_none (some i) = false

-- The test of the loop of `find_opponent`.
abbrev pub is_waiting : Server → ℕ → ℕ → Bool
is_waiting s id i = not (i == id) && (s.clients i).taken && is_none (s.clients i).opponent

abbrev pub empty_board : Cells
empty_board j = blank

-- The pair that `find_opponent` makes: two opponents, their symbols and one board.
abbrev pub paired : Server → ℕ → ℕ → Server
paired s id i =
    let me = s.clients id in
    let other = s.clients i in
    record s {
      clients =
          write_at i (record other { opponent = some id; symbol = symbol_1; board = some s.next })
            (write_at id (record me { opponent = some i; symbol = symbol_2; board = some s.next })
              s.clients);
      heap = write_at s.next (some empty_board) s.heap;
      next = s.next + 1;
    }

-- What `find_opponent` does with the player that it has found; `rand` is the value of `rand()`.
start_match : Server → ℕ → ℕ → Option ℕ → Server
start_match s id rand none = s
start_match s id rand (some i) =
    let who_starts = if rand % 2 == 0 then id else i in
    call (write (s.clients who_starts).sockfd (Reply.board empty_board)) (
      call (write (s.clients id).sockfd (Reply.start (s.clients i).name symbol_2)) (
        call (write (s.clients i).sockfd (Reply.start (s.clients id).name symbol_1))
          (paired s id i)))

pub find_opponent : Server → ℕ → ℕ → Server
unfolding start_match
find_opponent s id rand = start_match s id rand (find_index max_players (is_waiting s id))

-- The rest of the round, after `register_client`.
greet : Server → ℕ → Option ℕ → Server
greet s rand (some new_id) = find_opponent s new_id rand
greet s rand none = s

-- The body of the accept loop in `creat_threads`, for one connection that sends a name.
pub accept_client : Server → ℕ → List ℕ → ℕ → Server
unfolding greet
accept_client s sockfd name rand =
    let (s1, exists) = check_username (call (lock table) s) sockfd name in
    let (s2, slot) = register_client s1 sockfd name in
    call (unlock table) (if exists then s1 else greet s2 rand slot)
