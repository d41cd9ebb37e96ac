-- ===== src/Game/Server/Handlers/Session.antt =====
-- The server from its start on, through any sequence of connections, messages and pings, each
-- handled to its end before the next.
use agh_sys_opy.Prelude.{
  ℕ, zero, suc, ◌<◌, ◌≡◌, true, Option, none, some, arith, ltb, Option-cases, Bool-cases, inl, inr,
  Yields, Succeeds-Yields, Yields-bind, Yields-some, List, subst,
}
use agh_sys_opy.Prelude.Int.{ℤ, pos, negsuc}
use agh_sys_opy.Game.Board.{board_size}
use agh_sys_opy.Game.Message.{max_players, Reply, Request}
use agh_sys_opy.Game.Server.{
  Server, Call, write, lock, unlock, client, call, ping_epoll_add, creat_clients, accept_client,
}
use agh_sys_opy.Game.Server.Accept.{accept_client-IsValid}
use agh_sys_opy.Game.Server.Invariant.{IsValid, creat_clients-IsValid}
use agh_sys_opy.Game.Server.Handlers.{
  handle_disconnect, handle_move, ping_client, ping_clients, Outcome, running, exited, undefined,
  unlocked, handle_request, request_id, manage_socket,
}
use agh_sys_opy.Game.Server.Handlers.Leave.{handle_disconnect-IsValid}
use agh_sys_opy.Game.Server.Handlers.Play.{handle_move-HasMoved}

-- A message that the client program sends: its id is the one that the server gave it, and a move
-- is one of 1..9.
abbrev pub IsSent : Server → Request → Type 0
IsSent s (Request.disconnect id) = (s.clients id).taken ≡ true
IsSent s (Request.ping id) = (s.clients id).taken ≡ true
IsSent s (Request.move id move) =
    ((s.clients id).taken ≡ true) × ((k : ℕ) × (k < board_size) × (move ≡ pos (suc k)))
IsSent s (Request.invalid id) = ⊥

-- What holds where a handler goes on.
abbrev pub Runs : (Server → Type 0) → Outcome → Type 0
Runs P (running s) = P s
Runs P (exited s) = ⊥
Runs P undefined = Unit

unlocked-Runs : (id : ℕ) (r : Option Server) → Yields IsValid r → Runs IsValid (unlocked id r)
unlocked-Runs id (some s) v = v
unlocked-Runs id none v = v

handle_move_alone :
    (s : Server) (id : ℕ) (move : ℤ)
    → (s.clients id).opponent ≡ none
    → handle_move s id move ≡ some s
unfolding handle_move
handle_move_alone s id move o = ground arith

handle_move-IsValid :
    (s : Server) (id k : ℕ)
    → IsValid s
    → (s.clients id).taken ≡ true
    → k < board_size
    → Yields IsValid (handle_move s id (pos (suc k)))
handle_move-IsValid s id k v t lt = elim (Option-cases (s.clients id).opponent) [
  | inl o ↦ rw (handle_move_alone s id (pos (suc k)) o) v
  | inr (j, o) ↦
      Succeeds-Yields (handle_move s id (pos (suc k))) (λ s' h. h.0)
        (handle_move-HasMoved s id j k v t o lt).5
]

handle_request-IsValid :
    (s : Server) (msg : Request) → IsValid s → IsSent s msg → Runs IsValid (handle_request s msg)
unfolding handle_request
handle_request-IsValid s (Request.disconnect id) v h =
    unlocked-Runs id (handle_disconnect s id) (handle_disconnect-IsValid s id v)
handle_request-IsValid s (Request.ping id) v h = v
handle_request-IsValid s (Request.move id move) v (t, (k, lt, e)) =
    rw e (unlocked-Runs id (handle_move s id (pos (suc k))) (handle_move-IsValid s id k v t lt))
handle_request-IsValid s (Request.invalid id) v h = absurd h

sent_id-taken :
    (s : Server) (msg : Request) → IsSent s msg → (s.clients (request_id msg)).taken ≡ true
sent_id-taken s (Request.disconnect id) h = h
sent_id-taken s (Request.ping id) h = h
sent_id-taken s (Request.move id move) h = h.0
sent_id-taken s (Request.invalid id) h = absurd h

IsSent-call : (c : Call) (s : Server) (msg : Request) → IsSent s msg → IsSent (call c s) msg
IsSent-call c s (Request.disconnect id) h = h
IsSent-call c s (Request.ping id) h = h
IsSent-call c s (Request.move id move) h = h
IsSent-call c s (Request.invalid id) h = h

-- On a valid table a message that a registered client may send does not end the server, and the
-- table stays valid unless a player who waits leaves, which is undefined.
pub manage_socket-IsValid :
    (s : Server) (msg : Request) → IsValid s → IsSent s msg → Runs IsValid (manage_socket s msg)
unfolding manage_socket
manage_socket-IsValid s msg v h = elim (Bool-cases (ltb (request_id msg) max_players)) [
  | inl e ↦
      rw e (
        handle_request-IsValid _ msg v
          (IsSent-call (lock (client (some (request_id msg)))) s msg h))
  | inr e ↦ absurd (ground (arith, v.in_table (request_id msg) (sent_id-taken s msg h)))
]

-- What a round of pings does at one index, whatever `epoll_wait` returns.
ping_client-IsValid :
    (s : Server) (i : ℕ) (ndfs : ℤ) → IsValid s → Yields IsValid (ping_client s i ndfs)
unfolding ping_client
ping_client-IsValid s i ndfs v = elim (Bool-cases (s.clients i).taken) [
  | inr t ↦ rw t v
  | inl t ↦ rw t (pinged ndfs)
]
  where
    s1 : Server
    s1 = call (write (s.clients i).sockfd Reply.ping) (call (ping_epoll_add (s.clients i).sockfd) s)

    pinged :
        (n : ℤ)
        → Yields IsValid (elim n [
          | pos n ↦ some s1
          | negsuc zero ↦ handle_disconnect s1 i
          | negsuc (suc n) ↦ some s1
        ])
    pinged (pos n) = v
    pinged (negsuc zero) = handle_disconnect-IsValid s1 i v
    pinged (negsuc (suc n)) = v

-- A round of pings keeps the table valid, unless a player who waits is dropped.
pub ping_clients-IsValid :
    (n i : ℕ) (ndfs : ℕ → ℤ) (s : Server) → IsValid s → Yields IsValid (ping_clients n i ndfs s)
unfolding ping_clients
ping_clients-IsValid zero i ndfs s v = v
ping_clients-IsValid (suc n) i ndfs s v =
    Yields-bind IsValid (ping_client (call (lock (client (some i))) s) i (ndfs i))
      (λ s1. ping_clients n (suc i) ndfs (call (unlock (client (some i))) s1))
      (λ s1 w. ping_clients-IsValid n (suc i) ndfs _ w) (ping_client-IsValid _ i (ndfs i) v)

-- One thing that the server does: it takes a connection, handles a message, or pings everybody.
pub data Step (s : Server) : Server → Type 0 where
  connects : (sockfd : ℕ) (name : List ℕ) (rand : ℕ) → Step s (accept_client s sockfd name rand)
  sends :
      (msg : Request) {s' : Server} → IsSent s msg → manage_socket s msg ≡ running s' → Step s s'
  pings : (ndfs : ℕ → ℤ) {s' : Server} → ping_clients max_players 0 ndfs s ≡ some s' → Step s s'

pub data Reach : Server → Type 0 where
  start : Reach creat_clients
  later : {s s' : Server} → Reach s → Step s s' → Reach s'

Runs-running : (r : Outcome) {s : Server} → r ≡ running s → Runs IsValid r → IsValid s
Runs-running r e h = subst (Runs IsValid) e h

Step-IsValid : {s s' : Server} → Step s s' → IsValid s → IsValid s'
Step-IsValid {s} (connects sockfd name rand) v = accept_client-IsValid s sockfd name rand v
Step-IsValid {s} (sends msg h e) v =
    Runs-running (manage_socket s msg) e (manage_socket-IsValid s msg v h)
Step-IsValid {s} (pings ndfs e) v =
    Yields-some IsValid e (ping_clients-IsValid max_players 0 ndfs s v)

-- After any sequence of connections, messages of registered clients whose moves lie in 1..9, and
-- rounds of pings, each of them handled to its end before the next one begins, as long as no handler
-- does something undefined (which the departure of a player who waits is): the table of players is
-- valid.
pub Reach-IsValid : {s : Server} → Reach s → IsValid s
Reach-IsValid start = creat_clients-IsValid
Reach-IsValid (later r st) = Step-IsValid st (Reach-IsValid r)
