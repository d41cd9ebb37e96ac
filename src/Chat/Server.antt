-- ===== src/Chat/Server.antt =====
-- cw06/zad1/server.c: the table of clients and the handlers.
pub mod Listing
pub mod Sending
pub mod Joining
pub mod Session
mod Tests
use agh_sys_opy.Prelude.{
  ℕ, zero, suc, ◌+◌, Bool, true, false, not, List, [], ◌∷◌, ◌++◌, length, Option, none, some, ltb,
  ◌==◌, if◌then◌else◌, write_at, find_index,
}
use agh_sys_opy.Prelude.Int.{ℤ, pos, negsuc}
use agh_sys_opy.Text.{print_decimal, strtol}
use agh_sys_opy.Chat.{
  Kind, stop, list, toall, toone, init, other, Message, Call, msgget, msgsnd, msgctl, Kernel,
  msg_size,
}

abbrev pub qarray_size : ℕ
qarray_size = 32

-- The table `clients`, 0 for a free place, and the calls made so far, the latest first.
pub record Server : Type 0 where
  pub clients : ℕ → ℤ
  pub log : List Call

-- The server goes on, has ended through `exit` and `close_on_exit`, or its behaviour is undefined.
pub data Outcome : Type 0 where
  running : Server → Outcome
  exited : Server → Outcome
  undefined : Outcome

abbrev pub is_zero : ℤ → Bool
is_zero (pos zero) = true
is_zero (pos (suc n)) = false
is_zero (negsuc n) = false

abbrev pub is_error : ℤ → Bool
is_error (pos n) = false
is_error (negsuc n) = n == 0

-- The places of the table that an `int` may name.
abbrev pub slot_of : ℤ → Option ℕ
slot_of (pos n) = if ltb n qarray_size then some n else none
slot_of (negsuc n) = none

abbrev pub call : Call → Server → Server
call c s = record s { log = c ∷ s.log }

pub data Delivery : Type 0 where
  delivered : Server → Delivery
  refused : Server → Delivery

unfoldable pub send : Kernel → ℤ → Message → Server → Delivery
send k q msg s =
    if k.takes s.log q then delivered (call (msgsnd q msg) s) else refused (call (msgsnd q msg) s)

-- `for (i = 0; i < n; ++i) if (clients[i] != 0) msgsnd(clients[i], ...)`, up to the first failure.
unfoldable pub send_each : Kernel → Message → ℕ → ℕ → Server → Delivery
unfolding send
send_each k msg zero i s = delivered s
send_each k msg (suc n) i s =
    let sent = if is_zero (s.clients i) then delivered s else send k (s.clients i) msg s in
    elim sent [ delivered s1 ↦ send_each k msg n (suc i) s1 | refused s1 ↦ refused s1 ]

abbrev pub stop_feedback : Message
stop_feedback = record { type = stop; sender_id = none; receiver_id = none; content = none }

-- `exit`, which runs `close_on_exit`. An error there calls `exit` again, which is undefined.
unfoldable pub exit : Kernel → Server → Outcome
unfolding send_each
exit k s = elim (send_each k stop_feedback qarray_size 0 s) [
  | delivered s1 ↦ if k.removes s1.log then exited (call msgctl s1) else undefined
  | refused s1 ↦ undefined
]

unfoldable pub finish : Kernel → Delivery → Outcome
unfolding exit
finish k (delivered s) = running s
finish k (refused s) = exit k s

unfoldable pub find_free : Server → Option ℕ
find_free s = find_index qarray_size (λ i. is_zero (s.clients i))

abbrev pub init_feedback : ℕ → Message
init_feedback index = record {
  type = init;
  sender_id = none;
  receiver_id = some (pos index);
  content = none;
}

-- `handle_init` from `clients[index] = msgget(key, 0)` on.
unfoldable pub open_queue : Kernel → ℤ → ℕ → Server → Outcome
unfolding exit finish send
open_queue k key index s =
    let q = k.queue_of s.log key in
    let s1 = record (call (msgget key) s) { clients = write_at index q s.clients } in
    if is_error q then exit k s1 else finish k (send k q (init_feedback index) s1)

unfoldable pub register : Kernel → ℤ → Server → Option ℕ → Outcome
unfolding open_queue
register k key s none = running s
register k key s (some index) = open_queue k key index s

unfoldable pub handle_init : Kernel → List ℕ → Server → Outcome
unfolding register find_free
handle_init k content s = register k (strtol content) s (find_free s)

unfoldable pub handle_stop : Kernel → ℤ → Server → Outcome
unfolding exit
handle_stop k sender_id s = elim (slot_of sender_id) [
  | none ↦ undefined
  | some i ↦
      if not (is_zero (s.clients i))
      then running (record s { clients = write_at i (pos 0) s.clients })
      else exit k s
]

-- The body of the loop of `handle_list`; `none` where the list is too long.
unfoldable pub append_id : ℕ → ℤ → List ℕ → Option (List ℕ)
append_id i client content =
    let buffer = print_decimal i ++ (b' ' ∷ []) in
    if is_zero client
    then some content
    else if ltb msg_size (length content + length buffer + 1)
    then none
    else some (content ++ buffer)

unfoldable pub list_ids : ℕ → ℕ → (ℕ → ℤ) → List ℕ → Option (List ℕ)
unfolding append_id
list_ids zero i clients content = some content
list_ids (suc n) i clients content = elim (append_id i (clients i) content) [
  | none ↦ none
  | some more ↦ list_ids n (suc i) clients more
]

abbrev pub list_feedback : List ℕ → Message
list_feedback content = record {
  type = list;
  sender_id = none;
  receiver_id = none;
  content = some content;
}

unfoldable pub send_list : Kernel → ℤ → Server → Option (List ℕ) → Outcome
unfolding finish send
send_list k sender_id s none = running s
send_list k sender_id s (some content) = elim (slot_of sender_id) [
  | none ↦ undefined
  | some i ↦ finish k (send k (s.clients i) (list_feedback content) s)
]

unfoldable pub handle_list : Kernel → ℤ → Server → Outcome
unfolding send_list list_ids
handle_list k sender_id s = send_list k sender_id s (list_ids qarray_size 0 s.clients [])

abbrev pub toall_feedback : ℤ → List ℕ → Message
toall_feedback sender_id content = record {
  type = toall;
  sender_id = some sender_id;
  receiver_id = none;
  content = some content;
}

unfoldable pub handle_toall : Kernel → ℤ → List ℕ → Server → Outcome
unfolding finish send_each
handle_toall k sender_id content s =
    finish k (send_each k (toall_feedback sender_id content) qarray_size 0 s)

abbrev pub toone_feedback : ℤ → ℤ → List ℕ → Message
toone_feedback sender_id receiver_id content = record {
  type = toall;
  sender_id = some sender_id;
  receiver_id = some receiver_id;
  content = some content;
}

-- Where the message is refused the error is printed with "%s" for a number, which is undefined.
unfoldable pub handle_toone : Kernel → ℤ → ℤ → List ℕ → Server → Outcome
unfolding send
handle_toone k sender_id receiver_id content s = elim (slot_of receiver_id) [
  | none ↦ undefined
  | some i ↦
      if is_zero (s.clients i)
      then running s
      else elim (send k (s.clients i) (toone_feedback sender_id receiver_id content) s) [
        | delivered s1 ↦ running s1
        | refused s1 ↦ undefined
      ]
]

-- A message as `main` receives it: the fields that every message has, and its type.
pub record Received : Type 0 where
  pub type : Kind
  pub sender_id : ℤ
  pub receiver_id : ℤ
  pub content : List ℕ

-- The switch in the loop of `main`.
unfoldable pub handle_message : Kernel → Received → Server → Outcome
unfolding handle_init handle_stop handle_list handle_toall handle_toone
handle_message k m s = elim m.type [
  | stop ↦ handle_stop k m.sender_id s
  | list ↦ handle_list k m.sender_id s
  | toall ↦ handle_toall k m.sender_id m.content s
  | toone ↦ handle_toone k m.sender_id m.receiver_id m.content s
  | init ↦ handle_init k m.content s
  | other n ↦ running s
]
