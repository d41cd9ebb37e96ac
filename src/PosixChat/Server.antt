-- ===== src/PosixChat/Server.antt =====
-- cw06/zad2/server.c: the table of clients and the handlers.
pub mod Sending
use agh_sys_opy.Prelude.{
  ℕ, zero, suc, ◌+◌, ◌%◌, Bool, true, false, not, List, [], ◌∷◌, ◌++◌, length, set, get_or, Option,
  none, some, ltb, ◌==◌, if◌then◌else◌, write_at, find_index,
}
use agh_sys_opy.Prelude.Int.{ℤ, pos, negsuc}
use agh_sys_opy.Text.{print_decimal}
use agh_sys_opy.PosixChat.{Buffer, msg_size, stop, list, toall, toone, init, string_at, strcat_at}

abbrev pub qarray_size : ℕ
qarray_size = 32

pub data Call : Type 0 where
  opened : List ℕ → Call
  sent : ℤ → Buffer → Call
  closed : ℤ → Call
  shut_down : Call

-- What the kernel answers after the calls made so far: the descriptor for a name (-1 on failure),
-- whether a queue takes a message, whether it can be closed, whether the server's own queue can be
-- closed and unlinked.
pub record Kernel : Type 0 where
  pub opens : List Call → List ℕ → ℤ
  pub takes : List Call → ℤ → Bool
  pub closes : List Call → ℤ → Bool
  pub shuts_down : List Call → Bool

-- The table `clients`, -1 for a free place, and the calls made so far.
pub record Server : Type 0 where
  pub clients : ℕ → ℤ
  pub log : List Call

-- What a handler finds: its array `message`, which is not initialised, and the time of day.
pub record Frame : Type 0 where
  pub stack : Buffer
  pub now : List ℕ

pub data Outcome : Type 0 where
  running : Server → Outcome
  exited : Server → Outcome
  undefined : Outcome

abbrev pub is_error : ℤ → Bool
is_error (pos n) = false
is_error (negsuc n) = n == 0

abbrev pub call : Call → Server → Server
call c s = record s { log = s.log ++ (c ∷ []) }

pub data Delivery : Type 0 where
  delivered : Server → Delivery
  refused : Server → Delivery

unfoldable pub send : Kernel → ℤ → Buffer → Server → Delivery
send k q m s =
    if k.takes s.log q then delivered (call (sent q m) s) else refused (call (sent q m) s)

-- The loop over the places in use, up to the first failure.
unfoldable pub send_each : Kernel → Buffer → ℕ → ℕ → Server → Delivery
unfolding send
send_each k m zero i s = delivered s
send_each k m (suc n) i s =
    let done = if is_error (s.clients i) then delivered s else send k (s.clients i) m s in
    elim done [ delivered s1 ↦ send_each k m n (suc i) s1 | refused s1 ↦ refused s1 ]

abbrev pub stop_message : Frame → Buffer
stop_message f = set (set f.stack 0 stop) 2 0

-- `exit` and `close_on_exit`. An error there calls `exit` again, which is undefined.
unfoldable pub exit : Kernel → Frame → Server → Outcome
unfolding send_each
exit k f s = elim (send_each k (stop_message f) qarray_size 0 s) [
  | delivered s1 ↦ if k.shuts_down s1.log then exited (call shut_down s1) else undefined
  | refused s1 ↦ undefined
]

unfoldable pub finish : Kernel → Frame → Delivery → Outcome
unfolding exit
finish k f (delivered s) = running s
finish k f (refused s) = exit k f s

unfoldable pub find_free : Server → Option ℕ
find_free s = find_index qarray_size (λ i. is_error (s.clients i))

abbrev pub init_message : Frame → ℕ → Buffer
init_message f index = set (set (set f.stack 0 init) 1 index) 2 0

-- `handle_init` from `clients[index] = mq_open(...)` on.
unfoldable pub open_queue : Kernel → Frame → List ℕ → ℕ → Server → Outcome
unfolding exit finish send
open_queue k f content index s =
    let q = k.opens s.log content in
    let s1 = record (call (opened content) s) { clients = write_at index q s.clients } in
    if is_error q then exit k f s1 else finish k f (send k q (init_message f index) s1)

unfoldable pub handle_init : Kernel → Frame → List ℕ → Server → Outcome
unfolding open_queue find_free
handle_init k f content s = elim (find_free s) [
  | none ↦ running s
  | some index ↦ open_queue k f content index s
]

-- The places that a byte of a message names; a `char` above 127 is negative.
abbrev pub slot_of : ℕ → Option ℕ
slot_of byte = if ltb byte qarray_size then some byte else none

abbrev pub close_client : Kernel → Frame → ℕ → Server → Outcome
close_client k f i s =
    if k.closes s.log (s.clients i)
    then running
        (record (call (closed (s.clients i)) s) { clients = write_at i (negsuc 0) s.clients })
    else exit k f (call (closed (s.clients i)) s)

unfoldable pub handle_stop : Kernel → Frame → ℕ → Server → Outcome
unfolding exit
handle_stop k f sender_id s = elim (slot_of sender_id) [
  | none ↦ undefined
  | some i ↦ if is_error (s.clients i) then exit k f s else close_client k f i s
]

-- The array with the numbers of the places in use.
pub data Listing : Type 0 where
  listed : Buffer → Listing
  too_long : Listing
  overflow : Listing

unfoldable pub append_id : ℕ → ℤ → Buffer → Listing
append_id i client m =
    let buffer = print_decimal i ++ (b' ' ∷ []) in
    if is_error client
    then listed m
    else if ltb msg_size (length (string_at 0 m) + length buffer + 1)
    then too_long
    else elim (strcat_at 0 buffer m) [ none ↦ overflow | some longer ↦ listed longer ]

unfoldable pub list_ids : ℕ → ℕ → (ℕ → ℤ) → Buffer → Listing
unfolding append_id
list_ids zero i clients m = listed m
list_ids (suc n) i clients m = elim (append_id i (clients i) m) [
  | listed longer ↦ list_ids n (suc i) clients longer
  | too_long ↦ too_long
  | overflow ↦ overflow
]

unfoldable pub send_to : Kernel → Frame → ℕ → Buffer → Server → Outcome
unfolding finish send
send_to k f id m s = elim (slot_of id) [
  | none ↦ undefined
  | some i ↦ finish k f (send k (s.clients i) m s)
]

unfoldable pub handle_list : Kernel → Frame → ℕ → Server → Outcome
unfolding list_ids send_to
handle_list k f sender_id s =
    elim (list_ids qarray_size 0 s.clients (set (set f.stack 0 list) 1 0)) [
      | listed m ↦ send_to k f sender_id m s
      | too_long ↦ running s
      | overflow ↦ undefined
    ]

-- The array that `handle_toall` and `handle_toone` fill: the time and the content.
unfoldable pub stamp : Frame → ℕ → ℕ → List ℕ → Option Buffer
stamp f type sender_id content =
    elim (strcat_at 2 f.now (set (set (set f.stack 0 type) 1 sender_id) 2 0)) [
      | none ↦ none
      | some m ↦ strcat_at 2 content m
    ]

unfoldable pub handle_toall : Kernel → Frame → ℕ → List ℕ → Server → Outcome
unfolding stamp finish send_each
handle_toall k f sender_id content s = elim (stamp f toall sender_id content) [
  | none ↦ undefined
  | some m ↦ finish k f (send_each k m qarray_size 0 s)
]

unfoldable pub handle_toone : Kernel → Frame → ℕ → ℕ → List ℕ → Server → Outcome
unfolding stamp finish send
handle_toone k f sender_id receiver_id content s = elim (stamp f toone sender_id content) [
  | none ↦ undefined
  | some m ↦ elim (slot_of receiver_id) [
    | none ↦ undefined
    | some i ↦ if is_error (s.clients i) then running s else finish k f (send k (s.clients i) m s)
  ]
]

abbrev pub byte_at : ℕ → Buffer → ℕ
byte_at i m = get_or m i 0

-- The switch in the loop of `main`.
unfoldable pub handle_message : Kernel → Frame → Buffer → Server → Outcome
unfolding handle_init handle_stop handle_list handle_toall handle_toone
handle_message k f m s =
    let type = byte_at 0 m in
    if type == stop
    then handle_stop k f (byte_at 1 m) s
    else if type == list
    then handle_list k f (byte_at 1 m) s
    else if type == toall
    then handle_toall k f (byte_at 1 m) (string_at 3 m) s
    else if type == toone
    then handle_toone k f (byte_at 1 m) (byte_at 2 m) (string_at 3 m) s
    else if type == init
    then handle_init k f (string_at 1 m) s
    else running s
