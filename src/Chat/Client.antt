-- ===== src/Chat/Client.antt =====
-- cw06/zad1/client.c: the commands that the user types and the messages that arrive.
pub mod Dialogue
mod Tests
use agh_sys_opy.Prelude.{
  ℕ, zero, suc, ◌+◌, Bool, true, false, List, [], ◌∷◌, ◌++◌, length, Option, none, some, ltb, ◌==◌,
  if◌then◌else◌, str_eq,
}
use agh_sys_opy.Prelude.Int.{ℤ, pos, negsuc}
use agh_sys_opy.Text.{print_decimal, strtol, strtok, strip_newline}
use agh_sys_opy.Chat.{Kind, stop, list, toall, toone, init, other, Message, msg_size}

-- What the client does: it sends to the server's queue, waits for a message of a type on its own,
-- prints a message from another client, or removes its own queue.
pub data Action : Type 0 where
  sent : Message → Action
  awaited : Kind → Action
  printed : Option ℤ → Option (List ℕ) → Action
  removed : Action

pub record Client : Type 0 where
  pub client_id : ℤ
  pub log : List Action

-- The client goes on, has ended, or its behaviour is undefined. The server's queue takes every
-- message: the errors that end the client are not modelled.
pub data Outcome : Type 0 where
  running : Client → Outcome
  ended : Client → Outcome
  undefined : Outcome

abbrev pub act : Action → Client → Client
act a c = record c { log = a ∷ c.log }

abbrev pub init_message : ℕ → Message
init_message ckey = record {
  type = init;
  sender_id = none;
  receiver_id = none;
  content = some (print_decimal ckey);
}

abbrev pub list_message : ℤ → Message
list_message id = record { type = list; sender_id = some id; receiver_id = none; content = none }

abbrev pub toall_message : ℤ → List ℕ → Message
toall_message id str = record {
  type = toall;
  sender_id = some id;
  receiver_id = none;
  content = some str;
}

abbrev pub toone_message : ℤ → ℤ → List ℕ → Message
toone_message id dest_id str = record {
  type = toone;
  sender_id = some id;
  receiver_id = some dest_id;
  content = some str;
}

abbrev pub stop_message : ℤ → Message
stop_message id = record { type = stop; sender_id = some id; receiver_id = none; content = none }

unfoldable pub send_list : Client → Outcome
send_list c = running (act (awaited list) (act (sent (list_message c.client_id)) c))

-- The guard of `send_toall` and `send_toone`, then `strcpy` into the content, whose NUL needs a
-- byte too, and the sending of the message.
unfoldable pub send_text : Message → List ℕ → Client → Outcome
send_text msg str c =
    if ltb (msg_size + 1) (length str)
    then running c
    else if ltb (length str) msg_size
    then running (act (sent msg) c)
    else undefined

unfoldable pub send_toall : List ℕ → Client → Outcome
unfolding send_text
send_toall str c = send_text (toall_message c.client_id str) str c

unfoldable pub send_toone : ℤ → List ℕ → Client → Outcome
unfolding send_text
send_toone dest_id str c = send_text (toone_message c.client_id dest_id str) str c

-- `send_stop` and the `close_on_exit` that `exit` runs.
unfoldable pub send_stop : Client → Outcome
send_stop c = ended (act removed (act (sent (stop_message c.client_id)) c))

-- The rest of a 2ONE command. `strtol` of NULL is undefined. At numbers that fit it leaves `errno`
-- at 0, so the test of `errno` does not pass.
unfoldable pub parse_toone : Option (List ℕ × List ℕ) → Client → Outcome
unfolding send_toone
parse_toone none c = undefined
parse_toone (some (token2, ptr)) c = send_toone (strtol token2) ptr c

-- The comparisons with the names of the commands. `strcmp` of NULL is undefined.
unfoldable pub run_command : Option (List ℕ × List ℕ) → Client → Outcome
unfolding send_list send_stop send_toall parse_toone
run_command none c = undefined
run_command (some (token, ptr)) c =
    if str_eq token (b'L' ∷ b'I' ∷ b'S' ∷ b'T' ∷ [])
    then send_list c
    else if str_eq token (b'S' ∷ b'T' ∷ b'O' ∷ b'P' ∷ [])
    then send_stop c
    else if str_eq token (b'2' ∷ b'A' ∷ b'L' ∷ b'L' ∷ [])
    then send_toall ptr c
    else if str_eq token (b'2' ∷ b'O' ∷ b'N' ∷ b'E' ∷ [])
    then parse_toone (strtok ptr) c
    else running c

-- A line that `fgets` has read.
unfoldable pub handle_input : List ℕ → Client → Outcome
unfolding run_command strip_newline
handle_input input_buffer c = run_command (strtok (strip_newline input_buffer)) c

-- The switch over a message from the client's queue.
unfoldable pub handle_message : Message → Client → Outcome
unfolding send_stop
handle_message m c = elim m.type [
  | stop ↦ send_stop c
  | toall ↦ running (act (printed m.sender_id m.content) c)
  | toone ↦ running (act (printed m.sender_id m.content) c)
  | list ↦ running c
  | init ↦ running c
  | other n ↦ running c
]

-- The end of `initialize`: the answer to INIT gives the client its number; `none` if the answer
-- leaves it uninitialised.
unfoldable pub initialize : Message → Client → Option Client
initialize m c = elim m.receiver_id [ none ↦ none | some id ↦ some (record c { client_id = id }) ]
