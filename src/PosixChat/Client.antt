-- ===== src/PosixChat/Client.antt =====
-- cw06/zad2/client.c: the commands that the user types and the messages that arrive.
pub mod Dialogue
pub mod Direct
pub mod Joining
mod Tests
use agh_sys_opy.Prelude.{
  ℕ, zero, suc, ◌+◌, ◌-◌, ◌%◌, ◌^◌, Bool, true, false, not, ◌&&◌, List, [], ◌∷◌, ◌++◌, length, set,
  get_or, Option, none, some, ltb, ◌==◌, if◌then◌else◌, str_eq,
}
use agh_sys_opy.Prelude.Int.{ℤ, pos, negsuc}
use agh_sys_opy.Text.{strtol, strtok, strip_newline}
use agh_sys_opy.PosixChat.{
  Buffer, msg_size, stop, list, toall, toone, init, to_char, string_at, strcpy_at, strcat_at,
}

-- A message from another client as it is printed. The number of the sender is a byte.
pub record Shown : Type 0 where
  pub sender : ℕ
  pub time : List ℕ
  pub content : List ℕ

-- The client sends to the server's queue, waits for the list and prints it, or prints a message.
pub data Action : Type 0 where
  sent : Buffer → Action
  awaited_list : Action
  printed : Shown → Action

-- `client_id` is a byte of a message.
pub record Client : Type 0 where
  pub client_id : ℕ
  pub log : List Action

-- The errors of system calls, which end the client, are not modelled.
pub data Outcome : Type 0 where
  running : Client → Outcome
  ended : Client → Outcome
  undefined : Outcome

abbrev pub act : Action → Client → Client
act a c = record c { log = c.log ++ (a ∷ []) }

-- The INIT message, for the name of the client's queue.
unfoldable pub init_message : Buffer → List ℕ → Option Buffer
init_message stack q_name = strcat_at 0 q_name (set (set stack 0 init) 1 0)

-- The end of `initialize`, with the answer.
abbrev pub initialize : Buffer → Client → Client
initialize m c = record c { client_id = get_or m 1 0 }

unfoldable pub send_list : Buffer → Client → Outcome
send_list stack c =
    running (act awaited_list (act (sent (set (set (set stack 0 list) 1 c.client_id) 2 0)) c))

-- The sending of an array, where its text fits.
abbrev pub send_filled : Option Buffer → Client → Outcome
send_filled none c = undefined
send_filled (some m) c = running (act (sent m) c)

unfoldable pub send_toall : Buffer → List ℕ → Client → Outcome
send_toall stack str c =
    if ltb (msg_size + 1) (length str)
    then running c
    else send_filled (strcat_at 3 str (set (set (set (set stack 0 toall) 1 c.client_id) 2 1) 3 0)) c

unfoldable pub send_toone : Buffer → ℤ → List ℕ → Client → Outcome
send_toone stack dest_id str c =
    if ltb (msg_size + 1) (length str)
    then running c
    else send_filled
        (strcpy_at 3 str
          (set (set (set (set stack 0 toone) 1 c.client_id) 2 (to_char dest_id)) 3 0))
        c

-- `send_stop`, which ends the client.
unfoldable pub send_stop : Buffer → Client → Outcome
send_stop stack c = ended (act (sent (set (set (set stack 0 stop) 1 c.client_id) 2 0)) c)

-- What `strtol` makes of a number that a `long` does not hold, and whether it sets `errno`.
abbrev pub to_long : ℤ → ℤ
to_long (pos n) = if ltb n (2 ^ 63) then pos n else pos (2 ^ 63 - 1)
to_long (negsuc n) = if ltb n (2 ^ 63) then negsuc n else negsuc (2 ^ 63 - 1)

abbrev pub is_range_error : ℤ → Bool
is_range_error (pos n) = not (ltb n (2 ^ 63))
is_range_error (negsuc n) = not (ltb n (2 ^ 63))

-- A `long` that is assigned to an `int`, which keeps its last 32 bits.
abbrev pub of_word : ℕ → ℤ
of_word r = if ltb r (2 ^ 31) then pos r else negsuc (2 ^ 32 - 1 - r)

abbrev pub to_int : ℤ → ℤ
to_int (pos n) = of_word (n % 2 ^ 32)
to_int (negsuc n) = of_word (2 ^ 32 - 1 - n % 2 ^ 32)

abbrev pub is_null : ℤ → Bool
is_null (pos n) = n == 0
is_null (negsuc n) = false

-- `strtol` of NULL is undefined. The `break` at a 0 with an error leaves the loop of `main`.
unfoldable pub parse_toone : Buffer → Option (List ℕ × List ℕ) → Client → Outcome
unfolding send_toone
parse_toone stack none c = undefined
parse_toone stack (some (token2, ptr)) c =
    let value = strtol token2 in
    let desc_id = to_int (to_long value) in
    if is_null desc_id && is_range_error value then ended c else send_toone stack desc_id ptr c

-- The comparisons with the names of the commands. `strcmp` of NULL is undefined.
unfoldable pub run_command : Buffer → Option (List ℕ × List ℕ) → Client → Outcome
unfolding send_list send_stop send_toall parse_toone
run_command stack none c = undefined
run_command stack (some (token, ptr)) c =
    if str_eq token (b'L' ∷ b'I' ∷ b'S' ∷ b'T' ∷ [])
    then send_list stack c
    else if str_eq token (b'S' ∷ b'T' ∷ b'O' ∷ b'P' ∷ [])
    then send_stop stack c
    else if str_eq token (b'2' ∷ b'A' ∷ b'L' ∷ b'L' ∷ [])
    then send_toall stack ptr c
    else if str_eq token (b'2' ∷ b'O' ∷ b'N' ∷ b'E' ∷ [])
    then parse_toone stack (strtok ptr) c
    else running c

-- A line that `fgets` has read into `input_buffer`. A longer one than the array holds is none.
unfoldable pub handle_input : Buffer → List ℕ → Client → Outcome
unfolding run_command
handle_input stack input_buffer c =
    if ltb (length input_buffer) msg_size
    then run_command stack (strtok (strip_newline input_buffer)) c
    else undefined

abbrev pub leading_blanks : List ℕ → List ℕ
leading_blanks [] = []
leading_blanks (c ∷ rest) = if c == b' ' then c ∷ leading_blanks rest else []

-- The two tokens of the time, which are joined again, and the content behind them. `none`: a
-- message without two words, which is not modelled.
unfoldable pub show_message : Buffer → Option Shown
show_message m = elim (strtok (string_at 2 m)) [
  | none ↦ none
  | some (token, ptr) ↦ elim (strtok ptr) [
    | none ↦ none
    | some (token2, rest) ↦ some (record {
      sender = get_or m 1 0;
      time = token ++ (b' ' ∷ (leading_blanks ptr ++ token2));
      content = rest;
    })
  ]
]

-- A message from another client.
abbrev pub handle_message_to : Option Shown → Client → Outcome
handle_message_to none c = undefined
handle_message_to (some shown) c = running (act (printed shown) c)

-- The switch over a message from the client's queue.
unfoldable pub handle_message : Buffer → Buffer → Client → Outcome
unfolding send_stop show_message
handle_message stack m c =
    let type = get_or m 0 0 in
    if type == stop
    then send_stop stack c
    else if type == toall
    then handle_message_to (show_message m) c
    else if type == toone
    then handle_message_to (show_message m) c
    else running c
