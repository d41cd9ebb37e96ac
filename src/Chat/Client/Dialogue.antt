-- ===== src/Chat/Client/Dialogue.antt =====
-- What the client's commands make the server do, through the messages between them.
use agh_sys_opy.Prelude.{
  ℕ, ◌+◌, ◌<◌, ◌≤◌, ◌≡◌, refl, false, List, [], ◌∷◌, ◌++◌, length, Option, none, some, arith, ap,
  ◌∙◌, lt→ltb, inl, inr, subst,
}
use agh_sys_opy.Prelude.Int.{pos}
use agh_sys_opy.Text.{print_decimal, strtok}
use agh_sys_opy.Text.Words.{
  strip_newline-append, IsWord, strtok-IsWord, strtol-alone, print_decimal-IsWord,
}
use agh_sys_opy.Chat.{Kernel, Kind, Message, msgsnd, msg_size}
use agh_sys_opy.Chat.Server.{
  Server, Received, is_zero, qarray_size, toall_feedback, toone_feedback, init_feedback, call,
  handle_init,
}
use agh_sys_opy.Chat.Server.Listing.{registered}
use agh_sys_opy.Chat.Server.Sending.{
  TakesAll, sends, handle_toall-registered, handle_toone-receiver,
}
use agh_sys_opy.Chat.Server.Joining.{Serves, IsFirstFree, IsFull, joined, handle_init-IsFirstFree}
use agh_sys_opy.Chat.Client.{
  Client, running, undefined, act, sent, toall_message, toone_message, init_message, send_text,
  send_toall, send_toone, parse_toone, run_command, handle_input, initialize,
}

-- A message as the server receives it: the fields that its sender leaves uninitialised hold what
-- happens to be there.
abbrev pub value_or {ℓ} : {A : Type ℓ} → A → Option A → A
value_or d none = d
value_or d (some a) = a

abbrev pub received : Received → Message → Received
received junk m = record {
  type = m.type;
  sender_id = value_or junk.sender_id m.sender_id;
  receiver_id = value_or junk.receiver_id m.receiver_id;
  content = value_or junk.content m.content;
}

abbrev pub toall_word : List ℕ
toall_word = b'2' ∷ b'A' ∷ b'L' ∷ b'L' ∷ []

abbrev pub toone_word : List ℕ
toone_word = b'2' ∷ b'O' ∷ b'N' ∷ b'E' ∷ []

-- A text that fits the content of a message.
abbrev pub Fits : List ℕ → Type 0
Fits text = length text < msg_size

send_text-Fits :
    (msg : Message) (text : List ℕ) (c : Client)
    → Fits text
    → send_text msg text c ≡ running (act (sent msg) c)
unfolding send_text
send_text-Fits msg text c h = ground arith

-- The command stands in front of its argument.
handle_input_command :
    (word rest : List ℕ) (c : Client)
    → IsWord word
    → handle_input ((word ++ (b' ' ∷ rest)) ++ (10 ∷ [])) c ≡ run_command (some (word, rest)) c
unfolding handle_input
handle_input_command word rest c h =
    ap (λ s. run_command (strtok s) c) (strip_newline-append (word ++ (b' ' ∷ rest)))
    ∙ ap (λ o. run_command o c) (strtok-IsWord word rest h)

-- A 2ALL line with a text that fits: the client sends one message, and the server, at a kernel that
-- takes every message, sends each place in use the text under the client's number, whatever the
-- fields hold that the client left uninitialised.
pub toall_line-registered :
    (text : List ℕ) (c : Client) (k : Kernel) (junk : Received) (s : Server)
    → Fits text
    → TakesAll k
    → (m : Message) × (handle_input ((toall_word ++ (b' ' ∷ text)) ++ (10 ∷ [])) c
        ≡ running (act (sent m) c))
      × (agh_sys_opy.Chat.Server.handle_message k (received junk m) s
          ≡ agh_sys_opy.Chat.Server.running (record s {
            log =
                sends
                  (toall_feedback c.client_id text)
                  s.clients
                  (registered qarray_size 0 s.clients)
                  s.log;
          }))
unfolding agh_sys_opy.Chat.Server.handle_message run_command send_toall
toall_line-registered text c k junk s fits takes = (
  toall_message c.client_id text,
  handle_input_command toall_word text c (refl, (refl, (refl, (refl, tt))))
      ∙ send_text-Fits (toall_message c.client_id text) text c fits,
  handle_toall-registered k c.client_id text s takes,
)

toone_command :
    (i : ℕ) (text : List ℕ) (c : Client)
    → Fits text
    → run_command (some (toone_word, print_decimal i ++ (b' ' ∷ text))) c
      ≡ running (act (sent (toone_message c.client_id (pos i) text)) c)
unfolding run_command parse_toone send_toone
toone_command i text c fits =
    ap (λ o. parse_toone o c) (strtok-IsWord (print_decimal i) text (print_decimal-IsWord i))
    ∙ ap (λ d. send_toone d text c) (strtol-alone i)
    ∙ send_text-Fits (toone_message c.client_id (pos i) text) text c fits

-- A 2ONE line with the number of a place in use and a text that fits: the client sends one message,
-- and the server, at a kernel that takes every message, sends the text under the client's number to
-- that place and to no other.
pub toone_line-receiver :
    (i : ℕ) (text : List ℕ) (c : Client) (k : Kernel) (junk : Received) (s : Server)
    → Fits text
    → TakesAll k
    → i < qarray_size
    → is_zero (s.clients i) ≡ false
    → (m : Message) × (handle_input
          ((toone_word ++ (b' ' ∷ (print_decimal i ++ (b' ' ∷ text)))) ++ (10 ∷ []))
          c
        ≡ running (act (sent m) c))
      × (agh_sys_opy.Chat.Server.handle_message k (received junk m) s
          ≡ agh_sys_opy.Chat.Server.running
              (call (msgsnd (s.clients i) (toone_feedback c.client_id (pos i) text)) s))
unfolding agh_sys_opy.Chat.Server.handle_message
toone_line-receiver i text c k junk s fits takes h used = (
  toone_message c.client_id (pos i) text,
  handle_input_command toone_word (print_decimal i ++ (b' ' ∷ text)) c
        (refl, (refl, (refl, (refl, tt))))
      ∙ toone_command i text c fits,
  handle_toone-receiver k c.client_id i text s takes ∙ rw (lt→ltb i qarray_size h, used) refl,
)

-- A client joins a chat that is not full, at a kernel that serves: the server opens the queue of the
-- client's key at the first free place, and its answer gives the client the number of that place.
pub initialize-joined :
    (ckey : ℕ) (c : Client) (k : Kernel) (junk : Received) (s : Server)
    → Serves k
    → (IsFull s → ⊥)
    → (index : ℕ) × IsFirstFree s index
      × (agh_sys_opy.Chat.Server.handle_message k (received junk (init_message ckey)) s
          ≡ agh_sys_opy.Chat.Server.running
              (joined (pos ckey) (k.queue_of s.log (pos ckey)) index s))
      × (initialize (init_feedback index) c ≡ some (record c { client_id = pos index }))
unfolding agh_sys_opy.Chat.Server.handle_message initialize
initialize-joined ckey c k junk s serves free =
    elim (handle_init-IsFirstFree k (print_decimal ckey) s serves) [
      | inl (index, first, e) ↦ (
        index,
        first,
        subst
            (λ key.
              handle_init k (print_decimal ckey) s
              ≡ agh_sys_opy.Chat.Server.running (joined key (k.queue_of s.log key) index s))
            (strtol-alone ckey) e,
        refl,
      )
      | inr (full, e) ↦ absurd (free full)
    ]

-- A 2ALL line whose text has 1024 or 1025 bytes passes the client's guard and overflows the content
-- of the message, which is undefined.
pub toall_line_overflow :
    (text : List ℕ) (c : Client)
    → msg_size ≤ length text
    → length text ≤ msg_size + 1
    → handle_input ((toall_word ++ (b' ' ∷ text)) ++ (10 ∷ [])) c ≡ undefined
unfolding run_command send_toall send_text
toall_line_overflow text c lo hi =
    handle_input_command toall_word text c (refl, (refl, (refl, (refl, tt)))) ∙ overflow
  where
    overflow : send_text (toall_message c.client_id text) text c ≡ undefined
    overflow = ground arith
