-- ===== src/PosixChat/Client/Tests.antt =====
-- Lines that a user types, at a chat of two clients.
use agh_sys_opy.Prelude.{
  ℕ, ◌<◌, ◌≡◌, length, refl, true, List, [], ◌∷◌, ◌++◌, some, arith, get_or, replicate,
  length-replicate, write_at,
}
use agh_sys_opy.Prelude.Int.{ℤ, pos, negsuc}
use agh_sys_opy.Text.{print_decimal, digits}
use agh_sys_opy.Text.Words.{IsWord}
use agh_sys_opy.Text.Strings.{NoNul, replicate-NoNul}
use agh_sys_opy.PosixChat.{Buffer}
use agh_sys_opy.PosixChat.Server.{Kernel, Frame, Server, qarray_size, call, opened}
use agh_sys_opy.PosixChat.Server
use agh_sys_opy.PosixChat.Server.Sending.{in_use, sends}
use agh_sys_opy.PosixChat.Client.{
  Client, running, act, sent, printed, init_message, initialize, handle_input, handle_message,
}
use agh_sys_opy.PosixChat.Client.Dialogue.{
  IsTime, toall_word, toall_line-printed, toall_line_too_long,
}
use agh_sys_opy.PosixChat.Client.Direct.{toone_word, toone_line-printed}
use agh_sys_opy.PosixChat.Client.Joining.{IsFirstFree, initialize-IsFirstFree}

abbrev serving : Kernel
serving = record {
  opens = λ log name. pos 9;
  takes = λ log q. true;
  closes = λ log q. true;
  shuts_down = λ log. true;
}

-- Two clients, whose queues have the descriptors 4 and 6.
abbrev table : ℕ → ℤ
table i = get_or (pos 4 ∷ negsuc 0 ∷ pos 6 ∷ []) i (negsuc 0)

abbrev chat : Server
chat = record { clients = table; log = [] }

abbrev junk : Buffer
junk = replicate 1024 7

abbrev date : List ℕ
date = b'0' ∷ b'4' ∷ b'-' ∷ b'1' ∷ b'9' ∷ []

abbrev clock : List ℕ
clock = b'1' ∷ b'2' ∷ b':' ∷ b'3' ∷ b'0' ∷ []

abbrev frame : Frame
frame = record {
  stack = junk;
  now = b'0' ∷ b'4' ∷ b'-' ∷ b'1' ∷ b'9' ∷ b' ' ∷ b'1' ∷ b'2' ∷ b':' ∷ b'3' ∷ b'0' ∷ b' ' ∷ [];
}

abbrev typist : Client
typist = record { client_id = 2; log = [] }

abbrev reader : Client
reader = record { client_id = 0; log = [] }

abbrev greeting : List ℕ
greeting = b'h' ∷ b' ' ∷ b'i' ∷ []

date-IsWord : IsWord date × IsWord clock
date-IsWord =
    ((refl, (refl, (refl, (refl, (refl, tt))))), (refl, (refl, (refl, (refl, (refl, tt))))))

frame-IsTime : IsTime frame.now date clock
frame-IsTime = (
  refl,
  date-IsWord.0,
  date-IsWord.1,
  (
    refl,
    (refl, (refl, (refl, (refl, (refl, (refl, (refl, (refl, (refl, (refl, (refl, tt))))))))))),
  ),
)

room : 3 < length junk
room = omega (arith, length-replicate {A = ℕ} 1024 7)

room_2 : 2 < length junk
room_2 = omega (arith, length-replicate {A = ℕ} 1024 7)

toall_line-printed_example :
    (m answer : Buffer) × (handle_input junk ((toall_word ++ (b' ' ∷ greeting)) ++ (10 ∷ [])) typist
      ≡ running (act (sent m) typist))
    × (agh_sys_opy.PosixChat.Server.handle_message serving frame m chat
        ≡ agh_sys_opy.PosixChat.Server.running
            (record chat { log = sends answer table (in_use qarray_size 0 table) }))
    × (handle_message junk answer reader
        ≡ running (
            act
              (printed (record { sender = 2; time = date ++ (b' ' ∷ clock); content = greeting }))
              reader))
toall_line-printed_example =
    toall_line-printed junk junk frame date clock greeting typist reader serving chat room room_2
      frame-IsTime (refl, (refl, (refl, tt))) (omega arith) (omega arith) (λ log q. refl)

abbrev long_text : List ℕ
long_text = replicate 1010 b'a'

long_plain : NoNul long_text
long_plain = replicate-NoNul 1010 b'a' refl

toall_line_too_long_example :
    (m : Buffer) × (handle_input junk ((toall_word ++ (b' ' ∷ long_text)) ++ (10 ∷ [])) typist
      ≡ running (act (sent m) typist))
    × (agh_sys_opy.PosixChat.Server.handle_message serving frame m chat
        ≡ agh_sys_opy.PosixChat.Server.undefined)
toall_line_too_long_example =
    toall_line_too_long junk frame long_text typist serving chat room room_2 frame-IsTime.3
      long_plain (omega arith) (omega (arith, length-replicate {A = ℕ} 1010 b'a'))
      (omega (arith, length-replicate {A = ℕ} 1010 b'a'))

three_digits : length (print_decimal 258) ≡ 3
unfolding print_decimal digits
three_digits = refl

toone_line-printed_example :
    (m answer : Buffer) × (handle_input junk
        ((toone_word ++ (b' ' ∷ (print_decimal 258 ++ (b' ' ∷ greeting)))) ++ (10 ∷ []))
        typist
      ≡ running (act (sent m) typist))
    × (agh_sys_opy.PosixChat.Server.handle_message serving frame m chat
        ≡ agh_sys_opy.PosixChat.Server.running
            (call (agh_sys_opy.PosixChat.Server.sent (pos 6) answer) chat))
    × (handle_message junk answer reader
        ≡ running (
            act
              (printed (record { sender = 2; time = date ++ (b' ' ∷ clock); content = greeting }))
              reader))
toone_line-printed_example =
    toone_line-printed junk junk frame date clock greeting 258 typist reader serving chat room
      room_2 frame-IsTime (refl, (refl, (refl, tt))) (omega arith) (omega arith)
      (omega (arith, three_digits)) (λ log q. refl) (omega arith) refl

abbrev queue_name : List ℕ
queue_name = b'/' ∷ b'u' ∷ []

initialize-IsFirstFree_example :
    (m answer : Buffer) × (index : ℕ) × (init_message junk queue_name ≡ some m)
    × IsFirstFree chat index
    × (agh_sys_opy.PosixChat.Server.handle_message serving frame m chat
        ≡ agh_sys_opy.PosixChat.Server.running (record chat {
          clients = write_at index (pos 9) table;
          log = opened queue_name ∷ agh_sys_opy.PosixChat.Server.sent (pos 9) answer ∷ [];
        }))
    × (initialize answer typist ≡ record typist { client_id = index })
initialize-IsFirstFree_example =
    initialize-IsFirstFree junk frame queue_name typist serving chat 1 (omega (arith, room)) room_2
      (refl, (refl, tt)) (omega arith) (λ log q. refl) refl (omega arith) refl
