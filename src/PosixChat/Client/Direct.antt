-- ===== src/PosixChat/Client/Direct.antt =====
-- A 2ONE line, from one client over the server to another.
use agh_sys_opy.Prelude.{
  ◌^◌, ◌&&◌, Bool, true, lt→ltb, length-append, ℕ, ◌+◌, ◌%◌, ◌<◌, ◌≡◌, refl, ap, ◌∙◌, false, List,
  [], ◌∷◌, ◌++◌, length, drop, set, some, ltb, arith,
}
use agh_sys_opy.Prelude.Int.{pos}
use agh_sys_opy.Text.{print_decimal}
use agh_sys_opy.Text.Words.{strtok-IsWord, print_decimal-IsWord, strtol-alone}
use agh_sys_opy.Text.Strings.{NoNul}
use agh_sys_opy.PosixChat.{Buffer, msg_size, toone, strcpy_at}
use agh_sys_opy.PosixChat.Buffers.{holding, string_at-holding, strcpy_at-holding}
use agh_sys_opy.PosixChat.Server.{
  Kernel, Frame, Server, qarray_size, is_error, slot_of, call, send, stamp, finish, handle_toone,
}
use agh_sys_opy.PosixChat.Server
use agh_sys_opy.PosixChat.Server.Sending.{TakesAll}
use agh_sys_opy.PosixChat.Client.{
  to_int, to_long, is_range_error, Client, running, act, sent, printed, send_toone, parse_toone,
  run_command, handle_input, handle_message_to, handle_message,
}
use agh_sys_opy.PosixChat.Client.Dialogue.{
  handle_input_line, first_four, IsTime, stamped, stamp-stamped, show_message-stamped,
}

abbrev pub toone_word : List ℕ
toone_word = b'2' ∷ b'O' ∷ b'N' ∷ b'E' ∷ []

-- What a client sends for a 2ONE line: the receiver's number is one byte.
abbrev addressed : Buffer → ℕ → ℕ → List ℕ → Buffer
addressed stack id i text =
    holding (toone ∷ id ∷ (i % 256) ∷ []) text (drop (length text) (drop 4 stack))

send_toone-addressed :
    (stack : Buffer) (i : ℕ) (text : List ℕ) (c : Client)
    → 3 < length stack
    → 3 + length text < msg_size
    → send_toone stack (pos i) text c ≡ running (act (sent (addressed stack c.client_id i text)) c)
unfolding send_toone
send_toone-addressed stack i text c room fits = rw (short, filled) refl
  where
    short : ltb (msg_size + 1) (length text) ≡ false
    short = ground (arith, fits)

    filled :
        strcpy_at 3 text (set (set (set (set stack 0 toone) 1 c.client_id) 2 (i % 256)) 3 0)
        ≡ some (addressed stack c.client_id i text)
    filled =
        ap (strcpy_at 3 text) (first_four stack toone c.client_id (i % 256) room)
        ∙ strcpy_at-holding 3 (toone ∷ c.client_id ∷ (i % 256) ∷ []) text (drop 4 stack) refl
            (omega arith)

-- A number that an `int` holds.
to_int-to_long : (i : ℕ) → i < 2 ^ 31 → to_int (to_long (pos i)) ≡ pos i
to_int-to_long i h = rw (in_long, in_word, in_int) refl
  where
    in_long : ltb i (2 ^ 63) ≡ true
    in_long = lt→ltb i (2 ^ 63) (omega arith)

    in_word : i % 2 ^ 32 ≡ i
    in_word = omega arith

    in_int : ltb i (2 ^ 31) ≡ true
    in_int = lt→ltb i (2 ^ 31) h

in_range : (i : ℕ) → i < 2 ^ 31 → is_range_error (pos i) ≡ false
in_range i h = let held : ltb i (2 ^ 63) ≡ true = lt→ltb i (2 ^ 63) (omega arith) in rw (held) refl

and_false : (b : Bool) → (b && false) ≡ false
and_false true = refl
and_false false = refl

parse_toone-print_decimal :
    (stack : Buffer) (i : ℕ) (text : List ℕ) (c : Client)
    → i < 2 ^ 31
    → parse_toone stack (some (print_decimal i, text)) c ≡ send_toone stack (pos i) text c
unfolding parse_toone
parse_toone-print_decimal stack i text c h =
    rw (parse_toone, strtol-alone i, to_int-to_long i h, in_range i h, and_false) refl

handle_input_toone :
    (stack : Buffer) (i : ℕ) (text : List ℕ) (c : Client)
    → 3 < length stack
    → i < 2 ^ 31
    → 7 + length (print_decimal i) + length text < msg_size
    → handle_input stack
        ((toone_word ++ (b' ' ∷ (print_decimal i ++ (b' ' ∷ text)))) ++ (10 ∷ []))
        c
      ≡ running (act (sent (addressed stack c.client_id i text)) c)
unfolding run_command
handle_input_toone stack i text c room small fits =
    let line : List ℕ = print_decimal i ++ (b' ' ∷ text) in
    handle_input_line stack (toone_word ++ (b' ' ∷ line)) c
      (omega (arith, length-append (print_decimal i) (b' ' ∷ text)))
    ∙ ap (λ o. run_command stack o c)
        (strtok-IsWord toone_word line (refl, (refl, (refl, (refl, tt)))))
    ∙ ap (λ o. parse_toone stack o c)
        (strtok-IsWord (print_decimal i) text (print_decimal-IsWord i))
    ∙ parse_toone-print_decimal stack i text c small
    ∙ send_toone-addressed stack i text c room (omega arith)

handle_message-addressed :
    (k : Kernel) (f : Frame) (stack : Buffer) (id i : ℕ) (text : List ℕ) (s : Server)
    → NoNul text
    → agh_sys_opy.PosixChat.Server.handle_message k f (addressed stack id i text) s
      ≡ handle_toone k f id (i % 256) text s
unfolding agh_sys_opy.PosixChat.Server.handle_message
handle_message-addressed k f stack id i text s h =
    ap (λ t. handle_toone k f id (i % 256) t s)
      (string_at-holding 3 (toone ∷ id ∷ (i % 256) ∷ []) text (drop (length text) (drop 4 stack))
        refl h)

-- A 2ONE line that `fgets` reads whole, with a number below 2^31 and a text that fits behind the time,
-- at a kernel that takes every message: the client sends one array, the server sends one array to the
-- place that the number names modulo 256, where that is a place in use, and the client that receives
-- it prints the sender's number, the time and the text.
pub toone_line-printed :
    (stack stack' : Buffer) (f : Frame) (date clock text : List ℕ) (i : ℕ) (c r : Client)
    (k : Kernel) (s : Server)
    → 3 < length stack
    → 2 < length f.stack
    → IsTime f.now date clock
    → NoNul text
    → 2 + length f.now + length text < msg_size
    → i < 2 ^ 31
    → 7 + length (print_decimal i) + length text < msg_size
    → TakesAll k
    → i % 256 < qarray_size
    → is_error (s.clients (i % 256)) ≡ false
    → (m answer : Buffer) × (handle_input stack
          ((toone_word ++ (b' ' ∷ (print_decimal i ++ (b' ' ∷ text)))) ++ (10 ∷ []))
          c
        ≡ running (act (sent m) c))
      × (agh_sys_opy.PosixChat.Server.handle_message k f m s
          ≡ agh_sys_opy.PosixChat.Server.running
              (call (agh_sys_opy.PosixChat.Server.sent (s.clients (i % 256)) answer) s))
      × (handle_message stack' answer r
          ≡ running (
              act
                (printed
                  (record { sender = c.client_id; time = date ++ (b' ' ∷ clock); content = text }))
                r))
unfolding handle_message handle_toone finish send
toone_line-printed stack stack' f date clock text i c r k s room room' time plain fits small
      line_fits takes inside used =
    (
      addressed stack c.client_id i text,
      stamped toone c.client_id f text,
      handle_input_toone stack i text c room small line_fits,
      handle_message-addressed k f stack c.client_id i text s plain ∙ answered,
      ap (λ o. handle_message_to o r)
          (show_message-stamped toone c.client_id f date clock text time plain),
    )
  where
    place : slot_of (i % 256) ≡ some (i % 256)
    place = ground (arith, inside)

    answered :
        handle_toone k f c.client_id (i % 256) text s
        ≡ agh_sys_opy.PosixChat.Server.running (
            call
              (agh_sys_opy.PosixChat.Server.sent
                (s.clients (i % 256))
                (stamped toone c.client_id f text))
              s)
    answered =
        rw
          (
            handle_toone,
            stamp-stamped toone c.client_id f text room' time.3 fits,
            place,
            used,
            send,
            takes,
          )
          refl
