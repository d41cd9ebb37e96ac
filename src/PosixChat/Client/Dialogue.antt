-- ===== src/PosixChat/Client/Dialogue.antt =====
-- Clients and the server together: a line that one of them types, byte by byte up to what another
-- one prints.
use agh_sys_opy.Prelude.{
  lt→ltb, true, length-append, ℕ, ◌+◌, ◌<◌, ◌≤◌, ◌≡◌, refl, ap, ◌∙◌, false, List, [], ◌∷◌, ◌++◌,
  append_assoc, length, drop, set, none, some, ltb, arith,
}
use agh_sys_opy.Text.{strtok}
use agh_sys_opy.Text.Words.{IsWord, strtok-IsWord, strip_newline-append}
use agh_sys_opy.Text.Tokens.{Every-append}
use agh_sys_opy.Text.Strings.{NoNul}
use agh_sys_opy.PosixChat.{
  Buffer, msg_size, stop, list, toall, toone, string_at, strcpy_at, strcat_at,
}
use agh_sys_opy.PosixChat.Buffers.{
  holding, string_at-holding, strcat_at-holding, strcat_at_overflow,
}
use agh_sys_opy.PosixChat.Server.{
  Kernel, Frame, Server, qarray_size, stamp, finish, send_each, handle_toall,
}
use agh_sys_opy.PosixChat.Server.Sending.{in_use, sends, TakesAll, send_each-in_use}
use agh_sys_opy.PosixChat.Server
use agh_sys_opy.PosixChat.Client.{
  Client, running, act, sent, printed, send_toall, run_command, handle_input, show_message,
  leading_blanks, handle_message_to, handle_message,
}

abbrev pub toall_word : List ℕ
toall_word = b'2' ∷ b'A' ∷ b'L' ∷ b'L' ∷ []

-- An array whose first bytes are set.
pub first_three :
    (stack : Buffer) (x y : ℕ)
    → 2 < length stack
    → set (set (set stack 0 x) 1 y) 2 0 ≡ holding (x ∷ y ∷ []) [] (drop 3 stack)
first_three [] x y h = absurd (omega arith)
first_three (a ∷ []) x y h = absurd (omega arith)
first_three (a ∷ b ∷ []) x y h = absurd (omega arith)
first_three (a ∷ b ∷ c ∷ stack) x y h = refl

pub first_four :
    (stack : Buffer) (x y z : ℕ)
    → 3 < length stack
    → set (set (set (set stack 0 x) 1 y) 2 z) 3 0 ≡ holding (x ∷ y ∷ z ∷ []) [] (drop 4 stack)
first_four [] x y z h = absurd (omega arith)
first_four (a ∷ []) x y z h = absurd (omega arith)
first_four (a ∷ b ∷ []) x y z h = absurd (omega arith)
first_four (a ∷ b ∷ c ∷ []) x y z h = absurd (omega arith)
first_four (a ∷ b ∷ c ∷ d ∷ stack) x y z h = refl

IsWord-length : (w : List ℕ) → IsWord w → 0 < length w
IsWord-length [] h = absurd h
IsWord-length (c ∷ w) h = omega arith

-- The time of day: a date and a clock, with a blank behind each.
abbrev pub IsTime : List ℕ → List ℕ → List ℕ → Type 0
IsTime now date clock =
    (now ≡ date ++ (b' ' ∷ (clock ++ (b' ' ∷ [])))) × IsWord date × IsWord clock × NoNul now

abbrev pub stamped : ℕ → ℕ → Frame → List ℕ → Buffer
stamped type sender f text =
    holding (type ∷ sender ∷ []) (f.now ++ text)
      (drop (length text) (drop (length f.now) (drop 3 f.stack)))

stamped_time :
    (type sender : ℕ) (f : Frame)
    → 2 < length f.stack
    → 2 + length f.now < msg_size
    → strcat_at 2 f.now (set (set (set f.stack 0 type) 1 sender) 2 0)
      ≡ some (holding (type ∷ sender ∷ []) f.now (drop (length f.now) (drop 3 f.stack)))
stamped_time type sender f room fits =
    ap (strcat_at 2 f.now) (first_three f.stack type sender room)
    ∙ strcat_at-holding 2 (type ∷ sender ∷ []) [] f.now (drop 3 f.stack) refl tt (omega arith)

pub stamp-stamped :
    (type sender : ℕ) (f : Frame) (text : List ℕ)
    → 2 < length f.stack
    → NoNul f.now
    → 2 + length f.now + length text < msg_size
    → stamp f type sender text ≡ some (stamped type sender f text)
unfolding stamp
stamp-stamped type sender f text room plain fits =
    rw (stamp, stamped_time type sender f room (omega arith))
      (strcat_at-holding 2 (type ∷ sender ∷ []) f.now text (drop (length f.now) (drop 3 f.stack))
        refl plain fits)

stamp_overflow :
    (type sender : ℕ) (f : Frame) (text : List ℕ)
    → 2 < length f.stack
    → NoNul f.now
    → 2 + length f.now < msg_size
    → msg_size ≤ 2 + length f.now + length text
    → stamp f type sender text ≡ none
unfolding stamp
stamp_overflow type sender f text room plain fits long =
    rw (stamp, stamped_time type sender f room fits)
      (strcat_at_overflow 2 (type ∷ sender ∷ []) f.now text (drop (length f.now) (drop 3 f.stack))
        refl plain long)

-- The blank in front of a word does not count to it.
leading_blanks-IsWord : (w rest : List ℕ) → IsWord w → leading_blanks (w ++ rest) ≡ []
leading_blanks-IsWord [] rest h = absurd h
leading_blanks-IsWord (c ∷ w) rest h = rw (h.0) refl

pub show_message-stamped :
    (type sender : ℕ) (f : Frame) (date clock text : List ℕ)
    → IsTime f.now date clock
    → NoNul text
    → show_message (stamped type sender f text)
      ≡ some (record { sender = sender; time = date ++ (b' ' ∷ clock); content = text })
unfolding show_message
show_message-stamped type sender f date clock text (e, is_date, is_clock, plain) h =
    rw
      (
        show_message,
        string_at-holding 2 (type ∷ sender ∷ []) (f.now ++ text)
            (drop (length text) (drop (length f.now) (drop 3 f.stack))) refl
            (Every-append _ f.now text plain h),
        words,
        strtok-IsWord date (clock ++ (b' ' ∷ text)) is_date,
        strtok-IsWord clock text is_clock,
        leading_blanks-IsWord clock (b' ' ∷ text) is_clock,
      )
      refl
  where
    words : f.now ++ text ≡ date ++ (b' ' ∷ (clock ++ (b' ' ∷ text)))
    words =
        ap (λ n. n ++ text) e
        ∙ append_assoc date (b' ' ∷ (clock ++ (b' ' ∷ []))) text
        ∙ ap (λ w. date ++ (b' ' ∷ w)) (append_assoc clock (b' ' ∷ []) text)

-- What a client sends for a 2ALL line.
abbrev typed : Buffer → ℕ → List ℕ → Buffer
typed stack id text = holding (toall ∷ id ∷ 1 ∷ []) text (drop (length text) (drop 4 stack))

-- A line with its newline, which the array of `fgets` holds.
pub handle_input_line :
    (stack : Buffer) (line : List ℕ) (c : Client)
    → length line + 1 < msg_size
    → handle_input stack (line ++ (10 ∷ [])) c ≡ run_command stack (strtok line) c
unfolding handle_input
handle_input_line stack line c fits = rw (handle_input, held, strip_newline-append line) refl
  where
    held : ltb (length (line ++ (10 ∷ []))) msg_size ≡ true
    held =
        lt→ltb (length (line ++ (10 ∷ []))) msg_size (omega (arith, length-append line (10 ∷ [])))

handle_input_toall :
    (stack : Buffer) (text : List ℕ) (c : Client)
    → 3 < length stack
    → 6 + length text < msg_size
    → handle_input stack ((toall_word ++ (b' ' ∷ text)) ++ (10 ∷ [])) c
      ≡ running (act (sent (typed stack c.client_id text)) c)
unfolding run_command send_toall
handle_input_toall stack text c room fits =
    handle_input_line stack (toall_word ++ (b' ' ∷ text)) c (omega arith)
    ∙ ap (λ o. run_command stack o c)
        (strtok-IsWord toall_word text (refl, (refl, (refl, (refl, tt)))))
    ∙ rw (short, filled) refl
  where
    short : ltb (msg_size + 1) (length text) ≡ false
    short = ground (arith, fits)

    filled :
        strcat_at 3 text (set (set (set (set stack 0 toall) 1 c.client_id) 2 1) 3 0)
        ≡ some (typed stack c.client_id text)
    filled =
        ap (strcat_at 3 text) (first_four stack toall c.client_id 1 room)
        ∙ strcat_at-holding 3 (toall ∷ c.client_id ∷ 1 ∷ []) [] text (drop 4 stack) refl tt
            (omega arith)

handle_message-typed :
    (k : Kernel) (f : Frame) (stack : Buffer) (id : ℕ) (text : List ℕ) (s : Server)
    → NoNul text
    → agh_sys_opy.PosixChat.Server.handle_message k f (typed stack id text) s
      ≡ handle_toall k f id text s
unfolding agh_sys_opy.PosixChat.Server.handle_message
handle_message-typed k f stack id text s h =
    ap (λ t. handle_toall k f id t s)
      (string_at-holding 3 (toall ∷ id ∷ 1 ∷ []) text (drop (length text) (drop 4 stack)) refl h)

-- A 2ALL line with a text that fits behind the time, at a kernel that takes every message: the
-- client sends one array, the server sends each place in use one array, in order, and every client
-- that receives it prints the sender's number, the time and the text, whatever the arrays on the
-- stacks held before.
pub toall_line-printed :
    (stack stack' : Buffer) (f : Frame) (date clock text : List ℕ) (c r : Client) (k : Kernel)
    (s : Server)
    → 3 < length stack
    → 2 < length f.stack
    → IsTime f.now date clock
    → NoNul text
    → 2 + length f.now + length text < msg_size
    → 3 + length text < msg_size
    → TakesAll k
    → (m answer : Buffer) × (handle_input stack ((toall_word ++ (b' ' ∷ text)) ++ (10 ∷ [])) c
        ≡ running (act (sent m) c))
      × (agh_sys_opy.PosixChat.Server.handle_message k f m s
          ≡ agh_sys_opy.PosixChat.Server.running
              (record s { log = s.log ++ sends answer s.clients (in_use qarray_size 0 s.clients) }))
      × (handle_message stack' answer r
          ≡ running (
              act
                (printed
                  (record { sender = c.client_id; time = date ++ (b' ' ∷ clock); content = text }))
                r))
unfolding handle_message handle_toall finish
toall_line-printed stack stack' f date clock text c r k s room room' time plain fits fits' takes = (
  typed stack c.client_id text,
  stamped toall c.client_id f text,
  handle_input_toall stack text c room line_fits,
  handle_message-typed k f stack c.client_id text s plain ∙ answered,
  ap (λ o. handle_message_to o r)
      (show_message-stamped toall c.client_id f date clock text time plain),
)
  where
    line_fits : 6 + length text < msg_size
    line_fits = omega (
      arith,
      fits,
      ap length time.0,
      length-append date (b' ' ∷ (clock ++ (b' ' ∷ []))),
      length-append clock (b' ' ∷ []),
      IsWord-length date time.1,
      IsWord-length clock time.2,
    )

    answered :
        handle_toall k f c.client_id text s
        ≡ agh_sys_opy.PosixChat.Server.running (record s {
          log =
              s.log
              ++ sends
                  (stamped toall c.client_id f text)
                  s.clients
                  (in_use qarray_size 0 s.clients);
        })
    answered =
        rw
          (
            handle_toall,
            stamp-stamped toall c.client_id f text room' time.3 fits,
            send_each-in_use k (stamped toall c.client_id f text) qarray_size 0 s takes,
          )
          refl

-- A 2ALL line that `fgets` reads whole, with a text that does not fit behind the time: the client
-- sends it, and the server writes behind its array, which is undefined. With a time of 20 bytes these
-- are the texts of 1002 to 1017 bytes.
pub toall_line_too_long :
    (stack : Buffer) (f : Frame) (text : List ℕ) (c : Client) (k : Kernel) (s : Server)
    → 3 < length stack
    → 2 < length f.stack
    → NoNul f.now
    → NoNul text
    → 2 + length f.now < msg_size
    → msg_size ≤ 2 + length f.now + length text
    → 6 + length text < msg_size
    → (m : Buffer) × (handle_input stack ((toall_word ++ (b' ' ∷ text)) ++ (10 ∷ [])) c
        ≡ running (act (sent m) c))
      × (agh_sys_opy.PosixChat.Server.handle_message k f m s
          ≡ agh_sys_opy.PosixChat.Server.undefined)
unfolding handle_toall
toall_line_too_long stack f text c k s room room' now_plain plain now_fits long fits = (
  typed stack c.client_id text,
  handle_input_toall stack text c room fits,
  handle_message-typed k f stack c.client_id text s plain ∙ rw (handle_toall, overflows) refl,
)
  where
    overflows : stamp f toall c.client_id text ≡ none
    overflows = stamp_overflow toall c.client_id f text room' now_plain now_fits long
