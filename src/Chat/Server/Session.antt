-- ===== src/Chat/Server/Session.antt =====
-- The server handles whatever its clients send, and goes on.
use agh_sys_opy.Prelude.{
  ℕ, ◌<◌, ◌≡◌, ◌≢◌, refl, false, List, Option, none, some, ltb, if◌then◌else◌, arith, Bool-cases,
  inl, inr, ap, lt→ltb, ◌∙◌, ℕ_discrete,
}
use agh_sys_opy.Prelude.Int.{ℤ, pos}
use agh_sys_opy.Text.{strtol}
use agh_sys_opy.Chat.{Kernel, msgsnd, Kind, stop, list, toall, toone, init, other}
use agh_sys_opy.Chat.Server.{
  Server, Outcome, running, undefined, qarray_size, is_zero, handle_toone, handle_init, call,
  toone_feedback, handle_message,
}
use agh_sys_opy.Chat.Server.Listing.{handle_list-registered}
use agh_sys_opy.Chat.Server.Sending.{TakesAll, handle_toall-registered, handle_toone-receiver}
use agh_sys_opy.Chat.Server.Joining.{Serves, joined, handle_init-IsFirstFree, handle_stop_used}

-- The server goes on, and every client in use, but for `gone`, keeps its queue.
abbrev pub GoesOn : Option ℕ → Server → Outcome → Type 0
GoesOn gone s r =
    (s2 : Server) × (r ≡ running s2)
    × ((j : ℕ) → is_zero (s.clients j) ≡ false → gone ≢ some j → s2.clients j ≡ s.clients j)

abbrev pub InUse : Server → ℕ → Type 0
InUse s i = (i < qarray_size) × (is_zero (s.clients i) ≡ false)

-- A message whose sender is a client in use, INIT excepted, and which names a receiver in the range
-- of the table if it is a 2ONE.
abbrev pub IsRegular : Server → Kind → ℕ → ℕ → Type 0
IsRegular s stop sender receiver = InUse s sender
IsRegular s list sender receiver = InUse s sender
IsRegular s toall sender receiver = InUse s sender
IsRegular s toone sender receiver = InUse s sender × (receiver < qarray_size)
IsRegular s init sender receiver = Unit
IsRegular s (other n) sender receiver = InUse s sender

abbrev pub leaves : Kind → ℕ → Option ℕ
leaves stop sender = some sender
leaves list sender = none
leaves toall sender = none
leaves toone sender = none
leaves init sender = none
leaves (other n) sender = none

handle_init-GoesOn :
    (k : Kernel) (content : List ℕ) (s : Server)
    → Serves k
    → GoesOn none s (handle_init k content s)
handle_init-GoesOn k content s serves = elim (handle_init-IsFirstFree k content s serves) [
  | inl (index, first, e) ↦ (
    joined (strtol content) (k.queue_of s.log (strtol content)) index s,
    e,
    λ j used ne. ground (arith, first.1),
  )
  | inr (full, e) ↦ (s, e, λ j used ne. refl)
]

handle_toone-GoesOn :
    (k : Kernel) (sender_id : ℤ) (i : ℕ) (content : List ℕ) (s : Server)
    → TakesAll k
    → i < qarray_size
    → GoesOn none s (handle_toone k sender_id (pos i) content s)
handle_toone-GoesOn k sender_id i content s takes h = elim (Bool-cases (is_zero (s.clients i))) [
  | inl z ↦ (s, receives ∙ rw (lt→ltb i qarray_size h, z) refl, λ j used ne. refl)
  | inr z ↦ (
    call (msgsnd (s.clients i) (toone_feedback sender_id (pos i) content)) s,
    receives ∙ rw (lt→ltb i qarray_size h, z) refl,
    λ j used ne. refl,
  )
]
  where
    receives : handle_toone k sender_id (pos i) content s ≡ (
        if ltb i qarray_size
        then (if is_zero (s.clients i)
            then running s
            else running (call (msgsnd (s.clients i) (toone_feedback sender_id (pos i) content)) s))
        else undefined)
    receives = handle_toone-receiver k sender_id i content s takes

-- At a kernel that serves, a message whose sender is a client in use (INIT excepted), and with 2ONE a
-- receiver in the range of the table, does not end the server and meets no undefined behaviour,
-- whatever its type, and the clients in use keep their queues, but for one that sends STOP.
pub handle_message-GoesOn :
    (k : Kernel) (kind : Kind) (sender receiver : ℕ) (content : List ℕ) (s : Server)
    → Serves k
    → IsRegular s kind sender receiver
    → GoesOn (leaves kind sender) s (
        handle_message k
          (record {
            type = kind;
            sender_id = pos sender;
            receiver_id = pos receiver;
            content = content;
          })
          s)
unfolding handle_message
handle_message-GoesOn k stop sender receiver content s serves regular = (
  _,
  handle_stop_used k sender s regular.0 regular.1,
  λ j used ne. elim (ℕ_discrete sender j) [
    | yes e ↦ absurd (ne (ap some e))
    | no ne_sender ↦ ground arith
  ],
)
handle_message-GoesOn k list sender receiver content s serves regular =
    let (sent, e, reads) =
      handle_list-registered k sender s regular.0 (serves.0 s.log (s.clients sender)) in
    (_, e, λ j used ne. refl)
handle_message-GoesOn k toall sender receiver content s serves regular =
    (_, handle_toall-registered k (pos sender) content s serves.0, λ j used ne. refl)
handle_message-GoesOn k toone sender receiver content s serves regular =
    handle_toone-GoesOn k (pos sender) receiver content s serves.0 regular.1
handle_message-GoesOn k init sender receiver content s serves regular =
    handle_init-GoesOn k content s serves
handle_message-GoesOn k (other n) sender receiver content s serves regular =
    (s, refl, λ j used ne. refl)
