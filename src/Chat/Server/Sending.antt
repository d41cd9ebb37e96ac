-- ===== src/Chat/Server/Sending.antt =====
-- Whom the handlers write to, what they change, and when the server ends.
use agh_sys_opy.Prelude.{
  ℕ, zero, suc, ◌≡◌, refl, true, List, [], ◌∷◌, ltb, if◌then◌else◌, Bool-cases, inl, inr, ap,
}
use agh_sys_opy.Prelude.Int.{ℤ, pos}
use agh_sys_opy.Chat.{Kernel, Message, Call, msgsnd}
use agh_sys_opy.Chat.Server.{
  Server, Outcome, running, undefined, qarray_size, is_zero, send_each, finish, send, call,
  delivered, handle_toall, handle_toone, toall_feedback, toone_feedback,
}
use agh_sys_opy.Chat.Server.Listing.{registered}

-- The calls that send a message to the places named, the latest first, in front of earlier calls.
abbrev pub sends : Message → (ℕ → ℤ) → List ℕ → List Call → List Call
sends msg clients [] log = log
sends msg clients (i ∷ is) log = sends msg clients is (msgsnd (clients i) msg ∷ log)

-- The kernel takes every message, whatever came before.
abbrev pub TakesAll : Kernel → Type 0
TakesAll k = (log : List Call) (q : ℤ) → k.takes log q ≡ true

pub send_each-registered :
    (k : Kernel) (msg : Message) (n i : ℕ) (s : Server)
    → TakesAll k
    → send_each k msg n i s
      ≡ delivered (record s { log = sends msg s.clients (registered n i s.clients) s.log })
unfolding send_each send
send_each-registered k msg zero i s takes = refl
send_each-registered k msg (suc n) i s takes = elim (Bool-cases (is_zero (s.clients i))) [
  | inl e ↦ rw (send_each, e) (send_each-registered k msg n (suc i) s takes)
  | inr e ↦
      rw (send_each, e, send, takes)
        (send_each-registered k msg n (suc i) (call (msgsnd (s.clients i) msg) s) takes)
]

-- 2ALL, at a kernel that takes every message: each place in use is sent the message once, in order,
-- with the sender's number, and nobody else is.
pub handle_toall-registered :
    (k : Kernel) (sender_id : ℤ) (content : List ℕ) (s : Server)
    → TakesAll k
    → handle_toall k sender_id content s
      ≡ Outcome.running (record s {
        log =
            sends
              (toall_feedback sender_id content)
              s.clients
              (registered qarray_size 0 s.clients)
              s.log;
      })
unfolding handle_toall finish
handle_toall-registered k sender_id content s takes =
    ap (finish k) (send_each-registered k _ qarray_size 0 s takes)

-- 2ONE to a number that is not negative, at a kernel that takes every message: in the range of the
-- table it goes to that place alone if it is in use, and to nobody otherwise; out of the range the
-- behaviour is undefined.
pub handle_toone-receiver :
    (k : Kernel) (sender_id : ℤ) (i : ℕ) (content : List ℕ) (s : Server)
    → TakesAll k
    → handle_toone k sender_id (pos i) content s ≡ (
        if ltb i qarray_size
        then (if is_zero (s.clients i)
            then running s
            else running (call (msgsnd (s.clients i) (toone_feedback sender_id (pos i) content)) s))
        else undefined)
unfolding handle_toone send
handle_toone-receiver k sender_id i content s takes = elim (Bool-cases (ltb i qarray_size)) [
  | inr e ↦ rw (handle_toone, e) refl
  | inl e ↦ elim (Bool-cases (is_zero (s.clients i))) [
    | inl z ↦ rw (handle_toone, e, z) refl
    | inr z ↦ rw (handle_toone, e, z, send, takes) refl
  ]
]
