-- ===== src/Chat/Server/Joining.antt =====
-- How clients join and leave the chat, and that the server goes on.
use agh_sys_opy.Prelude.{
  ℕ, zero, suc, ◌+◌, ◌≤◌, ◌<◌, ◌≡◌, refl, true, false, List, ◌∷◌, some, arith, Bool-cases, inl, inr,
  ap, lt→ltb, ◌∙◌, write_at, find_index-some, ◌⊎◌, find_index-none, Option-cases, ℕ_discrete,
}
use agh_sys_opy.Prelude.Int.{ℤ, pos, negsuc}
use agh_sys_opy.Text.{strtol}
use agh_sys_opy.Chat.{Kernel, Message, Call, msgget, msgsnd}
use agh_sys_opy.Chat.Server.{
  Server, running, undefined, qarray_size, is_zero, is_error, send_each, finish, send, call,
  refused, handle_init, handle_stop, init_feedback, open_queue, register, find_free, exit,
  stop_feedback,
}
use agh_sys_opy.Chat.Server.Sending.{TakesAll}

-- The server after a client with the queue `q` has joined at the place `index`.
abbrev pub joined : ℤ → ℤ → ℕ → Server → Server
joined key q index s = record s {
  clients = write_at index q s.clients;
  log = msgsnd q (init_feedback index) ∷ msgget key ∷ s.log;
}

-- The first free place.
abbrev pub IsFirstFree : Server → ℕ → Type 0
IsFirstFree s index =
    (index < qarray_size)
    × (is_zero (s.clients index) ≡ true)
    × ((j : ℕ) → j < index → is_zero (s.clients j) ≡ false)

abbrev pub IsFull : Server → Type 0
IsFull s = (j : ℕ) → j < qarray_size → is_zero (s.clients j) ≡ false

-- The kernel takes every message, and finds each queue under a number above 0.
abbrev pub Serves : Kernel → Type 0
Serves k = TakesAll k × ((log : List Call) (key : ℤ) → (n : ℕ) × (k.queue_of log key ≡ pos (suc n)))

open_queue-joined :
    (k : Kernel) (key q : ℤ) (index : ℕ) (s : Server)
    → k.queue_of s.log key ≡ q
    → is_error q ≡ false
    → TakesAll k
    → open_queue k key index s ≡ running (joined key q index s)
unfolding open_queue finish send
open_queue-joined k key q index s e ok takes = rw (open_queue, e, ok, finish, send, takes) refl

-- INIT, at a kernel that serves: with a free place the first one gets the queue of the key, and the
-- new client is told its number; a full table stays as it is, and the server goes on.
pub handle_init-IsFirstFree :
    (k : Kernel) (content : List ℕ) (s : Server)
    → Serves k
    → ((index : ℕ) × IsFirstFree s index
        × (handle_init k content s
            ≡ running (joined (strtol content) (k.queue_of s.log (strtol content)) index s)))
      ⊎ (IsFull s × (handle_init k content s ≡ running s))
unfolding handle_init register find_free
handle_init-IsFirstFree k content s serves = elim (Option-cases (find_free s)) [
  | inl e ↦ inr (λ j h. find_index-none qarray_size j _ e h, ap (register k (strtol content) s) e)
  | inr (index, e) ↦ inl (
    index,
    find_index-some qarray_size index _ e,
    ap (register k (strtol content) s) e
        ∙ open_queue-joined k (strtol content) _ index s refl (opened index) serves.0,
  )
]
  where
    opened : (index : ℕ) → is_error (k.queue_of s.log (strtol content)) ≡ false
    opened index = let (n, e) = serves.1 s.log (strtol content) in rw e refl

is_zero-pos : (q : ℤ) → is_zero q ≡ true → q ≡ pos 0
is_zero-pos (pos zero) e = refl
is_zero-pos (pos (suc n)) e = absurd (ground arith)
is_zero-pos (negsuc n) e = absurd (ground arith)

pub handle_stop_used :
    (k : Kernel) (i : ℕ) (s : Server)
    → i < qarray_size
    → is_zero (s.clients i) ≡ false
    → handle_stop k (pos i) s ≡ running (record s { clients = write_at i (pos 0) s.clients })
unfolding handle_stop
handle_stop_used k i s h e = rw (handle_stop, lt→ltb i qarray_size h, e) refl

-- A client that joins at the first free place, with a queue other than 0, and then sends STOP
-- leaves every place of the table as it was.
pub handle_stop-joined :
    (k : Kernel) (key q : ℤ) (index : ℕ) (s : Server)
    → IsFirstFree s index
    → is_zero q ≡ false
    → (s2 : Server) × (handle_stop k (pos index) (joined key q index s) ≡ running s2)
      × ((j : ℕ) → s2.clients j ≡ s.clients j)
handle_stop-joined k key q index s first used = (
  _,
  handle_stop_used k index (joined key q index s) first.0 (ground (arith, used)),
  λ j. ground (arith, is_zero-pos (s.clients index) first.1),
)

-- A loop that sends to a place whose queue is -1 does not get past it.
send_each-refused :
    (k : Kernel) (msg : Message) (n i j : ℕ) (s : Server)
    → ((log : List Call) → k.takes log (negsuc 0) ≡ false)
    → i ≤ j
    → j < i + n
    → s.clients j ≡ negsuc 0
    → (s2 : Server) × (send_each k msg n i s ≡ refused s2)
unfolding send_each send
send_each-refused k msg zero i j s closed lo hi e = absurd (omega arith)
send_each-refused k msg (suc n) i j s closed lo hi e = elim (ℕ_discrete i j) [
  | yes here ↦ (call (msgsnd (negsuc 0) msg) s, rw (send_each, here, e, send, closed) refl)
  | no before ↦ elim (Bool-cases (is_zero (s.clients i))) [
    | inl z ↦
        let (s2, r) = send_each-refused k msg n (suc i) j s closed (omega arith) (omega arith) e in
        (s2, rw (send_each, z) r)
    | inr z ↦ elim (Bool-cases (k.takes s.log (s.clients i))) [
      | inl t ↦
          let (s2, r) =
            send_each-refused k msg n (suc i) j (call (msgsnd (s.clients i) msg) s) closed
              (omega arith) (omega arith) e in
          (s2, rw (send_each, z, send, t) r)
      | inr t ↦ (call (msgsnd (s.clients i) msg) s, rw (send_each, z, send, t) refl)
    ]
  ]
]

-- INIT with a key for which there is no queue, while a place is free, at a kernel that refuses
-- messages to the queue -1: the server stores -1, so that `close_on_exit`, which `exit` runs, fails
-- on that place and calls `exit` again, which is undefined.
pub handle_init_unknown_key :
    (k : Kernel) (content : List ℕ) (index : ℕ) (s : Server)
    → find_free s ≡ some index
    → k.queue_of s.log (strtol content) ≡ negsuc 0
    → ((log : List Call) → k.takes log (negsuc 0) ≡ false)
    → handle_init k content s ≡ undefined
unfolding handle_init register open_queue exit find_free
handle_init_unknown_key k content index s e none_there closed =
    let (s2, r) =
      send_each-refused k stop_feedback qarray_size 0 index
        (record (call (msgget (strtol content)) s) {
          clients = write_at index (negsuc 0) s.clients;
        })
        closed (omega arith) (omega (arith, (find_index-some qarray_size index _ e).0))
        (ground arith) in
    ap (register k (strtol content) s) e ∙ rw (open_queue, none_there, exit, r) refl
