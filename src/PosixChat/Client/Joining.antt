-- ===== src/PosixChat/Client/Joining.antt =====
-- A client joins the chat.
use agh_sys_opy.Prelude.{
  ℕ, ◌+◌, ◌<◌, ◌≡◌, refl, ap, ◌∙◌, true, false, List, [], ◌∷◌, ◌++◌, length, drop, set, some,
  write_at, find_index-some, find_index_total, arith,
}
use agh_sys_opy.Text.Strings.{NoNul}
use agh_sys_opy.PosixChat.{Buffer, msg_size, init, strcat_at}
use agh_sys_opy.PosixChat.Buffers.{holding, string_at-holding, strcat_at-holding}
use agh_sys_opy.PosixChat.Server.{
  Kernel, Frame, Server, Call, opened, qarray_size, is_error, find_free, open_queue, handle_init,
  finish, send,
}
use agh_sys_opy.PosixChat.Server
use agh_sys_opy.PosixChat.Server.Sending.{TakesAll}
use agh_sys_opy.PosixChat.Client.{Client, init_message, initialize}
use agh_sys_opy.PosixChat.Client.Dialogue.{first_three}

abbrev pub IsFirstFree : Server → ℕ → Type 0
IsFirstFree s index =
    (index < qarray_size)
    × (is_error (s.clients index) ≡ true)
    × ((j : ℕ) → j < index → is_error (s.clients j) ≡ false)

abbrev asking : Buffer → List ℕ → Buffer
asking stack q_name = holding (init ∷ []) q_name (drop (length q_name) (drop 2 stack))

first_two :
    (stack : Buffer) (x : ℕ)
    → 1 < length stack
    → set (set stack 0 x) 1 0 ≡ holding [] (x ∷ []) (drop 2 stack)
first_two [] x h = absurd (omega arith)
first_two (a ∷ []) x h = absurd (omega arith)
first_two (a ∷ b ∷ stack) x h = refl

init_message-asking :
    (stack : Buffer) (q_name : List ℕ)
    → 1 < length stack
    → 1 + length q_name < msg_size
    → init_message stack q_name ≡ some (asking stack q_name)
unfolding init_message
init_message-asking stack q_name room fits =
    ap (strcat_at 0 q_name) (first_two stack init room)
    ∙ strcat_at-holding 0 [] (init ∷ []) q_name (drop 2 stack) refl (refl, tt) (omega arith)

handle_message-asking :
    (k : Kernel) (f : Frame) (stack : Buffer) (q_name : List ℕ) (s : Server)
    → NoNul q_name
    → agh_sys_opy.PosixChat.Server.handle_message k f (asking stack q_name) s
      ≡ handle_init k f q_name s
unfolding agh_sys_opy.PosixChat.Server.handle_message
handle_message-asking k f stack q_name s h =
    ap (λ t. handle_init k f t s)
      (string_at-holding 1 (init ∷ []) q_name (drop (length q_name) (drop 2 stack)) refl h)

-- A client with a short name for its queue joins while a place is free, at a kernel that takes every
-- message and opens that queue: the server keeps the queue at the first free place, changes no other
-- place, and sends it an array from which the client takes the number of that place as its own.
pub initialize-IsFirstFree :
    (stack : Buffer) (f : Frame) (q_name : List ℕ) (c : Client) (k : Kernel) (s : Server) (free : ℕ)
    → 1 < length stack
    → 2 < length f.stack
    → NoNul q_name
    → 1 + length q_name < msg_size
    → TakesAll k
    → is_error (k.opens s.log q_name) ≡ false
    → free < qarray_size
    → is_error (s.clients free) ≡ true
    → (m answer : Buffer) × (index : ℕ) × (init_message stack q_name ≡ some m)
      × IsFirstFree s index
      × (agh_sys_opy.PosixChat.Server.handle_message k f m s
          ≡ agh_sys_opy.PosixChat.Server.running (record s {
            clients = write_at index (k.opens s.log q_name) s.clients;
            log =
                (s.log ++ (opened q_name ∷ []))
                ++ (agh_sys_opy.PosixChat.Server.sent (k.opens s.log q_name) answer ∷ []);
          }))
      × (initialize answer c ≡ record c { client_id = index })
unfolding handle_init open_queue find_free finish send
initialize-IsFirstFree stack f q_name c k s free room room' plain fits takes opens inside is_free =
    let (index, e) =
      find_index_total qarray_size free (λ i. is_error (s.clients i)) inside is_free in
    (
      asking stack q_name,
      agh_sys_opy.PosixChat.Server.init_message f index,
      index,
      init_message-asking stack q_name room fits,
      find_index-some qarray_size index _ e,
      handle_message-asking k f stack q_name s plain
          ∙ rw (handle_init, find_free, e, open_queue, opens, finish, send, takes) refl,
      ap (λ m. initialize m c) (first_three f.stack init index room'),
    )
