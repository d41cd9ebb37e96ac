-- ===== src/Chat/Client/Tests.antt =====
-- Lines that a user types, at a chat of two clients.
use agh_sys_opy.Prelude.{ℕ, ◌≡◌, refl, true, List, [], ◌∷◌, ◌++◌, arith, get_or}
use agh_sys_opy.Prelude.Int.{pos}
use agh_sys_opy.Chat.{Kernel, Message, init, msgsnd}
use agh_sys_opy.Chat.Server.{Server, Received, toall_feedback, toone_feedback, init_feedback, call}
use agh_sys_opy.Chat.Server.Joining.{IsFull}
use agh_sys_opy.Chat.Client.{Client, running, act, sent, handle_input}
use agh_sys_opy.Chat.Client.Dialogue.{received, toall_word, toall_line-registered}

abbrev serving : Kernel
serving = record { queue_of = λ log key. pos 9; takes = λ log q. true; removes = λ log. true }

abbrev chat : Server
chat = record { clients = λ i. get_or (pos 5 ∷ pos 0 ∷ pos 7 ∷ []) i (pos 0); log = [] }

abbrev junk : Received
junk = record { type = init; sender_id = pos 3; receiver_id = pos 99; content = 1 ∷ [] }

abbrev typist : Client
typist = record { client_id = pos 2; log = [] }

abbrev greeting : List ℕ
greeting = b'h' ∷ b' ' ∷ b'i' ∷ []

toall_line-registered_example :
    (m : Message) × (handle_input ((toall_word ++ (b' ' ∷ greeting)) ++ (10 ∷ [])) typist
      ≡ running (act (sent m) typist))
    × (agh_sys_opy.Chat.Server.handle_message serving (received junk m) chat
        ≡ agh_sys_opy.Chat.Server.running (record chat {
          log =
              msgsnd (pos 7) (toall_feedback (pos 2) greeting)
              ∷ msgsnd (pos 5) (toall_feedback (pos 2) greeting)
              ∷ [];
        }))
toall_line-registered_example =
    toall_line-registered greeting typist serving junk chat (omega arith) (λ log q. refl)

not_full : IsFull chat → ⊥
not_full full = ground (arith, full 1 (omega arith))
