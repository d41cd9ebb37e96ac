-- ===== src/Chat/Server/Tests.antt =====
-- A chat of two clients, at places 0 and 2 of the table.
use agh_sys_opy.Prelude.{
  ℕ, ◌≡◌, refl, Bool, true, false, List, [], ◌∷◌, some, arith, get_or, ◌==◌, not, find_from,
}
use agh_sys_opy.Prelude.Int.{ℤ, pos, negsuc}
use agh_sys_opy.Text.{print_decimal, digits}
use agh_sys_opy.Text.Words.{read_ids}
use agh_sys_opy.Chat.{Kernel, msgsnd, stop}
use agh_sys_opy.Chat.Server.{
  Server, running, qarray_size, list_feedback, call, handle_list, handle_message, append_id,
  list_ids, find_free,
}
use agh_sys_opy.Chat.Server.Listing.{handle_list-registered}
use agh_sys_opy.Chat.Server.Joining.{Serves, IsFirstFree}
use agh_sys_opy.Chat.Server.Session.{GoesOn, handle_message-GoesOn}

-- A kernel that opens queue 9 for every key and takes every message.
abbrev serving : Kernel
serving = record { queue_of = λ log key. pos 9; takes = λ log q. true; removes = λ log. true }

serving-Serves : Serves serving
serving-Serves = (λ log q. refl, λ log key. (8, refl))

abbrev is_minus_one : ℤ → Bool
is_minus_one (pos n) = false
is_minus_one (negsuc n) = n == 0

-- A kernel that knows no key and refuses messages to the queue -1.
abbrev closed : Kernel
closed = record {
  queue_of = λ log key. negsuc 0;
  takes = λ log q. not (is_minus_one q);
  removes = λ log. true;
}

abbrev chat : Server
chat = record { clients = λ i. get_or (pos 5 ∷ pos 0 ∷ pos 7 ∷ []) i (pos 0); log = [] }

abbrev greeting : List ℕ
greeting = b'h' ∷ b'i' ∷ []

abbrev key_text : List ℕ
key_text = b'7' ∷ b'7' ∷ []

listed : list_ids qarray_size 0 chat.clients [] ≡ some (b'0' ∷ b' ' ∷ b'2' ∷ b' ' ∷ [])
unfolding list_ids append_id print_decimal digits
listed = refl

handle_list-registered_example :
    (content : List ℕ) × (handle_list serving (pos 2) chat
      ≡ running (call (msgsnd (pos 7) (list_feedback content)) chat))
    × (read_ids qarray_size content ≡ pos 0 ∷ pos 2 ∷ [])
handle_list-registered_example = handle_list-registered serving 2 chat (omega arith) refl

chat-IsFirstFree : IsFirstFree chat 1
chat-IsFirstFree = (omega arith, refl, λ j h. ground arith)

chat_free_place : find_free chat ≡ some 1
unfolding find_free find_from
chat_free_place = refl

handle_message-GoesOn_example : GoesOn (some 2) chat (
    handle_message serving
      (record { type = stop; sender_id = pos 2; receiver_id = pos 0; content = [] })
      chat)
handle_message-GoesOn_example =
    handle_message-GoesOn serving stop 2 0 [] chat serving-Serves (omega arith, refl)
