-- ===== src/Game/Server/Accept.antt =====
-- What a new connection does to the server: `check_username`, `register_client`, `find_opponent`
-- and the accept loop.
use agh_sys_opy.Prelude.{
  ℕ, ◌≡◌, ◌≢◌, refl, true, Option, none, some, arith, if◌then◌else◌, find_index, find_index-some,
  find_index-none, str_eq, str_eq_refl, List, ap,
}
use agh_sys_opy.Game.Message.{max_players}
use agh_sys_opy.Game.Server.{
  Server, call, lock, table, is_waiting, is_free, has_name, reject_name, check_username, take_slot,
  register_client, start_match, find_opponent, greet, accept_client,
}
use agh_sys_opy.Game.Server.Invariant.{IsValid, registered-IsValid, paired-IsValid}

start_match-IsValid :
    (s : Server) (id rand : ℕ) (r : Option ℕ)
    → find_index max_players (is_waiting s id) ≡ r
    → IsValid s
    → (s.clients id).taken ≡ true
    → (s.clients id).opponent ≡ none
    → IsValid (start_match s id rand r)
unfolding start_match
start_match-IsValid s id rand none e v t o = v
start_match-IsValid s id rand (some i) e v t o =
    let (lt, hit, _) = find_index-some max_players i (is_waiting s id) e in
    paired-IsValid s v id i (ground arith) t (ground arith) o (ground arith)

-- The player has a slot, and waits.
abbrev IsWaiting : Server → Option ℕ → Type 0
IsWaiting s none = Unit
IsWaiting s (some i) = ((s.clients i).taken ≡ true) × ((s.clients i).opponent ≡ none)

take_slot-IsValid :
    (s : Server) (sockfd : ℕ) (name : List ℕ) (r : Option ℕ)
    → find_index max_players (is_free s) ≡ r
    → IsValid s
    → ((i : ℕ) → (s.clients i).taken ≡ true → (s.clients i).name ≢ name)
    → let (s', slot) = take_slot s sockfd name r in IsValid s' × IsWaiting s' slot
unfolding take_slot
take_slot-IsValid s sockfd name none e v new = (v, tt)
take_slot-IsValid s sockfd name (some n) e v new =
    let (lt, hit, _) = find_index-some max_players n (is_free s) e in
    (registered-IsValid s v sockfd name n lt (ground arith) new, ground arith)

greet-IsValid :
    (s : Server) (rand : ℕ) (r : Option ℕ) → IsValid s × IsWaiting s r → IsValid (greet s rand r)
unfolding greet find_opponent
greet-IsValid s rand none v = v.0
greet-IsValid s rand (some i) v = start_match-IsValid s i rand _ refl v.0 v.1.0 v.1.1

-- No player has the name when the search finds none.
no_name :
    (s : Server) (name : List ℕ)
    → IsValid s
    → find_index max_players (has_name s name) ≡ none
    → (i : ℕ) → (s.clients i).taken ≡ true
    → (s.clients i).name ≢ name
no_name s name v e i t same = ground (
  arith,
  find_index-none max_players i (has_name s name) e (v.in_table i t),
  str_eq_refl name,
  ap (λ x. str_eq x name) same,
)

accept_client-cases :
    (s : Server) (sockfd : ℕ) (name : List ℕ) (rand : ℕ) (r : Option ℕ)
    → find_index max_players (has_name s name) ≡ r
    → IsValid s
    → let (s1, exists) = reject_name s sockfd r in
      let (s2, slot) = register_client s1 sockfd name in
      IsValid (if exists then s1 else greet s2 rand slot)
unfolding reject_name register_client
accept_client-cases s sockfd name rand (some i) e v = v
accept_client-cases s sockfd name rand none e v =
    greet-IsValid _ rand _ (take_slot-IsValid s sockfd name _ refl v (no_name s name v e))

-- A connection keeps the table of players valid, whether its name is taken, the table is full, or
-- the player is registered and perhaps paired.
pub accept_client-IsValid :
    (s : Server) (sockfd : ℕ) (name : List ℕ) (rand : ℕ)
    → IsValid s
    → IsValid (accept_client s sockfd name rand)
unfolding accept_client check_username
accept_client-IsValid s sockfd name rand v =
    accept_client-cases (call (lock table) s) sockfd name rand _ refl v
