-- ===== src/Game/Server/Handlers/Play.antt =====
-- What `handle_move` does: to the shared board, and in messages to the two players.
use agh_sys_opy.Prelude.{
  ℕ, suc, ◌<◌, ◌≡◌, ◌≢◌, ◌⊎◌, refl, true, none, some, arith, inl, inr, Succeeds, ◌∷◌, List,
  write_at, ℕ_discrete,
}
use agh_sys_opy.Prelude.Int.{ℤ, pos}
use agh_sys_opy.Game.Board.{Cells, board_size, check_game_status}
use agh_sys_opy.Game.Board.Verdict.{IsVerdict, check_game_status-IsVerdict}
use agh_sys_opy.Game.Message.{Reply}
use agh_sys_opy.Game.Server.{Server, Call, write, lock, unlock, client}
use agh_sys_opy.Game.Server.Handlers.{handle_move, cell_of}
use agh_sys_opy.Game.Server.Invariant.{IsValid, Plays, IsCell, written-IsValid}

-- The messages about a move that leaves the board `cells`: the verdict of the rules to both players
-- if the game is over, the board to the other player if it goes on.
abbrev pub Told : ℕ → ℕ → Cells → List Call → List Call → Type 0
Told me other cells before after =
    ((v : ℕ) × (v ≢ 0)
      × IsVerdict cells v
      × (after ≡ write me (Reply.finish v) ∷ write other (Reply.finish v) ∷ before))
    ⊎ (IsVerdict cells 0 × (after ≡ write other (Reply.board cells) ∷ before))

-- What a move at cell `k` leaves, where `i` plays `j` on the board `cells` at `a`.
pub record HasMoved (s : Server) (i j a k : ℕ) (cells : Cells) (s' : Server) : Type 0 where
  pub same_clients : s'.clients ≡ s.clients
  pub new_heap : s'.heap ≡ write_at a (some (write_at k (s.clients i).symbol cells)) s.heap
  pub told :
      (messages : List Call) × Told
        (s.clients i).sockfd
        (s.clients j).sockfd
        (write_at k (s.clients i).symbol cells)
        (lock (client (some j)) ∷ s.log)
        messages
      × (s'.log ≡ unlock (client (some j)) ∷ messages)

abbrev moved : Server → ℕ → ℕ → ℕ → Cells → List Call → Server
moved s j a k cells messages = record s {
  heap = write_at a (some cells) s.heap;
  log = unlock (client (some j)) ∷ messages;
}

module _ (s : Server) (i j a k : ℕ) {cells : Cells} (o : (s.clients i).opponent ≡ some j)
    (p : Plays s.clients i j a) (h : s.heap a ≡ some cells) (lt : k < board_size) where
  abbrev after : Cells
  after = write_at k (s.clients i).symbol cells

  handle_move-over :
      check_game_status after ≢ 0
      → handle_move s i (pos (suc k))
        ≡ some (
            moved s j a k after (
              write (s.clients i).sockfd (Reply.finish (check_game_status after))
              ∷ write (s.clients j).sockfd (Reply.finish (check_game_status after))
              ∷ lock (client (some j))
              ∷ s.log))
  unfolding handle_move
  handle_move-over over = ground (arith, p)

  handle_move-on :
      check_game_status after ≡ 0
      → handle_move s i (pos (suc k))
        ≡ some (
            moved s j a k after
              (write (s.clients j).sockfd (Reply.board after) ∷ lock (client (some j)) ∷ s.log))
  unfolding handle_move
  handle_move-on on = ground (arith, p)

symbol-IsCell : (s : Server) {i j a : ℕ} → Plays s.clients i j a → IsCell (s.clients i).symbol
symbol-IsCell s p = ground (arith, p)

after-IsCell :
    (cells : Cells) (k c : ℕ)
    → ((m : ℕ) → IsCell (cells m))
    → IsCell c
    → (m : ℕ) → IsCell (write_at k c cells m)
after-IsCell cells k c ok h m = elim (ℕ_discrete k m) [
  | yes e ↦ ground arith
  | no ne ↦ ground (arith, ok m)
]

verdict : (cells : Cells) → ((m : ℕ) → IsCell (cells m)) → IsVerdict cells (check_game_status cells)
verdict cells ok = check_game_status-IsVerdict cells (λ m lt. ground (arith, ok m))

-- A move of a player who has an opponent, at a cell of the board, succeeds on a valid table: it
-- keeps the table valid, writes the player's symbol at that cell of the shared board and nothing
-- else, and sends the verdict of the rules to both players if the game is over, and otherwise the
-- new board to the opponent.
pub handle_move-HasMoved :
    (s : Server) (i j k : ℕ)
    → IsValid s
    → (s.clients i).taken ≡ true
    → (s.clients i).opponent ≡ some j
    → k < board_size
    → (a : ℕ) × (cells : Cells) × ((s.clients i).board ≡ some a)
      × ((s.clients j).board ≡ some a)
      × (s.heap a ≡ some cells)
      × Succeeds (λ s'. IsValid s' × HasMoved s i j a k cells s') (handle_move s i (pos (suc k)))
handle_move-HasMoved s i j k v t o lt =
    let (a, p) = v.playing i j t o in
    let (cells, h, ok) = v.allocated i a p.mine in
    (a, cells, p.mine, p.shared, h, told a cells p h ok)
  where
    told :
        (a : ℕ) (cells : Cells)
        → Plays s.clients i j a
        → s.heap a ≡ some cells
        → ((m : ℕ) → IsCell (cells m))
        → Succeeds (λ s'. IsValid s' × HasMoved s i j a k cells s') (handle_move s i (pos (suc k)))
    told a cells p h ok =
        let cells' = write_at k (s.clients i).symbol cells in
        let ok' : (m : ℕ) → IsCell (cells' m) = after-IsCell cells k _ ok (symbol-IsCell s p) in
        let w = written-IsValid s v a cells' h ok' in
        elim (ℕ_discrete (check_game_status cells') 0) [
          | yes on ↦ rw (handle_move-on s i j a k o p h lt on) (
            w,
            record {
              same_clients = refl;
              new_heap = refl;
              told = (_, inr (rw on at (verdict cells' ok'), refl), refl);
            },
          )
          | no over ↦ rw (handle_move-over s i j a k o p h lt over) (
            w,
            record {
              same_clients = refl;
              new_heap = refl;
              told = (_, inl (check_game_status cells', over, verdict cells' ok', refl), refl);
            },
          )
        ]

-- A move outside 1..9 of a player who has an opponent is undefined: the server does not check it.
pub handle_move_unchecked :
    (s : Server) (i j : ℕ) (move : ℤ)
    → IsValid s
    → (s.clients i).taken ≡ true
    → (s.clients i).opponent ≡ some j
    → cell_of move ≡ none
    → handle_move s i move ≡ none
unfolding handle_move
handle_move_unchecked s i j move v t o bad =
    let (a, p) = v.playing i j t o in
    let (cells, h, ok) = v.allocated i a p.mine in ground (arith, p)
