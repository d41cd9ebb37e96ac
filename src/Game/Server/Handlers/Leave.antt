-- ===== src/Game/Server/Handlers/Leave.antt =====
-- What `handle_disconnect` does: it unpairs both players. For a player who waits it is undefined.
use agh_sys_opy.Prelude.{
  ℕ, ◌≡◌, ◌≢◌, true, false, none, some, arith, Option-cases, Bool-cases, inl, inr, Succeeds, Yields,
  Succeeds-Yields, ◌∷◌, write_at,
}
use agh_sys_opy.Game.Board.{Cells}
use agh_sys_opy.Game.Message.{Reply}
use agh_sys_opy.Game.Server.{Server, write, lock, unlock, epoll_del, close, client}
use agh_sys_opy.Game.Server.Handlers.{handle_disconnect}
use agh_sys_opy.Game.Server.Invariant.{IsValid, Plays, parted-IsValid}

-- The state after a player who has an opponent leaves.
abbrev parted : Server → ℕ → ℕ → ℕ → Server
parted s id j a =
    let me = s.clients id in
    let other = s.clients j in
    record s {
      clients =
          write_at j (record other { opponent = none; board = none })
            (write_at id (record me { taken = false; opponent = none; board = none }) s.clients);
      heap = write_at a none s.heap;
      log =
          unlock (client (some j))
          ∷ close me.sockfd
          ∷ epoll_del me.sockfd
          ∷ write other.sockfd Reply.op_left
          ∷ lock (client (some j))
          ∷ s.log;
    }

handle_disconnect_alone :
    (s : Server) (id : ℕ)
    → (s.clients id).taken ≡ true
    → (s.clients id).opponent ≡ none
    → handle_disconnect s id ≡ none
unfolding handle_disconnect
handle_disconnect_alone s id t o = ground arith

pub handle_disconnect_paired :
    (s : Server) (id j a : ℕ) {cells : Cells}
    → (s.clients id).taken ≡ true
    → (s.clients id).opponent ≡ some j
    → Plays s.clients id j a
    → s.heap a ≡ some cells
    → handle_disconnect s id ≡ some (parted s id j a)
unfolding handle_disconnect
handle_disconnect_paired s id j a t o p h = ground (arith, p)

-- What a player's departure leaves: the slot is free, an opponent waits with no board, the other
-- players have kept what they had.
pub record HasLeft (s : Server) (id : ℕ) (s' : Server) : Type 0 where
  pub free : (s'.clients id).taken ≡ false
  pub no_board : (s'.clients id).board ≡ none
  pub opponent_waits :
      (j : ℕ)
      → (s.clients id).opponent ≡ some j
      → ((s'.clients j).opponent ≡ none) × ((s'.clients j).board ≡ none)
  pub freed : (a : ℕ) → (s.clients id).board ≡ some a → s'.heap a ≡ none
  pub others : (k : ℕ) → k ≢ id → (s.clients id).opponent ≢ some k → s'.clients k ≡ s.clients k

parted-HasLeft :
    (s : Server) (id j a : ℕ)
    → (s.clients id).opponent ≡ some j
    → Plays s.clients id j a
    → HasLeft s id (parted s id j a)
parted-HasLeft s id j a o p = record {
  free = ground (arith, p);
  no_board = ground (arith, p);
  opponent_waits = λ k e. ground (arith, p);
  freed = λ b e. ground (arith, p);
  others = λ k ne no. ground (arith, p);
}

-- On a valid table the departure of a player who has an opponent succeeds: it keeps the table valid,
-- frees the slot and the board, leaves the opponent waiting with no board, and changes no other
-- player.
pub handle_disconnect-HasLeft :
    (s : Server) (id j : ℕ)
    → IsValid s
    → (s.clients id).taken ≡ true
    → (s.clients id).opponent ≡ some j
    → Succeeds (λ s'. IsValid s' × HasLeft s id s') (handle_disconnect s id)
handle_disconnect-HasLeft s id j v t o =
    let (a, p) = v.playing id j t o in
    let (cells, h, ok) = v.allocated id a p.mine in
    rw (handle_disconnect_paired s id j a t o p h)
      (parted-IsValid s v id j a t o p, parted-HasLeft s id j a o p)

-- Nothing happens at a free slot.
handle_disconnect_free :
    (s : Server) (id : ℕ) → (s.clients id).taken ≡ false → handle_disconnect s id ≡ some s
unfolding handle_disconnect
handle_disconnect_free s id t = rw t

-- At any index, where `handle_disconnect` is defined on a valid table, it keeps it valid.
pub handle_disconnect-IsValid :
    (s : Server) (id : ℕ) → IsValid s → Yields IsValid (handle_disconnect s id)
handle_disconnect-IsValid s id v = elim (Bool-cases (s.clients id).taken) [
  | inr t ↦ rw (handle_disconnect_free s id t) v
  | inl t ↦ elim (Option-cases (s.clients id).opponent) [
    | inl o ↦ rw (handle_disconnect_alone s id t o) tt
    | inr (j, o) ↦
        Succeeds-Yields (handle_disconnect s id) (λ s' h. h.0)
          (handle_disconnect-HasLeft s id j v t o)
  ]
]
