-- ===== src/Game/Server/Handlers/Shutdown.antt =====
-- What `handle_exit` does to the boards: each is freed once, and none is left.
use agh_sys_opy.Prelude.{
  ℕ, zero, suc, ◌+◌, ◌<◌, ◌≤◌, ◌≡◌, ◌≢◌, true, false, Option, none, some, arith, Option-cases,
  Bool-cases, inl, inr, Succeeds, Succeeds-weaken, Succeeds-bind, write_at, ◌∷◌, subst,
}
use agh_sys_opy.Game.Board.{Cells}
use agh_sys_opy.Game.Message.{max_players, Reply}
use agh_sys_opy.Game.Server.{Client, Server, write, close, call}
use agh_sys_opy.Game.Server.Handlers.{exit_client, exit_clients, handle_exit}
use agh_sys_opy.Game.Server.Invariant.{IsValid}

-- Player `k`, not yet visited, holds the board at `a` together with another such player.
record Holds (clients : ℕ → Client) (heap : ℕ → Option Cells) (i k a : ℕ) : Type 0 where
  partner : ℕ
  unvisited : i ≤ partner
  apart : k ≢ partner
  opponent : (clients k).opponent ≡ some partner
  partner_taken : (clients partner).taken ≡ true
  shared : (clients partner).board ≡ some a
  cells : Cells
  live : heap a ≡ some cells

-- The loop of `handle_exit` has visited the players below `i`.
record Visited (clients : ℕ → Client) (heap : ℕ → Option Cells) (i : ℕ) : Type 0 where
  in_table : (k : ℕ) → (clients k).taken ≡ true → k < max_players
  holds :
      (k a : ℕ)
      → i ≤ k
      → (clients k).taken ≡ true
      → (clients k).board ≡ some a
      → Holds clients heap i k a
  unshared :
      (k l a : ℕ)
      → i ≤ k
      → i ≤ l
      → (clients k).taken ≡ true
      → (clients l).taken ≡ true
      → (clients k).board ≡ some a
      → (clients l).board ≡ some a
      → k ≢ l
      → (clients k).opponent ≡ some l
  owned :
      (a : ℕ) (cells : Cells)
      → heap a ≡ some cells
      → (k : ℕ) × (i ≤ k) × ((clients k).taken ≡ true) × ((clients k).board ≡ some a)

IsValid-Visited : (s : Server) → IsValid s → Visited s.clients s.heap 0
IsValid-Visited s v = record {
  in_table = v.in_table;
  holds = λ k a h t b. elim (Option-cases (s.clients k).opponent) [
    | inl o ↦ absurd (ground (arith, v.alone k t o))
    | inr (j, o) ↦
        let (a', p) = v.playing k j t o in
        let (cells, here, ok) = v.allocated k a b in
        record {
          partner = j;
          unvisited = omega arith;
          apart = p.apart;
          opponent = o;
          partner_taken = p.other_taken;
          shared = ground (arith, p);
          cells = cells;
          live = here;
        }
  ];
  unshared = λ k l a h h' t t' b b' ne. v.unshared k l a b b' ne;
  owned = λ a c h. let (k, t, b) = v.owned a c h in (k, omega arith, t, b);
}

module _ (s : Server) (i : ℕ) (v : Visited s.clients s.heap i) where
  open v use {in_table, holds, unshared, owned}

  -- A player without a board is passed by.
  Visited-next :
      ((s.clients i).taken ≡ true → (s.clients i).board ≡ none) → Visited s.clients s.heap (suc i)
  Visited-next empty = record {
    in_table = in_table;
    holds = λ k a h t b.
        let q = holds k a (omega arith) t b in
        record {
          partner = q.partner;
          unvisited = ground (arith, q);
          apart = q.apart;
          opponent = q.opponent;
          partner_taken = q.partner_taken;
          shared = q.shared;
          cells = q.cells;
          live = q.live;
        };
    unshared = λ k l a h h' t t' b b' ne. unshared k l a (omega arith) (omega arith) t t' b b' ne;
    owned = λ a c h. let (k, le, t, b) = owned a c h in (k, ground arith, t, b);
  }

  -- The board at `a` is freed with its first holder, and taken from its second.
  abbrev freed : ℕ → ℕ → Server
  freed j a = record s {
    clients = write_at j (record (s.clients j) { board = none }) s.clients;
    heap = write_at a none s.heap;
    log = close (s.clients i).sockfd ∷ write (s.clients i).sockfd Reply.disconnect ∷ s.log;
  }

  Visited-freed :
      (j a : ℕ)
      → (s.clients i).taken ≡ true
      → (s.clients i).board ≡ some a
      → (s.clients i).opponent ≡ some j
      → i ≢ j
      → (s.clients j).taken ≡ true
      → i ≤ j
      → (s.clients j).board ≡ some a
      → Visited (freed j a).clients (freed j a).heap (suc i)
  Visited-freed j a t b o ne t' le b' = record {
    in_table = λ k u. ground (arith, in_table k);
    holds = λ k c h u d.
        let q : Holds s.clients s.heap i k c =
          holds k c (omega arith) (ground arith) (ground arith) in
        record {
          partner = q.partner;
          unvisited = ground (arith, q, unshared i k a);
          apart = q.apart;
          opponent = ground (arith, q);
          partner_taken = ground (arith, q);
          shared = ground (arith, q, unshared i k a);
          cells = q.cells;
          live = ground (arith, q, unshared i k a);
        };
    unshared = λ k l c h h' u u' d d' ne'. ground (arith, unshared k l c);
    owned = λ c cells h.
        let (k, le', u, d) = owned c cells (ground arith) in
        (k, ground arith, ground arith, ground arith);
  }

abbrev IsVisited : ℕ → Server → Type 0
IsVisited i s = Visited s.clients s.heap i

-- The three ways through the body of the loop.
exit_client_free : (s : Server) (i : ℕ) → (s.clients i).taken ≡ false → exit_client s i ≡ some s
unfolding exit_client
exit_client_free s i t = rw t

exit_client_waiting :
    (s : Server) (i : ℕ)
    → (s.clients i).taken ≡ true
    → (s.clients i).board ≡ none
    → exit_client s i
      ≡ some
          (call (close (s.clients i).sockfd) (call (write (s.clients i).sockfd Reply.disconnect) s))
unfolding exit_client
exit_client_waiting s i t b = ground arith

exit_client_playing :
    (s : Server) (i : ℕ) (v : IsVisited i s) (j a : ℕ) {cells : Cells}
    → (s.clients i).taken ≡ true
    → (s.clients i).board ≡ some a
    → (s.clients i).opponent ≡ some j
    → s.heap a ≡ some cells
    → exit_client s i ≡ some (freed s i v j a)
unfolding exit_client
exit_client_playing s i v j a t b o h = ground arith

exit_client-IsVisited :
    (s : Server) (i : ℕ) → IsVisited i s → Succeeds (IsVisited (suc i)) (exit_client s i)
exit_client-IsVisited s i v = elim (Bool-cases (s.clients i).taken) [
  | inr t ↦ rw (exit_client_free s i t) (Visited-next s i v (λ t'. ground arith))
  | inl t ↦ elim (Option-cases (s.clients i).board) [
    | inl b ↦ rw (exit_client_waiting s i t b) (Visited-next s i v (λ _. b))
    | inr (a, b) ↦
        let q = v.holds i a (omega arith) t b in
        rw (exit_client_playing s i v q.partner a t b q.opponent q.live) (
          Visited-freed s i v q.partner a t b q.opponent q.apart q.partner_taken q.unvisited
            q.shared)
  ]
]

exit_clients-IsVisited :
    (n i j : ℕ) (s : Server)
    → i + n ≡ j
    → IsVisited i s
    → Succeeds (IsVisited j) (exit_clients n i s)
unfolding exit_clients
exit_clients-IsVisited zero i j s e v =
    let e' : i ≡ j = omega arith in subst (λ k. IsVisited k s) e' v
exit_clients-IsVisited (suc n) i j s e v =
    Succeeds-bind (IsVisited j) (exit_client s i) (exit_clients n (suc i))
      (λ s1 w. exit_clients-IsVisited n (suc i) j s1 (omega arith) w) (exit_client-IsVisited s i v)

-- On a valid table `handle_exit` succeeds, frees no board twice, and leaves none allocated.
pub handle_exit_frees_all :
    (s : Server) → IsValid s → Succeeds (λ s'. (a : ℕ) → s'.heap a ≡ none) (handle_exit s)
unfolding handle_exit
handle_exit_frees_all s v =
    Succeeds-weaken (exit_clients max_players 0 s) none_left
      (exit_clients-IsVisited max_players 0 max_players s (omega arith) (IsValid-Visited s v))
  where
    none_left : (s' : Server) → IsVisited max_players s' → (a : ℕ) → s'.heap a ≡ none
    none_left s' w a = elim (Option-cases (s'.heap a)) [
      | inl e ↦ e
      | inr (cells, e) ↦
          let (k, le, t, b) = w.owned a cells e in absurd (omega (arith, w.in_table k t))
    ]
