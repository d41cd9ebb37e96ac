-- ===== src/Game/Server/Invariant.antt =====
-- Which players are paired, which boards are allocated: true at the start, kept by every handler.
use agh_sys_opy.Prelude.{
  ℕ, ◌<◌, ◌≤◌, ◌≡◌, ◌≢◌, ◌⊎◌, refl, true, false, Option, none, some, arith, Bool-cases, write_at,
  List, ℕ_discrete, inl,
}
use agh_sys_opy.Game.Board.{Cells, blank, symbol_1, symbol_2}
use agh_sys_opy.Game.Message.{max_players}
use agh_sys_opy.Game.Server.{
  Client, Server, creat_clients, paired, registered, set_client, empty_board,
}

-- Player `i` plays `j` on the board at `a`.
pub record Plays (clients : ℕ → Client) (i j a : ℕ) : Type 0 where
  pub apart : i ≢ j
  pub other_taken : (clients j).taken ≡ true
  pub back : (clients j).opponent ≡ some i
  pub mine : (clients i).board ≡ some a
  pub shared : (clients j).board ≡ some a
  pub symbols :
      (((clients i).symbol ≡ symbol_1) × ((clients j).symbol ≡ symbol_2))
      ⊎ (((clients i).symbol ≡ symbol_2) × ((clients j).symbol ≡ symbol_1))

abbrev pub IsCell : ℕ → Type 0
IsCell c = (c ≡ blank) ⊎ (c ≡ symbol_1) ⊎ (c ≡ symbol_2)

-- An allocated board, with a symbol or a blank in each cell.
abbrev pub IsBoard : Option Cells → Type 0
IsBoard b = (cells : Cells) × (b ≡ some cells) × ((k : ℕ) → IsCell (cells k))

pub record Inv (clients : ℕ → Client) (heap : ℕ → Option Cells) (next : ℕ) : Type 0 where
  pub in_table : (i : ℕ) → (clients i).taken ≡ true → i < max_players
  pub idle : (i : ℕ) → (clients i).taken ≡ false → (clients i).board ≡ none
  pub alone :
      (i : ℕ) → (clients i).taken ≡ true → (clients i).opponent ≡ none → (clients i).board ≡ none
  pub playing :
      (i j : ℕ)
      → (clients i).taken ≡ true
      → (clients i).opponent ≡ some j
      → (a : ℕ) × Plays clients i j a
  pub allocated : (i a : ℕ) → (clients i).board ≡ some a → IsBoard (heap a)
  pub unshared :
      (i j a : ℕ)
      → (clients i).board ≡ some a
      → (clients j).board ≡ some a
      → i ≢ j
      → (clients i).opponent ≡ some j
  pub owned :
      (a : ℕ) (cells : Cells)
      → heap a ≡ some cells
      → (i : ℕ) × ((clients i).taken ≡ true) × ((clients i).board ≡ some a)
  pub fresh : (a : ℕ) → next ≤ a → heap a ≡ none
  pub names :
      (i j : ℕ)
      → (clients i).taken ≡ true
      → (clients j).taken ≡ true
      → (clients i).name ≡ (clients j).name
      → i ≡ j

abbrev pub IsValid : Server → Type 0
IsValid s = Inv s.clients s.heap s.next

pub creat_clients-IsValid : IsValid creat_clients
creat_clients-IsValid = record {
  in_table = λ i t. cc;
  idle = λ i t. refl;
  alone = λ i t o. refl;
  playing = λ i j t. cc;
  allocated = λ i a b. cc;
  unshared = λ i j a b. cc;
  owned = λ a cells. cc;
  fresh = λ a h. refl;
  names = λ i j t. cc;
}

module _ (s : Server) (v : IsValid s) where
  open v use {in_table, idle, alone, playing, allocated, unshared, owned, fresh, names}

  -- A free slot takes a player whose name no other player has.
  pub registered-IsValid :
      (sockfd : ℕ) (name : List ℕ) (n : ℕ)
      → n < max_players
      → (s.clients n).taken ≡ false
      → ((i : ℕ) → (s.clients i).taken ≡ true → (s.clients i).name ≢ name)
      → IsValid (set_client n (registered s sockfd name n) s)
  registered-IsValid sockfd name n lt free new = record {
    in_table = λ i t. ground (arith, in_table i);
    idle = λ i t. ground (arith, idle i);
    alone = λ i t o. ground (arith, alone i, idle n);
    playing = λ i j t o. elim (ℕ_discrete n i) [
      | yes e ↦ absurd (ground arith)
      | no ne ↦ let (a, p) = playing i j (ground arith) (ground arith) in (a, ground (arith, p))
    ];
    allocated = λ i a b. ground (arith, allocated i a);
    unshared = λ i j a b c d. ground (arith, unshared i j a, idle n);
    owned = λ a c h. let (i, t, b) = owned a c h in (i, ground arith, ground arith);
    fresh = fresh;
    names = λ i j t u e. ground (arith, names i j, new i, new j);
  }

  -- Two players who wait are paired over a new board.
  pub paired-IsValid :
      (id i : ℕ)
      → id ≢ i
      → (s.clients id).taken ≡ true
      → (s.clients i).taken ≡ true
      → (s.clients id).opponent ≡ none
      → (s.clients i).opponent ≡ none
      → IsValid (paired s id i)
  paired-IsValid id i ne tk tk' o o' = record {
    in_table = λ j t. ground (arith, in_table j, in_table id, in_table i);
    idle = λ j t. ground (arith, idle j);
    alone = λ j t e. ground (arith, alone j);
    playing = λ j k t e. elim (ℕ_discrete i j) [
      | yes this ↦ (s.next, ground arith)
      | no ni ↦ elim (ℕ_discrete id j) [
        | yes that ↦ (s.next, ground arith)
        | no nid ↦ let (a, p) = playing j k (ground arith) (ground arith) in (a, ground (arith, p))
      ]
    ];
    allocated = λ j a b. elim (ℕ_discrete s.next a) [
      | yes new ↦ (empty_board, ground arith, λ k. inl refl)
      | no old ↦ let (cells, here, ok) = allocated j a (ground arith) in (cells, ground arith, ok)
    ];
    unshared = λ j k a b c d. ground (arith, unshared j k a, allocated j a, allocated k a, fresh a);
    owned = λ a c h. elim (ℕ_discrete s.next a) [
      | yes new ↦ (id, ground arith, ground arith)
      | no old ↦
          let (k, t, b) = owned a c (ground arith) in
          (k, ground (arith, alone id, alone i), ground (arith, alone id, alone i))
    ];
    fresh = λ a h. ground (arith, fresh a);
    names = λ j k t u e. ground (arith, names j k);
  }

  -- Each of two opponents may lose the other: their board is freed.
  pub parted-IsValid :
      (id j a : ℕ)
      → (s.clients id).taken ≡ true
      → (s.clients id).opponent ≡ some j
      → Plays s.clients id j a
      → Inv
          (write_at j
            (record (s.clients j) { opponent = none; board = none })
            (write_at id
              (record (s.clients id) { taken = false; opponent = none; board = none })
              s.clients))
          (write_at a none s.heap)
          s.next
  parted-IsValid id j a t o p = record {
    in_table = λ k u. ground (arith, in_table k, in_table j, p);
    idle = λ k u. ground (arith, idle k);
    alone = λ k u e. ground (arith, alone k);
    playing = λ k l u e.
        let (b, q) = playing k l (ground arith) (ground arith) in (b, ground (arith, q, p));
    allocated = λ k b c. elim (ℕ_discrete a b) [
      | yes same ↦
          absurd (
            ground
              (arith, p, idle k, unshared k id a, playing k id, Bool-cases (s.clients k).taken))
      | no ne ↦ let (cells, here, ok) = allocated k b (ground arith) in (cells, ground arith, ok)
    ];
    unshared = λ k l b c d e. ground (arith, unshared k l b);
    owned = λ b c h.
        let (k, t', e) = owned b c (ground arith) in (k, ground (arith, p), ground (arith, p));
    fresh = λ b h. ground (arith, fresh b);
    names = λ k l u w e. ground (arith, names k l);
  }

  -- A symbol or a blank is written on an allocated board.
  pub written-IsValid :
      (a : ℕ) (cells : Cells) {old : Cells}
      → s.heap a ≡ some old
      → ((k : ℕ) → IsCell (cells k))
      → IsValid (record s { heap = write_at a (some cells) s.heap })
  written-IsValid a cells h ok = record {
    in_table = in_table;
    idle = idle;
    alone = alone;
    playing = playing;
    allocated = λ k b c. elim (ℕ_discrete a b) [
      | yes same ↦ (cells, ground arith, ok)
      | no ne ↦ let (other, here, fine) = allocated k b c in (other, ground arith, fine)
    ];
    unshared = unshared;
    owned = λ b c e. elim (ℕ_discrete a b) [
      | yes same ↦ let (k, t, own) = owned a _ h in (k, t, ground arith)
      | no ne ↦ owned b c (ground arith)
    ];
    fresh = λ b le. ground (arith, fresh b);
    names = names;
  }
