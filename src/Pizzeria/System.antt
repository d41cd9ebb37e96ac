-- ===== src/Pizzeria/System.antt =====
-- Any number of cooks and deliverers of cw07/zad1, interleaved in any order: `make_pizza` of cook.c
-- and `deliver_pizza` of deliverer.c, one call of `semop` or one piece of code between two at a time.
pub mod Weights
pub mod Invariant
pub mod Safety
pub mod Progress
mod Tests
use agh_sys_opy.Prelude.{ℕ, ◌<◌, ◌≡◌, List, [], ◌∷◌, Option, none, some, write_at}
use agh_sys_opy.Pizzeria.Kitchen.{
  OvenTable, SemOp, down, up, semop, oven_used, oven_space, table_used, table_space, table_ready,
  find_free_oven, find_free_table, find_taken, put_in_oven, move_to_table, take_from_table,
  empty_kitchen, initial_sem,
}

-- Where a cook stands, with the locals `pizza_type` and `pizza_spot` that are live there.
-- `lost`: `find_free` gave -1, which the code uses as an index.
pub data Cook : Type 0 where
  preparing : Cook
  placing : (pizza : ℕ) → Cook
  placed : (pizza spot : ℕ) → Cook
  baking : (pizza spot : ℕ) → Cook
  moving : (pizza spot : ℕ) → Cook
  moved : Cook
  lost : Cook

pub data Deliverer : Type 0 where
  waiting : Deliverer
  taking : Deliverer
  taken : (pizza : ℕ) → Deliverer
  delivering : (pizza : ℕ) → Deliverer
  lost : Deliverer

pub record Shared : Type 0 where
  pub sem : ℕ → ℕ
  pub kitchen : OvenTable

-- `make_pizza`. `randrange(0, 9)` gives a number below 10.
pub data CookMove (s : Shared) : Cook → Shared → Cook → Type 0 where
  enter_oven :
      (pizza : ℕ) {sem : ℕ → ℕ}
      → pizza < 10
      → semop (down oven_used ∷ down oven_space ∷ []) s.sem ≡ some sem
      → CookMove s Cook.preparing (record s { sem = sem }) (Cook.placing pizza)
  place :
      {pizza spot : ℕ}
      → find_free_oven s.kitchen ≡ some spot
      → CookMove s
          (Cook.placing pizza)
          (record s { kitchen = put_in_oven spot pizza s.kitchen })
          (Cook.placed pizza spot)
  place_lost :
      {pizza : ℕ} → find_free_oven s.kitchen ≡ none → CookMove s (Cook.placing pizza) s Cook.lost
  leave_oven :
      {pizza spot : ℕ} {sem : ℕ → ℕ}
      → semop (up oven_used ∷ []) s.sem ≡ some sem
      → CookMove s (Cook.placed pizza spot) (record s { sem = sem }) (Cook.baking pizza spot)
  enter_both :
      {pizza spot : ℕ} {sem : ℕ → ℕ}
      → semop (down oven_used ∷ down table_used ∷ down table_space ∷ up table_ready ∷ []) s.sem
        ≡ some sem
      → CookMove s (Cook.baking pizza spot) (record s { sem = sem }) (Cook.moving pizza spot)
  move :
      {pizza spot place : ℕ}
      → find_free_table s.kitchen ≡ some place
      → CookMove s
          (Cook.moving pizza spot)
          (record s { kitchen = move_to_table spot place pizza s.kitchen })
          Cook.moved
  move_lost :
      {pizza spot : ℕ}
      → find_free_table s.kitchen ≡ none
      → CookMove s (Cook.moving pizza spot) s Cook.lost
  leave_both :
      {sem : ℕ → ℕ}
      → semop (up oven_used ∷ up oven_space ∷ up table_used ∷ []) s.sem ≡ some sem
      → CookMove s Cook.moved (record s { sem = sem }) Cook.preparing

-- `deliver_pizza`.
pub data DelivererMove (s : Shared) : Deliverer → Shared → Deliverer → Type 0 where
  enter_table :
      {sem : ℕ → ℕ}
      → semop (down table_used ∷ down table_ready ∷ []) s.sem ≡ some sem
      → DelivererMove s Deliverer.waiting (record s { sem = sem }) Deliverer.taking
  take :
      {place pizza : ℕ}
      → find_taken s.kitchen ≡ some place
      → s.kitchen.table place ≡ some pizza
      → DelivererMove s Deliverer.taking
          (record s { kitchen = take_from_table place s.kitchen })
          (Deliverer.taken pizza)
  take_lost : find_taken s.kitchen ≡ none → DelivererMove s Deliverer.taking s Deliverer.lost
  leave_table :
      {pizza : ℕ} {sem : ℕ → ℕ}
      → semop (up table_used ∷ up table_space ∷ []) s.sem ≡ some sem
      → DelivererMove s
          (Deliverer.taken pizza)
          (record s { sem = sem })
          (Deliverer.delivering pizza)
  deliver : {pizza : ℕ} → DelivererMove s (Deliverer.delivering pizza) s Deliverer.waiting

pub record System : Type 0 where
  pub shared : Shared
  pub cooks : ℕ → Cook
  pub deliverers : ℕ → Deliverer

-- One of `n` cooks or of `m` deliverers moves.
pub data Step (n m : ℕ) (s : System) : System → Type 0 where
  cook :
      (i : ℕ) {shared : Shared} {c : Cook}
      → i < n
      → CookMove s.shared (s.cooks i) shared c
      → Step n m s (record s { shared = shared; cooks = write_at i c s.cooks })
  deliverer :
      (i : ℕ) {shared : Shared} {d : Deliverer}
      → i < m
      → DelivererMove s.shared (s.deliverers i) shared d
      → Step n m s (record s { shared = shared; deliverers = write_at i d s.deliverers })

-- `main`: the shared memory and the semaphores are set up, and the processes start.
abbrev pub initial : System
initial = record {
  shared = record { sem = initial_sem; kitchen = empty_kitchen };
  cooks = λ _. Cook.preparing;
  deliverers = λ _. Deliverer.waiting;
}

pub data Reach (n m : ℕ) : System → Type 0 where
  start : Reach n m initial
  later : {s s' : System} → Reach n m s → Step n m s s' → Reach n m s'
