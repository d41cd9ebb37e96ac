-- ===== src/PosixPizzeria.antt =====
-- The pizzeria of cw07/zad2, over POSIX semaphores: any number of cooks and deliverers, interleaved
-- in any order. Each call of `sem_wait` or `sem_post` is a move of its own, and so is the code between
-- two calls. The calls that `|` joins are made from left to right.
pub mod Weights
pub mod Invariant
pub mod Safety
pub mod Progress
mod Tests
use agh_sys_opy.Prelude.{ℕ, ◌+◌, ◌-◌, ◌<◌, ◌≡◌, Option, none, some, write_at}
use agh_sys_opy.Pizzeria.Kitchen.{
  OvenTable, oven_used, oven_space, table_used, table_space, table_ready, find_free_oven,
  find_free_table, find_taken, put_in_oven, take_from_table, empty_kitchen, initial_sem,
}

-- Where a cook stands, with the locals `pizza_type` and `pizza_spot` that are live there.
-- `lost`: `find_free` gave -1, which the code uses as an index.
pub data Cook : Type 0 where
  preparing : Cook
  entering : (pizza : ℕ) → Cook
  placing : (pizza : ℕ) → Cook
  placed : (pizza spot : ℕ) → Cook
  baking : (pizza spot : ℕ) → Cook
  reaching : (pizza spot : ℕ) → Cook
  cleared : (pizza : ℕ) → Cook
  lifting : (pizza : ℕ) → Cook
  choosing : (pizza : ℕ) → Cook
  moving : (pizza : ℕ) → Cook
  moved : Cook
  announced : Cook
  leaving : Cook
  lost : Cook

pub data Deliverer : Type 0 where
  waiting : Deliverer
  approaching : Deliverer
  taking : Deliverer
  taken : (pizza : ℕ) → Deliverer
  stepping_back : (pizza : ℕ) → Deliverer
  delivering : (pizza : ℕ) → Deliverer
  lost : Deliverer

pub record Shared : Type 0 where
  pub sem : ℕ → ℕ
  pub kitchen : OvenTable

-- `sem_wait`, which returns where the value is above 0, and `sem_post`.
abbrev pub sem_wait : ℕ → Shared → Shared
sem_wait i s = record s { sem = write_at i (s.sem i - 1) s.sem }

abbrev pub sem_post : ℕ → Shared → Shared
sem_post i s = record s { sem = write_at i (s.sem i + 1) s.sem }

-- The pizza at `spot` leaves the oven.
abbrev pub take_from_oven : ℕ → OvenTable → OvenTable
take_from_oven spot k = record k { oven = write_at spot none k.oven; oven_quan = k.oven_quan - 1 }

-- A pizza goes onto the table, at a place.
abbrev pub put_on_table : ℕ → ℕ → OvenTable → OvenTable
put_on_table place pizza k = record k {
  table = write_at place (some pizza) k.table;
  table_quan = k.table_quan + 1;
}

abbrev pub with_kitchen : OvenTable → Shared → Shared
with_kitchen k s = record s { kitchen = k }

-- `make_pizza`. `randrange(0, 9)` gives a number below 10.
pub data CookMove (s : Shared) : Cook → Shared → Cook → Type 0 where
  wait_space :
      (pizza : ℕ)
      → pizza < 10
      → 0 < s.sem oven_space
      → CookMove s Cook.preparing (sem_wait oven_space s) (Cook.entering pizza)
  wait_oven :
      {pizza : ℕ}
      → 0 < s.sem oven_used
      → CookMove s (Cook.entering pizza) (sem_wait oven_used s) (Cook.placing pizza)
  place :
      {pizza spot : ℕ}
      → find_free_oven s.kitchen ≡ some spot
      → CookMove s
          (Cook.placing pizza)
          (with_kitchen (put_in_oven spot pizza s.kitchen) s)
          (Cook.placed pizza spot)
  place_lost :
      {pizza : ℕ} → find_free_oven s.kitchen ≡ none → CookMove s (Cook.placing pizza) s Cook.lost
  post_oven :
      {pizza spot : ℕ}
      → CookMove s (Cook.placed pizza spot) (sem_post oven_used s) (Cook.baking pizza spot)
  wait_oven_again :
      {pizza spot : ℕ}
      → 0 < s.sem oven_used
      → CookMove s (Cook.baking pizza spot) (sem_wait oven_used s) (Cook.reaching pizza spot)
  clear :
      {pizza spot : ℕ}
      → CookMove s
          (Cook.reaching pizza spot)
          (with_kitchen (take_from_oven spot s.kitchen) s)
          (Cook.cleared pizza)
  post_space :
      {pizza : ℕ} → CookMove s (Cook.cleared pizza) (sem_post oven_space s) (Cook.lifting pizza)
  wait_table_space :
      {pizza : ℕ}
      → 0 < s.sem table_space
      → CookMove s (Cook.lifting pizza) (sem_wait table_space s) (Cook.choosing pizza)
  wait_table :
      {pizza : ℕ}
      → 0 < s.sem table_used
      → CookMove s (Cook.choosing pizza) (sem_wait table_used s) (Cook.moving pizza)
  move :
      {pizza place : ℕ}
      → find_free_table s.kitchen ≡ some place
      → CookMove s
          (Cook.moving pizza)
          (with_kitchen (put_on_table place pizza s.kitchen) s)
          Cook.moved
  move_lost :
      {pizza : ℕ} → find_free_table s.kitchen ≡ none → CookMove s (Cook.moving pizza) s Cook.lost
  post_ready : CookMove s Cook.moved (sem_post table_ready s) Cook.announced
  post_oven_again : CookMove s Cook.announced (sem_post oven_used s) Cook.leaving
  post_table : CookMove s Cook.leaving (sem_post table_used s) Cook.preparing

-- `deliver_pizza`.
pub data DelivererMove (s : Shared) : Deliverer → Shared → Deliverer → Type 0 where
  wait_ready :
      0 < s.sem table_ready
      → DelivererMove s Deliverer.waiting (sem_wait table_ready s) Deliverer.approaching
  wait_table :
      0 < s.sem table_used
      → DelivererMove s Deliverer.approaching (sem_wait table_used s) Deliverer.taking
  take :
      {place pizza : ℕ}
      → find_taken s.kitchen ≡ some place
      → s.kitchen.table place ≡ some pizza
      → DelivererMove s Deliverer.taking
          (with_kitchen (take_from_table place s.kitchen) s)
          (Deliverer.taken pizza)
  take_lost : find_taken s.kitchen ≡ none → DelivererMove s Deliverer.taking s Deliverer.lost
  post_table_space :
      {pizza : ℕ}
      → DelivererMove s
          (Deliverer.taken pizza)
          (sem_post table_space s)
          (Deliverer.stepping_back pizza)
  post_table :
      {pizza : ℕ}
      → DelivererMove s
          (Deliverer.stepping_back pizza)
          (sem_post table_used s)
          (Deliverer.delivering pizza)
  deliver : {pizza : ℕ} → DelivererMove s (Deliverer.delivering pizza) s Deliverer.waiting

pub record System : Type 0 where
  pub shared : Shared
  pub cooks : ℕ → Cook
  pub deliverers : ℕ → Deliverer

-- One of `n` cooks or of `m` deliverers moves.
pub data Step (n m : ℕ) (s : System) : System → Type 0 where
  cook :
      (i : ℕ) {shared : Shared} {c : Cook}
      → i < n
      → CookMove s.shared (s.cooks i) shared c
      → Step n m s (record s { shared = shared; cooks = write_at i c s.cooks })
  deliverer :
      (i : ℕ) {shared : Shared} {d : Deliverer}
      → i < m
      → DelivererMove s.shared (s.deliverers i) shared d
      → Step n m s (record s { shared = shared; deliverers = write_at i d s.deliverers })

-- `main`: the shared memory and the semaphores are set up, and the processes start.
abbrev pub initial : System
initial = record {
  shared = record { sem = initial_sem; kitchen = empty_kitchen };
  cooks = λ _. Cook.preparing;
  deliverers = λ _. Deliverer.waiting;
}

pub data Reach (n m : ℕ) : System → Type 0 where
  start : Reach n m initial
  later : {s s' : System} → Reach n m s → Step n m s s' → Reach n m s'
