-- ===== src/Santa.antt =====
-- cw09/zad1/main.c: Santa, nine reindeers and ten elves, threads that share two counters under one
-- mutex. The shared variables are used only with the mutex held, so that the code between taking the
-- mutex and giving it up, by an unlock, a wait on a condition variable or the end of the thread, is
-- one step. A wait may return at any time, as the standard allows, so that signals and broadcasts
-- leave no trace.
pub mod Invariant
pub mod Safety
mod Tests
use agh_sys_opy.Prelude.{
  ℕ, suc, ◌<◌, ◌≡◌, Bool, true, false, ◌&&◌, ltb, not, ◌==◌, if◌then◌else◌, write_at,
}

abbrev pub reindeer_num : ℕ
reindeer_num = 9

abbrev pub elf_num : ℕ
elf_num = 10

abbrev pub elves_required : ℕ
elves_required = 3

abbrev pub santa_deliveries : ℕ
santa_deliveries = 3

-- Where Santa stands, with `deliveries`: before the inner loop or in its wait, in the sleep of a
-- delivery, in the sleep for the elves, or at the end.
pub data SantaThread : Type 0 where
  checking : (deliveries : ℕ) → SantaThread
  delivering : (deliveries : ℕ) → SantaThread
  helping : (deliveries : ℕ) → SantaThread
  ended : (deliveries : ℕ) → SantaThread

pub data Reindeer : Type 0 where
  away : Reindeer
  waiting : Reindeer

-- An elf that is counted is in its first wait, one that is helped in the loop behind it. One that
-- is kept out waits in the last loop.
pub data Elf : Type 0 where
  away : Elf
  counted : (index : ℕ) → Elf
  helped : (index : ℕ) → Elf
  kept_out : Elf

pub record System : Type 0 where
  pub locked : Bool
  pub reindeers : ℕ
  pub elves : ℕ
  pub elves_id : ℕ → ℕ
  pub santa : SantaThread
  pub reindeer : ℕ → Reindeer
  pub elf : ℕ → Elf

-- The outer loop of Santa, with the mutex given up.
abbrev pub next_round : ℕ → System → System
next_round deliveries s =
    if ltb deliveries santa_deliveries
    then record s { santa = checking deliveries }
    else record s { santa = ended deliveries }

-- Behind the delivery. At the end Santa keeps the mutex.
abbrev pub after_delivery : ℕ → System → System
after_delivery deliveries s =
    if deliveries == santa_deliveries
    then record s { locked = true; santa = ended deliveries }
    else if s.elves == elves_required
    then record s { santa = helping deliveries }
    else next_round deliveries s

abbrev pub santa_turn : System → SantaThread → System
santa_turn s (checking deliveries) =
    if ltb s.reindeers reindeer_num && ltb s.elves elves_required
    then s
    else if s.reindeers == reindeer_num
    then record s { santa = delivering deliveries }
    else after_delivery deliveries s
santa_turn s (delivering deliveries) = after_delivery (suc deliveries) (record s { reindeers = 0 })
santa_turn s (helping deliveries) = next_round deliveries (record s { elves = 0 })
santa_turn s (ended deliveries) = s

-- `while (reindeers > 0)`
abbrev pub reindeer_loop : ℕ → Reindeer
reindeer_loop reindeers = if ltb 0 reindeers then Reindeer.waiting else Reindeer.away

abbrev pub reindeer_turn : ℕ → System → Reindeer → System
reindeer_turn id s Reindeer.away = record s {
  reindeers = suc s.reindeers;
  reindeer = write_at id (reindeer_loop (suc s.reindeers)) s.reindeer;
}
reindeer_turn id s Reindeer.waiting = record s {
  reindeer = write_at id (reindeer_loop s.reindeers) s.reindeer;
}

abbrev pub set_elf : ℕ → Elf → System → System
set_elf id e s = record s { elf = write_at id e s.elf }

-- The last condition of the loop of an elf.
abbrev pub elf_last : ℕ → System → System
elf_last id s = if s.elves == elves_required then set_elf id kept_out s else set_elf id Elf.away s

abbrev pub elf_turn : ℕ → System → Elf → System
elf_turn id s Elf.away =
    if ltb s.elves elves_required
    then set_elf id (counted s.elves)
        (record s { elves = suc s.elves; elves_id = write_at s.elves id s.elves_id })
    else elf_last id s
elf_turn id s (counted index) =
    if (s.elves_id index == id) && ltb 0 s.elves then set_elf id (helped index) s else elf_last id s
elf_turn id s (helped index) = if ltb 0 s.elves then s else elf_last id s
elf_turn id s kept_out = if ltb 0 s.elves then s else set_elf id Elf.away s

-- A step of a thread that has taken the mutex.
pub data Step (s : System) : System → Type 0 where
  santa : s.locked ≡ false → Step s (santa_turn s s.santa)
  reindeer :
      (id : ℕ) → id < reindeer_num → s.locked ≡ false → Step s (reindeer_turn id s (s.reindeer id))
  elf : (id : ℕ) → id < elf_num → s.locked ≡ false → Step s (elf_turn id s (s.elf id))

abbrev pub initial : System
initial = record {
  locked = false;
  reindeers = 0;
  elves = 0;
  elves_id = λ _. 0;
  santa = checking 0;
  reindeer = λ _. Reindeer.away;
  elf = λ _. Elf.away;
}

pub data Reach : System → Type 0 where
  start : Reach initial
  later : {s s' : System} → Reach s → Step s s' → Reach s'
