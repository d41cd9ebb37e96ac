-- ===== src/Santa/Invariant.antt =====
-- How the two counters of cw09/zad1/main.c belong to the threads.
pub mod Santas
pub mod Reindeers
pub mod Elves
use agh_sys_opy.Prelude.{
  ℕ, zero, suc, ◌+◌, ◌<◌, ◌≤◌, ◌≡◌, ◌≢◌, refl, ◌⊎◌, inl, inr, Bool, true, false, ◌&&◌, ltb, ◌==◌,
  if◌then◌else◌, write_at, write_at_self, write_at_ne, sum_below, sum_below-write_at, arith, dec_lt,
  sym, subst, ◌∙◌, ap, sum_below-le, sum_below_constant, Bool-cases, ℕ_discrete,
}
use agh_sys_opy.Santa.{
  SantaThread, Reindeer, Elf, System, checking, delivering, helping, ended, counted, helped,
  kept_out, reindeer_num, elf_num, elves_required, santa_deliveries, next_round, after_delivery,
  santa_turn, reindeer_loop, reindeer_turn, set_elf, elf_last, elf_turn, Step, initial, Reach,
}

abbrev pub waits : Reindeer → ℕ
waits Reindeer.away = 0
waits Reindeer.waiting = 1

-- What Santa's place says of the counters and the mutex.
abbrev pub SantaOk : ℕ → ℕ → Bool → SantaThread → Type 0
SantaOk reindeers elves locked (checking d) = (d < santa_deliveries) × (locked ≡ false)
SantaOk reindeers elves locked (delivering d) =
    (d < santa_deliveries) × (locked ≡ false) × (reindeers ≡ reindeer_num)
SantaOk reindeers elves locked (helping d) =
    (d < santa_deliveries) × (locked ≡ false) × (elves ≡ elves_required)
SantaOk reindeers elves locked (ended d) = (d ≡ santa_deliveries) × (locked ≡ true)

-- The place of an elf that is in a group.
abbrev pub place : Elf → ℕ
place Elf.away = 0
place (counted index) = index
place (helped index) = index
place kept_out = 0

abbrev pub InGroup : ℕ → Elf → Type 0
InGroup i e = (e ≡ counted i) ⊎ (e ≡ helped i)

pub record IsValid (s : System) : Type 0 where
  pub reindeers_wait : s.reindeers ≤ sum_below waits reindeer_num s.reindeer
  pub elves_fit : s.elves ≤ elves_required
  pub places_fit : (id : ℕ) → place (s.elf id) < elves_required
  pub group : (i : ℕ) → i < s.elves → (s.elves_id i < elf_num) × InGroup i (s.elf (s.elves_id i))
  pub santa_ok : SantaOk s.reindeers s.elves s.locked s.santa
