-- ===== src/Santa/Invariant/Santas.antt =====
-- A turn of Santa, start_routine_santa.
use agh_sys_opy.Prelude.{
  ℕ, suc, ◌<◌, ◌≤◌, ◌≡◌, refl, inl, inr, Bool, true, false, ◌&&◌, ltb, ◌==◌, sum_below, arith,
  Bool-cases, ℕ_discrete,
}
use agh_sys_opy.Santa.{
  SantaThread, System, checking, delivering, helping, ended, reindeer_num, elf_num, elves_required,
  santa_deliveries, next_round, after_delivery, santa_turn,
}
use agh_sys_opy.Santa.Invariant.{waits, SantaOk, place, InGroup, IsValid}

-- What Santa's turns leave alone.
abbrev pub IsKept : System → Type 0
IsKept s =
    (s.reindeers ≤ sum_below waits reindeer_num s.reindeer)
    × (s.elves ≤ elves_required)
    × ((id : ℕ) → place (s.elf id) < elves_required)
    × ((i : ℕ) → i < s.elves → (s.elves_id i < elf_num) × InGroup i (s.elf (s.elves_id i)))

with_santa :
    (s : System) (locked : Bool) (t : SantaThread)
    → IsKept s
    → SantaOk s.reindeers s.elves locked t
    → IsValid (record s { locked = locked; santa = t })
with_santa s locked t (r, e, p, g) ok = record {
  reindeers_wait = r;
  elves_fit = e;
  places_fit = p;
  group = g;
  santa_ok = ok;
}

next_round-IsValid :
    (d : ℕ) (s : System)
    → IsKept s
    → d < santa_deliveries
    → s.locked ≡ false
    → IsValid (next_round d s)
next_round-IsValid d s kept few free =
    rw (less) (with_santa s s.locked (checking d) kept (few, free))
  where
    less : ltb d santa_deliveries ≡ true
    less = ground (arith, few)

after_delivery-IsValid :
    (d : ℕ) (s : System)
    → IsKept s
    → d ≤ santa_deliveries
    → s.locked ≡ false
    → IsValid (after_delivery d s)
after_delivery-IsValid d s kept few free = elim (ℕ_discrete d santa_deliveries) [
  | yes last ↦
      let t : (d == santa_deliveries) ≡ true = ground (arith, last) in
      rw t (with_santa s true (ended d) kept (last, refl))
  | no more ↦
      let t : (d == santa_deliveries) ≡ false = ground (arith, more) in
      elim (ℕ_discrete s.elves elves_required) [
        | yes full ↦
            let u : (s.elves == elves_required) ≡ true = ground (arith, full) in
            rw (t, u) (with_santa s s.locked (helping d) kept (omega arith, free, full))
        | no room ↦
            let u : (s.elves == elves_required) ≡ false = ground (arith, room) in
            rw (t, u) (next_round-IsValid d s kept (omega arith) free)
      ]
]

pub santa_turn-IsValid :
    (s : System) (t : SantaThread)
    → IsValid s
    → SantaOk s.reindeers s.elves s.locked t
    → s.locked ≡ false
    → IsValid (santa_turn s t)
santa_turn-IsValid s (checking d) v (few, _) free =
    elim (Bool-cases (ltb s.reindeers reindeer_num && ltb s.elves elves_required)) [
      | inl sleep ↦ rw sleep v
      | inr wake ↦ elim (Bool-cases (s.reindeers == reindeer_num)) [
        | inl all ↦
            rw (wake, all)
              (with_santa s s.locked (delivering d)
                (v.reindeers_wait, v.elves_fit, v.places_fit, v.group)
                (few, free, ground (arith, all)))
        | inr some_away ↦
            rw (wake, some_away)
              (after_delivery-IsValid d s (v.reindeers_wait, v.elves_fit, v.places_fit, v.group)
                (omega arith) free)
      ]
    ]
santa_turn-IsValid s (delivering d) v (few, _, all) free =
    after_delivery-IsValid (suc d) (record s { reindeers = 0 })
      (omega arith, v.elves_fit, v.places_fit, v.group) (omega arith) free
santa_turn-IsValid s (helping d) v (few, _, all) free =
    next_round-IsValid d (record s { elves = 0 })
      (v.reindeers_wait, omega arith, v.places_fit, λ i h. absurd (omega arith)) few free
santa_turn-IsValid s (ended d) v ok free = v
