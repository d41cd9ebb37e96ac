-- ===== src/Santa/Safety.antt =====
-- What holds in every state that the threads of cw09/zad1/main.c reach.
use agh_sys_opy.Prelude.{
  ℕ, ◌<◌, ◌≤◌, ◌≡◌, refl, true, write_at, sum_below, sum_below-write_at, arith, sym, subst, ◌∙◌, ap,
}
use agh_sys_opy.Santa.{
  Reindeer, System, delivering, helping, ended, reindeer_num, elf_num, elves_required,
  santa_deliveries, Step, initial, Reach,
}
use agh_sys_opy.Santa.Invariant.{waits, SantaOk, place, InGroup, IsValid}
use agh_sys_opy.Santa.Invariant.Santas.{santa_turn-IsValid}
use agh_sys_opy.Santa.Invariant.Reindeers.{waits-le, reindeer_turn-IsValid}
use agh_sys_opy.Santa.Invariant.Elves.{group_place, elf_turn-IsValid}

initial-IsValid : IsValid initial
initial-IsValid = record {
  reindeers_wait = omega arith;
  elves_fit = omega arith;
  places_fit = λ id. omega arith;
  group = λ i h. absurd (omega arith);
  santa_ok = (omega arith, refl);
}

Step-IsValid : (s s' : System) → IsValid s → Step s s' → IsValid s'
Step-IsValid s _ v (Step.santa free) = santa_turn-IsValid s s.santa v v.santa_ok free
Step-IsValid s _ v (Step.reindeer id few free) =
    reindeer_turn-IsValid id s few v (s.reindeer id) refl
Step-IsValid s _ v (Step.elf id few free) = elf_turn-IsValid id s few v (s.elf id) refl

Reach-IsValid : (s : System) → Reach s → IsValid s
Reach-IsValid _ Reach.start = initial-IsValid
Reach-IsValid _ (Reach.later {s} {s'} reach step) = Step-IsValid s s' (Reach-IsValid s reach) step

-- A sum of ones that is full.
all_wait :
    (n : ℕ) (f : ℕ → Reindeer) → n ≤ sum_below waits n f → (i : ℕ) → i < n → f i ≡ Reindeer.waiting
all_wait n f full i h = go (f i) refl
  where
    go : (r : Reindeer) → f i ≡ r → r ≡ Reindeer.waiting
    go Reindeer.waiting at = refl
    go Reindeer.away at = absurd (
        omega (
          arith,
          full,
          ap waits at,
          waits-le n (write_at i Reindeer.waiting f),
          sum_below-write_at waits n i Reindeer.waiting f h,
        ))

-- In every state in which Santa delivers: it is one of the three deliveries, and all nine reindeers
-- wait.
pub deliver_together :
    (s : System) (d : ℕ)
    → Reach s
    → s.santa ≡ delivering d
    → (d < santa_deliveries) × ((id : ℕ) → id < reindeer_num → s.reindeer id ≡ Reindeer.waiting)
deliver_together s d reach at =
    let v = Reach-IsValid s reach in
    let ok = subst (SantaOk s.reindeers s.elves s.locked) at v.santa_ok in
    (ok.0, all_wait reindeer_num s.reindeer (omega (arith, v.reindeers_wait, ok.2)))

-- In every state in which Santa helps: the three numbers in `elves_id` are numbers of elves, no two
-- are the same, and the elf of each place waits at it.
pub help_three :
    (s : System) (d : ℕ)
    → Reach s
    → s.santa ≡ helping d
    → ((i : ℕ) → i < elves_required → (s.elves_id i < elf_num) × InGroup i (s.elf (s.elves_id i)))
      × ((i j : ℕ) → i < elves_required → j < elves_required → s.elves_id i ≡ s.elves_id j → i ≡ j)
help_three s d reach at = (members, apart)
  where
    v : IsValid s
    v = Reach-IsValid s reach

    full : s.elves ≡ elves_required
    full = (subst (SantaOk s.reindeers s.elves s.locked) at v.santa_ok).2

    members :
        (i : ℕ) → i < elves_required → (s.elves_id i < elf_num) × InGroup i (s.elf (s.elves_id i))
    members i h = v.group i (omega (arith, full))

    at_place : (i : ℕ) → i < elves_required → i ≡ place (s.elf (s.elves_id i))
    at_place i h = group_place i (s.elf (s.elves_id i)) (members i h).1

    apart :
        (i j : ℕ) → i < elves_required → j < elves_required → s.elves_id i ≡ s.elves_id j → i ≡ j
    apart i j hi hj e = at_place i hi ∙ ap (λ k. place (s.elf k)) e ∙ sym (at_place j hj)

-- In every state that is reached, no more reindeers are counted than there are, no more elves than
-- the array holds, and the place of every elf lies in the array.
pub counters_bounded :
    (s : System)
    → Reach s
    → (s.reindeers ≤ reindeer_num)
      × (s.elves ≤ elves_required)
      × ((id : ℕ) → place (s.elf id) < elves_required)
counters_bounded s reach =
    let v = Reach-IsValid s reach in
    (omega (arith, v.reindeers_wait, waits-le reindeer_num s.reindeer), v.elves_fit, v.places_fit)

-- Where Santa has ended, there were three deliveries, Santa still holds the mutex, and no thread can
-- take it any more.
pub ends_locked :
    (s : System) (d : ℕ)
    → Reach s
    → s.santa ≡ ended d
    → (d ≡ santa_deliveries) × (s.locked ≡ true) × ((s' : System) → Step s s' → ⊥)
ends_locked s d reach at = (ok.0, ok.1, λ s' step. stuck s s' ok.1 step)
  where
    ok : (d ≡ santa_deliveries) × (s.locked ≡ true)
    ok = subst (SantaOk s.reindeers s.elves s.locked) at (Reach-IsValid s reach).santa_ok

    stuck : (s s' : System) → s.locked ≡ true → Step s s' → ⊥
    stuck s _ locked (Step.santa free) = cc
    stuck s _ locked (Step.reindeer id few free) = cc
    stuck s _ locked (Step.elf id few free) = cc
