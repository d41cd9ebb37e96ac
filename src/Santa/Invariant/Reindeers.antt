-- ===== src/Santa/Invariant/Reindeers.antt =====
-- A turn of a reindeer, start_routine_reindeer.
use agh_sys_opy.Prelude.{
  ℕ, suc, ◌+◌, ◌<◌, ◌≤◌, ◌≡◌, ◌≢◌, refl, inl, inr, Bool, true, ltb, write_at, sum_below,
  sum_below-write_at, arith, ap, sum_below-le, sum_below_constant, Bool-cases,
}
use agh_sys_opy.Santa.{
  SantaThread, Reindeer, System, checking, delivering, helping, ended, reindeer_num, reindeer_turn,
}
use agh_sys_opy.Santa.Invariant.{waits, SantaOk, IsValid}

-- There are no more that wait than there are reindeers.
pub waits-le : (n : ℕ) (f : ℕ → Reindeer) → sum_below waits n f ≤ n
waits-le n f = omega (
  arith,
  sum_below-le waits (λ r. 1) at_most_one n f,
  sum_below_constant (λ (r : Reindeer). 1) 1 n f (λ i h. refl),
)
  where
    at_most_one : (r : Reindeer) → waits r ≤ 1
    at_most_one r = ground arith

-- A counter that Santa does not wait for may change.
new_reindeer :
    (r r' e : ℕ) (l : Bool) (t : SantaThread)
    → r ≢ reindeer_num
    → SantaOk r e l t
    → SantaOk r' e l t
new_reindeer r r' e l (checking d) ne ok = ok
new_reindeer r r' e l (delivering d) ne (few, free, all) = absurd (ne all)
new_reindeer r r' e l (helping d) ne ok = ok
new_reindeer r r' e l (ended d) ne ok = ok

pub reindeer_turn-IsValid :
    (id : ℕ) (s : System)
    → id < reindeer_num
    → IsValid s
    → (r : Reindeer) → s.reindeer id ≡ r
    → IsValid (reindeer_turn id s r)
reindeer_turn-IsValid id s few v Reindeer.away at = rw positive (record {
  reindeers_wait = counted_in;
  elves_fit = v.elves_fit;
  places_fit = v.places_fit;
  group = v.group;
  santa_ok =
      new_reindeer s.reindeers (suc s.reindeers) s.elves s.locked s.santa
        (omega (arith, counted_in, waits-le reindeer_num after)) v.santa_ok;
})
  where
    positive : ltb 0 (suc s.reindeers) ≡ true
    positive = ground arith

    after : ℕ → Reindeer
    after = write_at id Reindeer.waiting s.reindeer

    moved :
        sum_below waits reindeer_num after + waits (s.reindeer id)
        ≡ sum_below waits reindeer_num s.reindeer + 1
    moved = sum_below-write_at waits reindeer_num id Reindeer.waiting s.reindeer few

    counted_in : suc s.reindeers ≤ sum_below waits reindeer_num after
    counted_in = omega (arith, moved, ap waits at, v.reindeers_wait)
reindeer_turn-IsValid id s few v Reindeer.waiting at = elim (Bool-cases (ltb 0 s.reindeers)) [
  | inl more ↦ rw more (record {
    reindeers_wait = still;
    elves_fit = v.elves_fit;
    places_fit = v.places_fit;
    group = v.group;
    santa_ok = v.santa_ok;
  })
  | inr none ↦ rw none (record {
    reindeers_wait = ground (arith, none);
    elves_fit = v.elves_fit;
    places_fit = v.places_fit;
    group = v.group;
    santa_ok = v.santa_ok;
  })
]
  where
    still : s.reindeers ≤ sum_below waits reindeer_num (write_at id Reindeer.waiting s.reindeer)
    still = omega (
      arith,
      sum_below-write_at waits reindeer_num id Reindeer.waiting s.reindeer few,
      ap waits at,
      v.reindeers_wait,
    )
