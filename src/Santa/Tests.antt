-- ===== src/Santa/Tests.antt =====
-- Some runs of the threads of cw09/zad1/main.c.
use agh_sys_opy.Prelude.{ℕ, ◌<◌, ◌≡◌, refl, Bool, true, ◌&&◌, not, List, [], ◌∷◌, ◌++◌, ltb, arith}
use agh_sys_opy.Santa.{
  Reindeer, System, reindeer_num, elf_num, elves_required, santa_deliveries, santa_turn,
  reindeer_turn, elf_turn, Step, initial, Reach,
}
use agh_sys_opy.Santa.Invariant.{InGroup}
use agh_sys_opy.Santa.Safety.{deliver_together, help_three}

data Thread : Type 0 where
  santa : Thread
  reindeer : ℕ → Thread
  elf : ℕ → Thread

abbrev turn : Thread → System → System
turn Thread.santa s = santa_turn s s.santa
turn (Thread.reindeer id) s = reindeer_turn id s (s.reindeer id)
turn (Thread.elf id) s = elf_turn id s (s.elf id)

abbrev may_step : Thread → System → Bool
may_step Thread.santa s = not s.locked
may_step (Thread.reindeer id) s = not s.locked && ltb id reindeer_num
may_step (Thread.elf id) s = not s.locked && ltb id elf_num

turn-Step : (t : Thread) (s : System) → may_step t s ≡ true → Step s (turn t s)
turn-Step Thread.santa s h = Step.santa (ground (arith, h))
turn-Step (Thread.reindeer id) s h = Step.reindeer id (ground (arith, h)) (ground (arith, h))
turn-Step (Thread.elf id) s h = Step.elf id (ground (arith, h)) (ground (arith, h))

take_turns : List Thread → System → System
take_turns [] s = s
take_turns (t ∷ ts) s = take_turns ts (turn t s)

may_take : List Thread → System → Bool
may_take [] s = true
may_take (t ∷ ts) s = may_step t s && may_take ts (turn t s)

take_turns-Reach :
    (ts : List Thread) (s : System) → Reach s → may_take ts s ≡ true → Reach (take_turns ts s)
unfolding take_turns may_take
take_turns-Reach [] s reach h = reach
take_turns-Reach (t ∷ ts) s reach h =
    take_turns-Reach ts (turn t s) (Reach.later reach (turn-Step t s (ground (arith, h))))
      (ground (arith, h))

abbrev each_reindeer : List Thread
each_reindeer =
    Thread.reindeer 0
    ∷ Thread.reindeer 1
    ∷ Thread.reindeer 2
    ∷ Thread.reindeer 3
    ∷ Thread.reindeer 4
    ∷ Thread.reindeer 5
    ∷ Thread.reindeer 6
    ∷ Thread.reindeer 7
    ∷ Thread.reindeer 8
    ∷ []

abbrev three_elves : List Thread
three_elves = Thread.elf 4 ∷ Thread.elf 2 ∷ Thread.elf 7 ∷ Thread.santa ∷ []

-- The reindeers arrive, and Santa wakes up and delivers.
abbrev to_delivery : List Thread
to_delivery = each_reindeer ++ (Thread.santa ∷ [])

abbrev delivery : List Thread
delivery = to_delivery ++ (Thread.santa ∷ each_reindeer)

abbrev all_deliveries : List Thread
all_deliveries = delivery ++ (delivery ++ (to_delivery ++ (Thread.santa ∷ [])))

deliver_together_example :
    (0 < santa_deliveries)
    × ((id : ℕ)
        → id < reindeer_num
        → (take_turns to_delivery initial).reindeer id ≡ Reindeer.waiting)
unfolding take_turns may_take
deliver_together_example =
    deliver_together (take_turns to_delivery initial) 0
      (take_turns-Reach to_delivery initial Reach.start refl) refl

help_three_example :
    ((i : ℕ)
      → i < elves_required
      → ((take_turns three_elves initial).elves_id i < elf_num)
        × InGroup i
            ((take_turns three_elves initial).elf ((take_turns three_elves initial).elves_id i)))
    × ((i j : ℕ)
        → i < elves_required
        → j < elves_required
        → (take_turns three_elves initial).elves_id i ≡ (take_turns three_elves initial).elves_id j
        → i ≡ j)
unfolding take_turns may_take
help_three_example =
    help_three (take_turns three_elves initial) 0
      (take_turns-Reach three_elves initial Reach.start refl) refl
