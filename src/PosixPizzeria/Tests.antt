-- ===== src/PosixPizzeria/Tests.antt =====
-- A cook bakes one pizza and a deliverer comes to take it: cw07/zad2 with two cooks and one deliverer.
use agh_sys_opy.Prelude.{ℕ, ◌+◌, ◌<◌, ◌≤◌, ◌≡◌, ◌≢◌, refl, arith, find_from, sum_below}
use agh_sys_opy.Pizzeria.Kitchen.{find_free_oven, find_free_table, oven_size, table_size}
use agh_sys_opy.Pizzeria.Kitchen.Spots.{filled}
use agh_sys_opy.PosixPizzeria.{
  Cook, CookMove, Deliverer, System, Step, cook, deliverer, Reach, start, later, wait_space,
  wait_oven, place, post_oven, wait_oven_again, clear, post_space, wait_table_space, move,
  post_ready, wait_ready,
}
use agh_sys_opy.PosixPizzeria.Weights.{at_oven, at_table, holds_table}
use agh_sys_opy.PosixPizzeria.Safety.{searches_succeed, one_at_a_time}
use agh_sys_opy.PosixPizzeria.Progress.{someone_moves}

-- A reachable state, with its run.
record Run : Type 0 where
  last : System
  reach : Reach 2 1 last

-- The first cook has chosen pizza 7 and put it into the oven, at spot 0; the second one has chosen
-- pizza 4.
abbrev baked : Run
unfolding find_free_oven find_from
baked = record {
  last = _;
  reach =
      later
        (later
          (later
            (later (later start (cook 0 (omega arith) (wait_space 7 (omega arith) (omega arith))))
              (cook 1 (omega arith) (wait_space 4 (omega arith) (omega arith))))
            (cook 0 (omega arith) (wait_oven (omega arith))))
          (cook 0 (omega arith) (place {spot = 0} refl)))
        (cook 0 (omega arith) post_oven);
}

-- The first cook has the oven and the table, and its pizza is still in its hands.
abbrev lifted : Run
unfolding find_free_oven find_from
lifted = record {
  last = _;
  reach =
      later
        (later
          (later
            (later (later baked.reach (cook 0 (omega arith) (wait_oven_again (omega arith))))
              (cook 0 (omega arith) clear))
            (cook 0 (omega arith) post_space))
          (cook 0 (omega arith) (wait_table_space (omega arith))))
        (cook 0 (omega arith) (CookMove.wait_table (omega arith)));
}

-- The pizza is on the table, and the deliverer has heard of it.
abbrev served : Run
unfolding find_free_oven find_free_table find_from
served = record {
  last = _;
  reach =
      later
        (later (later lifted.reach (cook 0 (omega arith) (move {place = 0} refl)))
          (cook 0 (omega arith) post_ready))
        (deliverer 0 (omega arith) (wait_ready (omega arith)));
}

served_counts :
    (baked.last.shared.kitchen.oven_quan ≡ 1)
    × (served.last.shared.kitchen.oven_quan ≡ 0)
    × (served.last.shared.kitchen.table_quan ≡ 1)
unfolding find_free_oven find_free_table find_from
served_counts = (refl, refl, refl)

searches_succeed_example :
    ((i : ℕ) → (served.last.cooks i ≢ Cook.lost) × (served.last.deliverers i ≢ Deliverer.lost))
    × (served.last.shared.kitchen.oven_quan
        ≡ sum_below filled oven_size served.last.shared.kitchen.oven)
    × (served.last.shared.kitchen.oven_quan ≤ oven_size)
    × (served.last.shared.kitchen.table_quan
        ≡ sum_below filled table_size served.last.shared.kitchen.table)
    × (served.last.shared.kitchen.table_quan ≤ table_size)
searches_succeed_example = searches_succeed served.reach

one_at_a_time_example :
    ((i j : ℕ)
      → i < 2
      → j < 2
      → i ≢ j
      → at_oven (lifted.last.cooks i) + at_oven (lifted.last.cooks j) ≤ 1)
    × ((i j : ℕ)
        → i < 2
        → j < 2
        → i ≢ j
        → at_table (lifted.last.cooks i) + at_table (lifted.last.cooks j) ≤ 1)
    × ((i j : ℕ)
        → i < 2
        → j < 1
        → at_table (lifted.last.cooks i) + holds_table (lifted.last.deliverers j) ≤ 1)
    × ((i j : ℕ)
        → i < 1
        → j < 1
        → i ≢ j
        → holds_table (lifted.last.deliverers i) + holds_table (lifted.last.deliverers j) ≤ 1)
one_at_a_time_example = one_at_a_time lifted.reach

someone_moves_example : (s' : System) × Step 2 1 served.last s'
someone_moves_example = someone_moves (omega arith) (omega arith) served.reach
