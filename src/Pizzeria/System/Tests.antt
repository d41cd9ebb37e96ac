-- ===== src/Pizzeria/System/Tests.antt =====
-- A cook bakes one pizza and a deliverer takes it: cw07/zad1 with one process of each kind.
use agh_sys_opy.Prelude.{ℕ, ◌+◌, ◌<◌, ◌≤◌, ◌≡◌, ◌≢◌, refl, some, arith, find_from, sum_below}
use agh_sys_opy.Pizzeria.Kitchen.{semop, find_free_oven, find_free_table, oven_size, table_size}
use agh_sys_opy.Pizzeria.Kitchen.Spots.{filled}
use agh_sys_opy.Pizzeria.System.{
  Cook, Deliverer, System, Step, cook, deliverer, Reach, start, later, enter_oven, place,
  leave_oven, enter_both, move, leave_both, enter_table,
}
use agh_sys_opy.Pizzeria.System.Weights.{at_oven, at_table, holds_table}
use agh_sys_opy.Pizzeria.System.Invariant.{spot_of}
use agh_sys_opy.Pizzeria.System.Safety.{mutual_exclusion, counters_exact, pizza_kept}
use agh_sys_opy.Pizzeria.System.Progress.{no_deadlock}

-- A reachable state, with its run.
record Run : Type 0 where
  last : System
  reach : Reach 2 1 last

-- The first cook has chosen pizza 7 and entered the oven's critical section.
abbrev entered : Run
unfolding semop
entered = record {
  last = _;
  reach = later start (cook 0 (omega arith) (enter_oven 7 (omega arith) refl));
}

-- The pizza is in the oven, at spot 0, and the cook has left.
abbrev baked : Run
unfolding semop find_free_oven find_from
baked = record {
  last = _;
  reach =
      later (later entered.reach (cook 0 (omega arith) (place {spot = 0} refl)))
        (cook 0 (omega arith) (leave_oven refl));
}

-- The cook is at the oven and at the table, about to move the pizza.
abbrev moving : Run
unfolding semop find_free_oven find_from
moving = record { last = _; reach = later baked.reach (cook 0 (omega arith) (enter_both refl)) }

-- The cook has moved the pizza and left; the deliverer is at the table.
abbrev served : Run
unfolding semop find_free_oven find_free_table find_from
served = record {
  last = _;
  reach =
      later
        (later (later moving.reach (cook 0 (omega arith) (move {place = 0} refl)))
          (cook 0 (omega arith) (leave_both refl)))
        (deliverer 0 (omega arith) (enter_table refl));
}

served_counts :
    (baked.last.shared.kitchen.oven_quan ≡ 1)
    × (served.last.shared.kitchen.oven_quan ≡ 0)
    × (served.last.shared.kitchen.table_quan ≡ 1)
unfolding semop find_free_oven find_free_table find_from
served_counts = (refl, refl, refl)

mutual_exclusion_example :
    ((i j : ℕ)
      → i < 2
      → j < 2
      → at_oven (served.last.cooks i) ≡ 1
      → at_oven (served.last.cooks j) ≡ 1
      → i ≡ j)
    × ((i j : ℕ)
        → i < 2
        → j < 1
        → at_table (served.last.cooks i) + holds_table (served.last.deliverers j) ≤ 1)
    × ((i j : ℕ)
        → i < 2
        → j < 2
        → i ≢ j
        → at_table (served.last.cooks i) + at_table (served.last.cooks j) ≤ 1)
    × ((i j : ℕ)
        → i < 1
        → j < 1
        → i ≢ j
        → holds_table (served.last.deliverers i) + holds_table (served.last.deliverers j) ≤ 1)
mutual_exclusion_example = mutual_exclusion served.reach

counters_exact_example :
    ((i : ℕ) → (served.last.cooks i ≢ Cook.lost) × (served.last.deliverers i ≢ Deliverer.lost))
    × (served.last.shared.kitchen.oven_quan
        ≡ sum_below filled oven_size served.last.shared.kitchen.oven)
    × (served.last.shared.kitchen.oven_quan ≤ oven_size)
    × (served.last.shared.kitchen.table_quan
        ≡ sum_below filled table_size served.last.shared.kitchen.table)
    × (served.last.shared.kitchen.table_quan ≤ table_size)
counters_exact_example = counters_exact served.reach

pizza_kept_example :
    (0 < oven_size)
    × (baked.last.shared.kitchen.oven 0 ≡ some 7)
    × ((j other : ℕ) → spot_of (baked.last.cooks j) ≡ some (other, 0) → 0 ≡ j)
unfolding semop find_free_oven find_from
pizza_kept_example = pizza_kept baked.reach 0 7 0 refl

no_deadlock_example : (s' : System) × Step 2 1 served.last s'
no_deadlock_example = no_deadlock (omega arith) (omega arith) served.reach
