-- ===== src/Pizzeria/System/Invariant.antt =====
-- How the semaphores, the counters and the spots belong together; kept by every step.
pub mod Calls
pub mod Cooks
pub mod Deliverers
use agh_sys_opy.Prelude.{ℕ, ◌<◌, ◌≤◌, ◌+◌, ◌≡◌, ◌≢◌, Option, none, some, sum_below}
use agh_sys_opy.Pizzeria.Kitchen.{
  OvenTable, oven_size, table_size, oven_used, oven_space, table_used, table_space, table_ready,
}
use agh_sys_opy.Pizzeria.Kitchen.Spots.{filled}
use agh_sys_opy.Pizzeria.System.{Cook, Deliverer, Shared}
use agh_sys_opy.Pizzeria.System.Weights.{
  at_oven, at_table, has_space, bakes, will_move, holds_table, will_take, has_taken,
}

-- The pizza and the spot of the oven that a cook remembers.
abbrev pub spot_of : Cook → Option (ℕ × ℕ)
spot_of (Cook.placed pizza spot) = some (pizza, spot)
spot_of (Cook.baking pizza spot) = some (pizza, spot)
spot_of (Cook.moving pizza spot) = some (pizza, spot)
spot_of _ = none

-- The equations between the values of the semaphores and the processes.
pub record Counts (n m : ℕ) (s : Shared) (cooks : ℕ → Cook) (deliverers : ℕ → Deliverer)
    : Type 0 where
  pub oven_mutex : s.sem oven_used + sum_below at_oven n cooks ≡ 1
  pub table_mutex :
      s.sem table_used + sum_below at_table n cooks + sum_below holds_table m deliverers ≡ 1
  pub oven_room : s.sem oven_space + sum_below has_space n cooks ≡ oven_size
  pub table_room :
      s.sem table_space
        + sum_below filled table_size s.kitchen.table
        + sum_below will_move n cooks
        + sum_below has_taken m deliverers
      ≡ table_size
  pub ready :
      s.sem table_ready + sum_below will_take m deliverers
      ≡ sum_below filled table_size s.kitchen.table + sum_below will_move n cooks
  pub oven_count : s.kitchen.oven_quan ≡ sum_below filled oven_size s.kitchen.oven
  pub table_count : s.kitchen.table_quan ≡ sum_below filled table_size s.kitchen.table
  pub baking : sum_below filled oven_size s.kitchen.oven ≡ sum_below bakes n cooks

-- Each cook's pizza lies at the spot that the cook remembers, and nobody else's does.
pub record Spots (s : Shared) (cooks : ℕ → Cook) (deliverers : ℕ → Deliverer) : Type 0 where
  pub own :
      (i pizza spot : ℕ)
      → spot_of (cooks i) ≡ some (pizza, spot)
      → (spot < oven_size) × (s.kitchen.oven spot ≡ some pizza)
  pub apart :
      (i j p q spot : ℕ)
      → spot_of (cooks i) ≡ some (p, spot)
      → spot_of (cooks j) ≡ some (q, spot)
      → i ≡ j
  pub cooks_safe : (i : ℕ) → cooks i ≢ Cook.lost
  pub deliverers_safe : (i : ℕ) → deliverers i ≢ Deliverer.lost
