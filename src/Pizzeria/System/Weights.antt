-- ===== src/Pizzeria/System/Weights.antt =====
-- What each cook and each deliverer counts for in the sums of the invariant.
use agh_sys_opy.Prelude.{ℕ, ◌≤◌, ◌+◌, arith}
use agh_sys_opy.Pizzeria.System.{Cook, Deliverer}

-- Between two calls of `semop`, with the oven's mutual exclusion held.
abbrev pub at_oven : Cook → ℕ
at_oven (Cook.placing _) = 1
at_oven (Cook.placed _ _) = 1
at_oven (Cook.moving _ _) = 1
at_oven Cook.moved = 1
at_oven _ = 0

-- The same, with the table's mutual exclusion held.
abbrev pub at_table : Cook → ℕ
at_table (Cook.moving _ _) = 1
at_table Cook.moved = 1
at_table _ = 0

-- Has taken a unit of `OVEN_SPACE`.
abbrev pub has_space : Cook → ℕ
has_space Cook.preparing = 0
has_space Cook.lost = 0
has_space _ = 1

-- Has a pizza in the oven.
abbrev pub bakes : Cook → ℕ
bakes (Cook.placed _ _) = 1
bakes (Cook.baking _ _) = 1
bakes (Cook.moving _ _) = 1
bakes _ = 0

-- Is about to put a pizza into the oven, or on the table.
abbrev pub will_place : Cook → ℕ
will_place (Cook.placing _) = 1
will_place _ = 0

abbrev pub will_move : Cook → ℕ
will_move (Cook.moving _ _) = 1
will_move _ = 0

-- A deliverer between two calls of `semop`.
abbrev pub holds_table : Deliverer → ℕ
holds_table Deliverer.taking = 1
holds_table (Deliverer.taken _) = 1
holds_table _ = 0

abbrev pub will_take : Deliverer → ℕ
will_take Deliverer.taking = 1
will_take _ = 0

abbrev pub has_taken : Deliverer → ℕ
has_taken (Deliverer.taken _) = 1
has_taken _ = 0

pub bakes-will_place-le : (c : Cook) → bakes c + will_place c ≤ has_space c
bakes-will_place-le c = ground arith

pub will_move-le : (c : Cook) → will_move c ≤ at_table c
will_move-le c = ground arith

pub at_table-le : (c : Cook) → at_table c ≤ at_oven c
at_table-le c = ground arith

pub will_take-le : (d : Deliverer) → will_take d ≤ holds_table d
will_take-le d = ground arith

pub has_taken-le : (d : Deliverer) → has_taken d ≤ holds_table d
has_taken-le d = ground arith
