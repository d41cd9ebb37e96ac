-- ===== src/PosixPizzeria/Weights.antt =====
-- What each cook and each deliverer of cw07/zad2 counts for in the sums of the invariant.
use agh_sys_opy.Prelude.{ℕ, ◌≤◌, ◌+◌, arith}
use agh_sys_opy.PosixPizzeria.{Cook, Deliverer}

-- Has taken `oven_used`.
abbrev pub at_oven : Cook → ℕ
at_oven Cook.preparing = 0
at_oven (Cook.entering _) = 0
at_oven (Cook.baking _ _) = 0
at_oven Cook.leaving = 0
at_oven Cook.lost = 0
at_oven _ = 1

-- Has taken `table_used`.
abbrev pub at_table : Cook → ℕ
at_table (Cook.moving _) = 1
at_table Cook.moved = 1
at_table Cook.announced = 1
at_table Cook.leaving = 1
at_table _ = 0

-- Has taken a unit of `oven_space`.
abbrev pub has_space : Cook → ℕ
has_space (Cook.entering _) = 1
has_space (Cook.placing _) = 1
has_space (Cook.placed _ _) = 1
has_space (Cook.baking _ _) = 1
has_space (Cook.reaching _ _) = 1
has_space (Cook.cleared _) = 1
has_space _ = 0

-- Has a pizza in the oven.
abbrev pub bakes : Cook → ℕ
bakes (Cook.placed _ _) = 1
bakes (Cook.baking _ _) = 1
bakes (Cook.reaching _ _) = 1
bakes _ = 0

-- Is about to put a pizza into the oven.
abbrev pub will_place : Cook → ℕ
will_place (Cook.placing _) = 1
will_place _ = 0

-- Has taken a unit of `table_space` for a pizza that is not yet on the table.
abbrev pub will_move : Cook → ℕ
will_move (Cook.choosing _) = 1
will_move (Cook.moving _) = 1
will_move _ = 0

-- Has put a pizza on the table that `table_ready` does not count yet.
abbrev pub will_announce : Cook → ℕ
will_announce Cook.moved = 1
will_announce _ = 0

-- A deliverer who has taken `table_used`.
abbrev pub holds_table : Deliverer → ℕ
holds_table Deliverer.taking = 1
holds_table (Deliverer.taken _) = 1
holds_table (Deliverer.stepping_back _) = 1
holds_table _ = 0

-- Has taken a unit of `table_ready` for a pizza that is still on the table.
abbrev pub will_take : Deliverer → ℕ
will_take Deliverer.approaching = 1
will_take Deliverer.taking = 1
will_take _ = 0

-- Has taken a pizza whose place `table_space` does not count yet.
abbrev pub has_taken : Deliverer → ℕ
has_taken (Deliverer.taken _) = 1
has_taken _ = 0

pub bakes-will_place-le : (c : Cook) → bakes c + will_place c ≤ has_space c
bakes-will_place-le c = ground arith

pub will_move-le : (c : Cook) → will_move c ≤ at_oven c
will_move-le c = ground arith

pub will_announce-le : (c : Cook) → will_announce c ≤ at_table c
will_announce-le c = ground arith

pub has_taken-le : (d : Deliverer) → has_taken d ≤ holds_table d
has_taken-le d = ground arith
