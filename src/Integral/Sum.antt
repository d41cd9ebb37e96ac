-- ===== src/Integral/Sum.antt =====
-- The rectangles are shared out among the processes, each one once.
use agh_sys_opy.Prelude.{ℕ, zero, suc, ◌+◌, List, [], ◌∷◌, ltb, if◌then◌else◌}

-- The numbers of `k` rectangles, from `i` on.
abbrev pub range : ℕ → ℕ → List ℕ
range i zero = []
range i (suc k) = i ∷ range (suc i) k

-- The rectangles that `left` processes can compute.
abbrev capacity : ℕ → ℕ → ℕ
capacity iter zero = 0
capacity iter (suc left) = iter + capacity iter left

-- How many of the rectangles below `n` some rounds from `i` on reach.
abbrev least : ℕ → ℕ → ℕ
least a b = if ltb a b then a else b
