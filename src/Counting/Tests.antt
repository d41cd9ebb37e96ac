-- ===== src/Counting/Tests.antt =====
-- A file of two lines.
use agh_sys_opy.Prelude.{ℕ, List, [], ◌∷◌}

-- `aba` and `b`
abbrev first : List ℕ
first = b'a' ∷ b'b' ∷ b'a' ∷ []

abbrev second : List ℕ
second = b'b' ∷ []
