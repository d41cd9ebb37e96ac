-- ===== src/Counting/Lines.antt =====
-- The counts of cw02/zad2 and the lines of a file.
use agh_sys_opy.Prelude.{ℕ, suc, ◌+◌, ◌||◌, not, List, [], ◌∷◌, ◌++◌, ◌==◌, ltb, if◌then◌else◌}
use agh_sys_opy.Text.Tokens.{Every}
use agh_sys_opy.Counting.{Counts}

-- How often the byte stands in a line, and how many lines it stands in.
abbrev pub occurrences : ℕ → List ℕ → ℕ
occurrences to_find [] = 0
occurrences to_find (c ∷ line) =
    let rest = occurrences to_find line in if c == to_find then suc rest else rest

abbrev pub all_occurrences : ℕ → List (List ℕ) → ℕ
all_occurrences to_find [] = 0
all_occurrences to_find (l ∷ lines) = occurrences to_find l + all_occurrences to_find lines

abbrev pub lines_with : ℕ → List (List ℕ) → ℕ
lines_with to_find [] = 0
lines_with to_find (l ∷ lines) =
    let rest = lines_with to_find lines in if ltb 0 (occurrences to_find l) then suc rest else rest

-- Lines with a newline between them.
abbrev pub join_lines : List (List ℕ) → List ℕ
join_lines [] = []
join_lines (l ∷ []) = l
join_lines (l ∷ m ∷ lines) = l ++ (10 ∷ join_lines (m ∷ lines))

abbrev pub AllLines : List (List ℕ) → Type 0
AllLines [] = Unit
AllLines (l ∷ lines) = Every (λ c. not (c == 10)) l × AllLines lines

abbrev after_line : ℕ → Counts → List ℕ → Counts
after_line to_find s l = record {
  count_char = s.count_char + occurrences to_find l;
  count_line =
      if s.was_line_used
      then s.count_line
      else if ltb 0 (occurrences to_find l)
      then suc s.count_line
      else s.count_line;
  was_line_used = s.was_line_used || ltb 0 (occurrences to_find l);
}
