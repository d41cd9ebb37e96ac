-- ===== src/Integral/Tests.antt =====
-- Ten rectangles, the numbers of which three processes compute.
use agh_sys_opy.Prelude.{ℕ, ◌+◌, ◌≡◌, refl, []}
use agh_sys_opy.Integral.{
  calculate_integral, fork_processes, write_rectangles, sum_files, get_result,
}

abbrev shifted : ℕ → ℕ
shifted j = j + 3

abbrev plus : ℕ → ℕ → ℕ
plus a b = a + b

three_processes : get_result plus 0 3 (calculate_integral shifted 10 3 (λ _. [])) ≡ 75
unfolding fork_processes write_rectangles sum_files
three_processes = refl
