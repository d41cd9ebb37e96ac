-- ===== src/Integral.antt =====
-- cw03/zad2/main.c, an integral as a sum of rectangles that several processes compute. The floating
-- numbers are a parameter: `term j` is what is read back of the number that is written for the
-- rectangle `j`, and `plus` their addition. `n` is the integer part of 1/width.
pub mod Sum
mod Tests
use agh_sys_opy.Prelude.{ℕ, zero, suc, ◌+◌, ◌/◌, List, [], ◌∷◌, ltb, if◌then◌else◌, write_at}

abbrev pub iter_per_proc : ℕ → ℕ → ℕ
iter_per_proc n n_proc = n / n_proc + 1

module _ {V : Type 0} where
  -- The loop of a process, from the rectangle `j` on: what it writes into its file.
  unfoldable pub write_rectangles : (ℕ → V) → ℕ → ℕ → ℕ → List V
  write_rectangles term n zero j = []
  write_rectangles term n (suc rounds) j =
      let rest = write_rectangles term n rounds (suc j) in if ltb j n then term j ∷ rest else []

  -- The loop that forks, with the number of processes left; a file for each number.
  unfoldable pub fork_processes : (ℕ → V) → ℕ → ℕ → ℕ → ℕ → ℕ → (ℕ → List V) → ℕ → List V
  unfolding write_rectangles
  fork_processes term n iter zero num_of_file i files = files
  fork_processes term n iter (suc left) num_of_file i files =
      fork_processes term n iter left (suc num_of_file) (i + iter)
        (write_at num_of_file (write_rectangles term n iter i) files)

  abbrev pub calculate_integral : (ℕ → V) → ℕ → ℕ → (ℕ → List V) → ℕ → List V
  calculate_integral term n n_proc files =
      fork_processes term n (iter_per_proc n n_proc) n_proc 1 0 files

  -- The loop of `fscanf` over one file.
  abbrev pub add_file : (V → V → V) → V → List V → V
  add_file plus result [] = result
  add_file plus result (temp ∷ rest) = add_file plus (plus result temp) rest

  unfoldable pub sum_files : (V → V → V) → ℕ → ℕ → (ℕ → List V) → V → V
  sum_files plus zero i files result = result
  sum_files plus (suc left) i files result =
      sum_files plus left (suc i) files (add_file plus result (files i))

  abbrev pub get_result : (V → V → V) → V → ℕ → (ℕ → List V) → V
  get_result plus nothing n_proc files = sum_files plus n_proc 1 files nothing
