-- ===== src/Pizzeria/Kitchen.antt =====
-- The shared memory and the semaphores of cw07/zad1, and what cook.c and deliverer.c do between two
-- calls of `semop`. `oven[i]` and `table[i]` are read at indices below the sizes; -1 is `none`.
pub mod Spots
use agh_sys_opy.Prelude.{
  ℕ, zero, suc, ◌+◌, ◌-◌, Bool, true, false, List, [], ◌∷◌, Option, none, some, ◌==◌, if◌then◌else◌,
  write_at, find_index,
}

abbrev pub oven_size : ℕ
oven_size = 5

abbrev pub table_size : ℕ
table_size = 5

-- `struct Oven_table`
pub record OvenTable : Type 0 where
  pub oven : ℕ → Option ℕ
  pub table : ℕ → Option ℕ
  pub oven_quan : ℕ
  pub table_quan : ℕ

-- The numbers of the semaphores.
abbrev pub oven_used : ℕ
oven_used = 0

abbrev pub oven_space : ℕ
oven_space = 1

abbrev pub table_used : ℕ
table_used = 2

abbrev pub table_space : ℕ
table_space = 3

abbrev pub table_ready : ℕ
table_ready = 4

-- One `struct sembuf`, with `sem_op` -1 or 1.
pub data SemOp : Type 0 where
  down : ℕ → SemOp
  up : ℕ → SemOp

-- `semop` makes its operations in order and all at once; `none` while it has to wait.
unfoldable pub semop : List SemOp → (ℕ → ℕ) → Option (ℕ → ℕ)
semop [] sem = some sem
semop (up i ∷ ops) sem = semop ops (write_at i (sem i + 1) sem)
semop (down i ∷ ops) sem =
    let rest = semop ops (write_at i (sem i - 1) sem) in if sem i == 0 then none else rest

abbrev pub is_free : (ℕ → Option ℕ) → ℕ → Bool
is_free spots i = elim (spots i) [ none ↦ true | some t ↦ false ]

abbrev pub is_taken : (ℕ → Option ℕ) → ℕ → Bool
is_taken spots i = elim (spots i) [ none ↦ false | some t ↦ true ]

-- `find_free(0)`, `find_free(1)` and `find_taken()`, with `none` for -1.
unfoldable pub find_free_oven : OvenTable → Option ℕ
find_free_oven k = find_index oven_size (is_free k.oven)

unfoldable pub find_free_table : OvenTable → Option ℕ
find_free_table k = find_index table_size (is_free k.table)

unfoldable pub find_taken : OvenTable → Option ℕ
find_taken k = find_index table_size (is_taken k.table)

-- A pizza goes into the oven, at a spot.
abbrev pub put_in_oven : ℕ → ℕ → OvenTable → OvenTable
put_in_oven spot pizza k = record k {
  oven = write_at spot (some pizza) k.oven;
  oven_quan = k.oven_quan + 1;
}

-- The pizza at `spot` of the oven goes to `place` on the table.
abbrev pub move_to_table : ℕ → ℕ → ℕ → OvenTable → OvenTable
move_to_table spot place pizza k = record k {
  oven = write_at spot none k.oven;
  oven_quan = k.oven_quan - 1;
  table = write_at place (some pizza) k.table;
  table_quan = k.table_quan + 1;
}

-- A pizza is taken from the table.
abbrev pub take_from_table : ℕ → OvenTable → OvenTable
take_from_table place k = record k {
  table = write_at place none k.table;
  table_quan = k.table_quan - 1;
}

-- What `main` writes into the shared memory, and the values that it gives the semaphores.
abbrev pub empty_kitchen : OvenTable
empty_kitchen = record { oven = λ _. none; table = λ _. none; oven_quan = 0; table_quan = 0 }

abbrev pub initial_sem : ℕ → ℕ
initial_sem = write_at table_space table_size (
    write_at oven_space oven_size
      (write_at table_ready 0 (write_at table_used 1 (write_at oven_used 1 (λ _. 0)))))
