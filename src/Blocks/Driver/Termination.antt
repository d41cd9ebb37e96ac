-- ===== src/Blocks/Driver/Termination.antt =====
-- run_commands does not go on for ever, though it may end with something undefined.
use agh_sys_opy.Prelude.{
  ℕ, zero, suc, ◌≤◌, ◌≡◌, refl, List, [], ◌∷◌, Option, none, some, Bool, true, false, not, ◌==◌,
  leb, Bool-cases, inl, inr, if◌then◌else◌, length, str_eq, arith,
}
use agh_sys_opy.Blocks.{Block, count_to_file, file_to_memory, free_block, free_block_array}
use agh_sys_opy.Blocks.Driver.{
  Ending, returned, exited, Table, isnumber, to_size, create_table, remove_block, wc_files,
  is_command, split_files, ends, Round, ended, goes_on, run_create_table, run_remove_block, store,
  run_wc_files, round, rounds, run_commands,
}

-- A round leaves at most `n` arguments.
abbrev Leaves : ℕ → Round → Type 0
Leaves n (ended e) = Unit
Leaves n (goes_on rest t) = length rest ≤ n

if-Leaves :
    (n : ℕ) (b : Bool) (x y : Round) → Leaves n x → Leaves n y → Leaves n (if b then x else y)
if-Leaves n true x y hx hy = hx
if-Leaves n false x y hx hy = hy

option-Leaves {ℓ} :
    {A : Type ℓ} (n : ℕ) (o : Option A) (x : Round) (f : A → Round)
    → Leaves n x
    → ((a : A) → Leaves n (f a))
    → Leaves n (elim o [ none ↦ x | some a ↦ f a ])
option-Leaves n none x f hx hf = hx
option-Leaves n (some a) x f hx hf = hf a

run_create_table-Leaves :
    (args : List (List ℕ)) (t : Table) → Leaves (length args) (run_create_table args t)
unfolding run_create_table
run_create_table-Leaves [] t = tt
run_create_table-Leaves (number ∷ args) t = if-Leaves _ (not (isnumber number)) _ _ tt (
    if-Leaves _ (to_size number == 0) _ _ tt
      (if-Leaves _ (free_block_array t.blocks (to_size number)) _ _ (omega arith) tt))

run_remove_block-Leaves :
    (args : List (List ℕ)) (t : Table) → Leaves (length args) (run_remove_block args t)
unfolding run_remove_block
run_remove_block-Leaves [] t = tt
run_remove_block-Leaves (number ∷ args) t = if-Leaves _ (not (isnumber number)) _ _ tt (
    if-Leaves _ (leb t.blocks_length (to_size number)) _ _ tt (
      option-Leaves _ t.blocks _ _ tt (λ blocks.
        option-Leaves _ (free_block blocks t.blocks_length (to_size number)) _ _ tt
          (λ rest. omega arith))))

length-split_files : (args : List (List ℕ)) → length (split_files args).1 ≤ length args
unfolding split_files
length-split_files [] = omega arith
length-split_files (a ∷ args) = elim (Bool-cases (is_command a)) [
  | inl e ↦ rw e (omega arith)
  | inr e ↦ rw e (omega (arith, length-split_files args))
]

module _ (shell : List ℕ → List ℕ) (temp_filename : List (List ℕ) → List ℕ) where
  store-Leaves :
      (n : ℕ) (blocks : List Block) (t : Table) (files args : List (List ℕ))
      → length args ≤ n
      → Leaves n (store shell temp_filename blocks t files args)
  store-Leaves n blocks t files args h =
      option-Leaves n (count_to_file shell (temp_filename args) files) _ _ tt
        (λ file. option-Leaves n (file_to_memory blocks t.blocks_length file) _ _ tt (λ p. h))

  files-Leaves :
      (n : ℕ) (blocks : List Block) (t : Table) (files args : List (List ℕ))
      → length args ≤ n
      → Leaves n (elim files [
        | [] ↦ ended (ends exited t)
        | f ∷ fs ↦ store shell temp_filename blocks t (f ∷ fs) args
      ])
  files-Leaves n blocks t [] args h = tt
  files-Leaves n blocks t (f ∷ fs) args h = store-Leaves n blocks t (f ∷ fs) args h

  run_wc_files-Leaves :
      (args : List (List ℕ)) (t : Table)
      → Leaves (length args) (run_wc_files shell temp_filename args t)
  unfolding run_wc_files
  run_wc_files-Leaves args t = option-Leaves _ t.blocks _ _ tt (λ blocks.
      files-Leaves _ blocks t (split_files args).0 (split_files args).1 (length-split_files args))

  round-Leaves :
      (a : List ℕ) (args : List (List ℕ)) (t : Table)
      → Leaves (length args) (round shell temp_filename a args t)
  unfolding round
  round-Leaves a args t = if-Leaves _ (str_eq a create_table) _ _ (run_create_table-Leaves args t) (
      if-Leaves _ (str_eq a remove_block) _ _ (run_remove_block-Leaves args t)
        (if-Leaves _ (str_eq a wc_files) _ _ (run_wc_files-Leaves args t) tt))

  rounds_go_on :
      (fuel n : ℕ) (r : Round)
      → Leaves n r
      → ((rest : List (List ℕ)) (next : Table)
          → length rest ≤ n
          → (e : Ending) × (rounds shell temp_filename fuel rest next ≡ some e))
      → (e : Ending) × (elim r as (λ _. Option Ending) [
        | ended e ↦ some e
        | goes_on rest next ↦ rounds shell temp_filename fuel rest next
      ]
          ≡ some e)
  rounds_go_on fuel n (ended e) leaves later = (e, refl)
  rounds_go_on fuel n (goes_on rest next) leaves later = later rest next leaves

  rounds_end :
      (fuel : ℕ) (args : List (List ℕ)) (t : Table)
      → length args ≤ fuel
      → (e : Ending) × (rounds shell temp_filename fuel args t ≡ some e)
  unfolding rounds
  rounds_end zero [] t h = (ends returned t, refl)
  rounds_end (suc fuel) [] t h = (ends returned t, refl)
  rounds_end zero (a ∷ args) t h = absurd (omega arith)
  rounds_end (suc fuel) (a ∷ args) t h =
      rounds_go_on fuel (length args) (round shell temp_filename a args t) (round-Leaves a args t)
        (λ rest next le. rounds_end fuel rest next (omega arith))

  -- The loop of `run_commands` does not go on for ever, for all arguments, whatever the shell prints: one
  -- round for each argument is enough.
  pub run_commands_end :
      (args : List (List ℕ)) → (e : Ending) × (run_commands shell temp_filename args ≡ some e)
  unfolding run_commands
  run_commands_end [] = (exited, refl)
  run_commands_end (a ∷ args) = rounds_end (length (a ∷ args)) (a ∷ args) _ (omega arith)
