-- ===== src/Blocks/Driver.antt =====
-- run_commands of cw01/zad2/main.c, the driver of the block library: its arguments in order.
pub mod Termination
pub mod Growing
use agh_sys_opy.Prelude.{
  ℕ, zero, suc, ◌+◌, ◌<◌, ◌≤◌, ◌≡◌, refl, ap, ◌∙◌, List, [], ◌∷◌, ◌++◌, Option, none, some, Bool,
  true, false, ◌&&◌, ◌||◌, not, ◌==◌, ltb, leb, if◌then◌else◌, length, replicate, get_elem?, str_eq,
  arith,
}
use agh_sys_opy.Prelude.Int.{ℤ, pos, negsuc}
use agh_sys_opy.Text.{is_digit, strtol, print_decimal}
use agh_sys_opy.Blocks.{
  Block, empty_block, create_array, count_to_file, file_to_memory, freed, free_block, free_each,
  free_block_array,
}

-- How the program ends: with 0, with 1, or undefined.
pub data Ending : Type 0 where
  returned : Ending
  exited : Ending
  undefined : Ending

-- `blocks`, which may be NULL, and `blocks_length`.
pub record Table : Type 0 where
  pub blocks : Option (List Block)
  pub blocks_length : ℕ

unfoldable pub isnumber : List ℕ → Bool
isnumber [] = true
isnumber (c ∷ rest) = if is_digit c then isnumber rest else false

-- `strtol` to a `size_t`.
abbrev pub to_size : List ℕ → ℕ
to_size s = elim (strtol s) [ pos n ↦ n | negsuc n ↦ 0 ]

-- `create_table`, `remove_block` and `wc_files`.
abbrev pub create_table : List ℕ
create_table =
    b'c' ∷ b'r' ∷ b'e' ∷ b'a' ∷ b't' ∷ b'e' ∷ b'_' ∷ b't' ∷ b'a' ∷ b'b' ∷ b'l' ∷ b'e' ∷ []

abbrev pub remove_block : List ℕ
remove_block =
    b'r' ∷ b'e' ∷ b'm' ∷ b'o' ∷ b'v' ∷ b'e' ∷ b'_' ∷ b'b' ∷ b'l' ∷ b'o' ∷ b'c' ∷ b'k' ∷ []

abbrev pub wc_files : List ℕ
wc_files = b'w' ∷ b'c' ∷ b'_' ∷ b'f' ∷ b'i' ∷ b'l' ∷ b'e' ∷ b's' ∷ []

abbrev pub is_command : List ℕ → Bool
is_command a = str_eq a wc_files || (str_eq a create_table || str_eq a remove_block)

-- The arguments up to the next command, and those from it on.
unfoldable pub split_files : List (List ℕ) → List (List ℕ) × List (List ℕ)
split_files [] = ([], [])
split_files (a ∷ args) =
    let (files, behind) = split_files args in
    if is_command a then ([], a ∷ args) else (a ∷ files, behind)

-- `free_block_array`, and the end of the program.
abbrev pub ends : Ending → Table → Ending
ends e t = if free_block_array t.blocks t.blocks_length then e else undefined

-- One round of the loop, at an argument and those behind it: the end of the program, or the
-- arguments and the table of the next round.
pub data Round : Type 0 where
  ended : Ending → Round
  goes_on : List (List ℕ) → Table → Round

-- `blocks_length` has the new length when the old array is freed.
abbrev pub with_length : ℕ → List (List ℕ) → Table → Round
with_length n args t =
    if free_block_array t.blocks n
    then goes_on args (record { blocks = some (create_array n); blocks_length = n })
    else ended undefined

unfoldable pub run_create_table : List (List ℕ) → Table → Round
run_create_table [] t = ended (ends exited t)
run_create_table (number ∷ args) t =
    if not (isnumber number)
    then ended (ends exited t)
    else if to_size number == 0
    then ended (ends exited (record t { blocks_length = 0 }))
    else with_length (to_size number) args t

unfoldable pub run_remove_block : List (List ℕ) → Table → Round
run_remove_block [] t = ended (ends exited t)
run_remove_block (number ∷ args) t =
    if not (isnumber number)
    then ended (ends exited t)
    else if leb t.blocks_length (to_size number)
    then ended (ends exited t)
    else elim t.blocks [
      | none ↦ ended (ends exited t)
      | some blocks ↦ elim (free_block blocks t.blocks_length (to_size number)) [
        | none ↦ ended undefined
        | some rest ↦ goes_on args (record t { blocks = some rest })
      ]
    ]

-- The shell and the name of the temporary file, which is another for each call.
module _ (shell : List ℕ → List ℕ) (temp_filename : List (List ℕ) → List ℕ) where
  abbrev pub store : List Block → Table → List (List ℕ) → List (List ℕ) → Round
  store blocks t files args = elim (count_to_file shell (temp_filename args) files) [
    | none ↦ ended undefined
    | some file ↦ elim (file_to_memory blocks t.blocks_length file) [
      | none ↦ ended undefined
      | some (rest, index) ↦ goes_on args (record t { blocks = some rest })
    ]
  ]

  unfoldable pub run_wc_files : List (List ℕ) → Table → Round
  unfolding split_files
  run_wc_files args t = elim t.blocks [
    | none ↦ ended (ends exited t)
    | some blocks ↦
        let (files, behind) = split_files args in
        elim files [ [] ↦ ended (ends exited t) | f ∷ fs ↦ store blocks t (f ∷ fs) behind ]
  ]

  unfoldable pub round : List ℕ → List (List ℕ) → Table → Round
  unfolding run_create_table run_remove_block run_wc_files
  round a args t =
      if str_eq a create_table
      then run_create_table args t
      else if str_eq a remove_block
      then run_remove_block args t
      else if str_eq a wc_files
      then run_wc_files args t
      else ended (ends exited t)

  -- The loop. Each round takes an argument at least, so their number is enough fuel.
  unfoldable pub rounds : ℕ → List (List ℕ) → Table → Option Ending
  unfolding round
  rounds fuel [] t = some (ends returned t)
  rounds zero (a ∷ args) t = none
  rounds (suc fuel) (a ∷ args) t = elim (round a args t) [
    | ended e ↦ some e
    | goes_on rest next ↦ rounds fuel rest next
  ]

  unfoldable pub run_commands : List (List ℕ) → Option Ending
  unfolding rounds
  run_commands [] = some exited
  run_commands (a ∷ args) =
      rounds (length (a ∷ args)) (a ∷ args) (record { blocks = none; blocks_length = 0 })
