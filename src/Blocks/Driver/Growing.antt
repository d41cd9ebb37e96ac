-- ===== src/Blocks/Driver/Growing.antt =====
-- A table that is created again.
use agh_sys_opy.Prelude.{
  ℕ, zero, suc, ◌+◌, ◌<◌, ◌≤◌, ◌≡◌, refl, ap, ◌∙◌, List, [], ◌∷◌, none, some, true, false, ◌==◌,
  leb, dec_lt, length, replicate, get_elem?, set, arith,
}
use agh_sys_opy.Prelude.Int.{pos, negsuc}
use agh_sys_opy.Text.{is_digit, print_decimal}
use agh_sys_opy.Text.Words.{strtol-alone}
use agh_sys_opy.Text.Tokens.{Every, IsToken-Every, print_decimal-IsToken}
use agh_sys_opy.Blocks.{empty_block, create_array, free_block, free_each, free_block_array}
use agh_sys_opy.Blocks.Driver.{
  Ending, undefined, Table, isnumber, to_size, create_table, ended, goes_on, with_length,
  run_create_table, round, rounds, run_commands,
}

isnumber-Every : (s : List ℕ) → Every is_digit s → isnumber s ≡ true
unfolding isnumber
isnumber-Every [] h = refl
isnumber-Every (c ∷ s) h = rw (isnumber, h.0) (isnumber-Every s h.1)

isnumber-print_decimal : (n : ℕ) → isnumber (print_decimal n) ≡ true
isnumber-print_decimal n = isnumber-Every (print_decimal n) (
    IsToken-Every is_digit (print_decimal n)
      (print_decimal-IsToken is_digit n (λ d h. ground arith)))

-- Freeing a block that has no files leaves it as it is.
set-replicate : (n i : ℕ) → set (replicate n empty_block) i empty_block ≡ replicate n empty_block
set-replicate zero i = refl
set-replicate (suc n) zero = refl
set-replicate (suc n) (suc i) = ap (λ bs. empty_block ∷ bs) (set-replicate n i)

replicate_inside : (n i : ℕ) → i < n → get_elem? (replicate n empty_block) i ≡ some empty_block
replicate_inside zero i h = absurd (omega arith)
replicate_inside (suc n) zero h = refl
replicate_inside (suc n) (suc i) h = replicate_inside n i (omega arith)

replicate_behind : (n i : ℕ) → n ≤ i → get_elem? (replicate n empty_block) i ≡ none
replicate_behind zero i h = refl
replicate_behind (suc n) zero h = absurd (omega arith)
replicate_behind (suc n) (suc i) h = replicate_behind n i (omega arith)

free_each_behind :
    (k i n m : ℕ) → n < m → i + k ≡ m → i ≤ n → free_each k i (replicate n empty_block) m ≡ none
unfolding free_each free_block
free_each_behind zero i n m h e le = absurd (omega arith)
free_each_behind (suc k) i n m h e le =
    let inside : leb m i ≡ false = ground (arith, e, le) in
    elim (dec_lt i n) [
      | yes lt ↦
          rw (free_each, free_block, inside, replicate_inside n i lt, set-replicate n i)
            (free_each_behind k (suc i) n m h (omega arith) (omega arith))
      | no ge ↦ rw (free_each, free_block, inside, replicate_behind n i (omega arith)) refl
    ]

to_size-print_decimal : (n : ℕ) → to_size (print_decimal n) ≡ n
to_size-print_decimal n = ap (λ v. elim v as (λ _. ℕ) [ pos k ↦ k | negsuc k ↦ 0 ]) (strtol-alone n)

run_create_table-print_decimal :
    (n : ℕ) (args : List (List ℕ)) (t : Table)
    → 0 < n
    → run_create_table (print_decimal n ∷ args) t ≡ with_length n args t
unfolding run_create_table
run_create_table-print_decimal n args t h =
    let positive : (n == 0) ≡ false = ground (arith, h) in
    rw (run_create_table, isnumber-print_decimal n, to_size-print_decimal n, positive) refl

module _ (shell : List ℕ → List ℕ) (temp_filename : List (List ℕ) → List ℕ) where
  round-create_table :
      (n : ℕ) (args : List (List ℕ)) (t : Table)
      → 0 < n
      → round shell temp_filename create_table (print_decimal n ∷ args) t ≡ with_length n args t
  unfolding round
  round-create_table n args t h = run_create_table-print_decimal n args t h

  rounds_goes_on :
      (fuel : ℕ) (a : List ℕ) (args rest : List (List ℕ)) (t next : Table)
      → round shell temp_filename a args t ≡ goes_on rest next
      → rounds shell temp_filename (suc fuel) (a ∷ args) t
        ≡ rounds shell temp_filename fuel rest next
  unfolding rounds
  rounds_goes_on fuel a args rest t next e = rw (rounds, e) refl

  rounds_ended :
      (fuel : ℕ) (a : List ℕ) (args : List (List ℕ)) (t : Table) (end : Ending)
      → round shell temp_filename a args t ≡ ended end
      → rounds shell temp_filename (suc fuel) (a ∷ args) t ≡ some end
  unfolding rounds
  rounds_ended fuel a args t end e = rw (rounds, e) refl

  -- The old array, freed up to the new length.
  with_length_grows :
      (n m : ℕ) (args : List (List ℕ))
      → n < m
      → with_length m args (record { blocks = some (create_array n); blocks_length = n })
        ≡ ended undefined
  unfolding free_block_array
  with_length_grows n m args lt =
      let behind : free_each m 0 (create_array n) m ≡ none =
        free_each_behind m 0 n m lt (omega arith) (omega arith) in
      rw (free_block_array, behind) refl

  -- A table that is created again with more places: blocks behind the end of the old array are read,
  -- because they are freed up to the new length.
  pub create_table_grows :
      (n m : ℕ) (args : List (List ℕ))
      → 0 < n
      → n < m
      → run_commands shell temp_filename
          (create_table ∷ print_decimal n ∷ create_table ∷ print_decimal m ∷ args)
        ≡ some undefined
  unfolding run_commands free_block_array
  create_table_grows n m args h lt =
      rounds_goes_on (suc (suc (suc (length args)))) create_table
        (print_decimal n ∷ create_table ∷ print_decimal m ∷ args)
        (create_table ∷ print_decimal m ∷ args) (record { blocks = none; blocks_length = 0 })
        (record { blocks = some (create_array n); blocks_length = n })
        (round-create_table n (create_table ∷ print_decimal m ∷ args)
          (record { blocks = none; blocks_length = 0 }) h)
      ∙ rounds_ended (suc (suc (length args))) create_table (print_decimal m ∷ args)
          (record { blocks = some (create_array n); blocks_length = n }) undefined
          (round-create_table m args (record { blocks = some (create_array n); blocks_length = n })
              (omega arith)
            ∙ with_length_grows n m args lt)
