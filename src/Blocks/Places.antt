-- ===== src/Blocks/Places.antt =====
-- find_free_index of cw01/zad1/mylib.c: the places of the array.
use agh_sys_opy.Prelude.{
  ℕ, suc, ◌+◌, ◌<◌, ◌≡◌, refl, ap, ◌∙◌, List, [], ◌∷◌, ◌++◌, none, some, true, false, ◌==◌, ltb,
  length, arith,
}
use agh_sys_opy.Blocks.{Block, is_free, find_free_from, find_free_index, file_to_memory}

-- Every block of a list is used.
abbrev pub AllUsed : List Block → Type 0
AllUsed [] = Unit
AllUsed (b ∷ blocks) = (is_free b ≡ false) × AllUsed blocks

find_free_from_first :
    (i : ℕ) (used : List Block) (b : Block) (others : List Block) (len : ℕ)
    → AllUsed used
    → is_free b ≡ true
    → i + length used < len
    → find_free_from i (used ++ (b ∷ others)) len ≡ some (i + length used)
unfolding find_free_from
find_free_from_first i [] b others len h free few =
    rw (find_free_from, free) (ap some (omega arith))
find_free_from_first i (u ∷ used) b others len h free few =
    let less : ltb i len ≡ true = ground (arith, few) in
    rw
      (
        find_free_from,
        h.0,
        less,
        find_free_from_first (suc i) used b others len h.1 free (omega arith),
      )
      (ap some (omega arith))

find_free_from_full :
    (i : ℕ) (used : List Block) (len : ℕ)
    → AllUsed used
    → len ≡ i + length used
    → find_free_from i used len ≡ none
unfolding find_free_from
find_free_from_full i [] len h full = refl
find_free_from_full i (u ∷ used) len h full =
    let less : ltb i len ≡ true = ground (arith, full) in
    rw (find_free_from, h.0, less, find_free_from_full (suc i) used len h.1 (omega arith)) refl

-- The first free place of an array whose blocks in front of it are all used.
pub find_free_index_first :
    (used : List Block) (b : Block) (others : List Block) (len : ℕ)
    → AllUsed used
    → is_free b ≡ true
    → length used < len
    → find_free_index (used ++ (b ∷ others)) len ≡ some (some (length used))
unfolding find_free_index
find_free_index_first used b others len h free room =
    let no : (length used == len) ≡ false = ground (arith, room) in
    let first : find_free_from 0 (used ++ (b ∷ others)) len ≡ some (length used) =
      find_free_from_first 0 used b others len h free (omega arith) ∙ ap some (omega arith) in
    rw (find_free_index, first, no) refl

-- In an array whose blocks are all used, a block behind its end is read.
pub file_to_memory_full :
    (used : List Block) (file : List ℕ)
    → AllUsed used
    → 0 < length used
    → file_to_memory used (length used) file ≡ none
unfolding file_to_memory find_free_index
file_to_memory_full used file h some_block =
    let positive : (length used == 0) ≡ false = ground (arith, some_block) in
    rw
      (
        file_to_memory,
        positive,
        find_free_index,
        find_free_from_full 0 used (length used) h (omega arith),
      )
      refl
