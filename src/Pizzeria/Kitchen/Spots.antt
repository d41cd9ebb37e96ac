-- ===== src/Pizzeria/Kitchen/Spots.antt =====
-- What the searches of cook.c and deliverer.c find.
use agh_sys_opy.Prelude.{
  ℕ, ◌<◌, ◌≡◌, refl, true, false, Option, none, some, arith, sum_below, sum_below_constant,
  find_index-some, find_index-none,
}
use agh_sys_opy.Pizzeria.Kitchen.{
  OvenTable, oven_size, table_size, is_free, is_taken, find_free_oven, find_free_table, find_taken,
}

-- A spot with a pizza.
abbrev pub filled : Option ℕ → ℕ
filled none = 0
filled (some pizza) = 1

-- A free spot, found.
pub find_free_oven-free :
    (k : OvenTable) (spot : ℕ)
    → find_free_oven k ≡ some spot
    → (spot < oven_size) × (k.oven spot ≡ none)
unfolding find_free_oven
find_free_oven-free k spot e = ground (arith, find_index-some oven_size spot (is_free k.oven) e)

pub find_free_table-free :
    (k : OvenTable) (spot : ℕ)
    → find_free_table k ≡ some spot
    → (spot < table_size) × (k.table spot ≡ none)
unfolding find_free_table
find_free_table-free k spot e = ground (arith, find_index-some table_size spot (is_free k.table) e)

-- No spot found: all are filled.
pub find_free_oven-none :
    (k : OvenTable) → find_free_oven k ≡ none → sum_below filled oven_size k.oven ≡ oven_size
unfolding find_free_oven
find_free_oven-none k e =
    sum_below_constant filled 1 oven_size k.oven
      (λ i lt. ground (arith, find_index-none oven_size i (is_free k.oven) e lt))

pub find_free_table-none :
    (k : OvenTable) → find_free_table k ≡ none → sum_below filled table_size k.table ≡ table_size
unfolding find_free_table
find_free_table-none k e =
    sum_below_constant filled 1 table_size k.table
      (λ i lt. ground (arith, find_index-none table_size i (is_free k.table) e lt))

pub find_taken-taken :
    (k : OvenTable) (spot : ℕ)
    → find_taken k ≡ some spot
    → (spot < table_size) × ((pizza : ℕ) × (k.table spot ≡ some pizza))
unfolding find_taken
find_taken-taken k spot e =
    let (inside, hit, _) = find_index-some table_size spot (is_taken k.table) e in
    (inside, there (k.table spot) hit)
  where
    there :
        (o : Option ℕ)
        → elim o [ none ↦ false | some t ↦ true ] ≡ true
        → (pizza : ℕ) × (o ≡ some pizza)
    there none h = absurd (ground arith)
    there (some pizza) h = (pizza, refl)

pub find_taken-none :
    (k : OvenTable) → find_taken k ≡ none → sum_below filled table_size k.table ≡ 0
unfolding find_taken
find_taken-none k e =
    sum_below_constant filled 0 table_size k.table
      (λ i lt. ground (arith, find_index-none table_size i (is_taken k.table) e lt))
