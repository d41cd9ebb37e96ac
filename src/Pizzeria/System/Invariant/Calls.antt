-- ===== src/Pizzeria/System/Invariant/Calls.antt =====
-- What the calls of `semop` in cook.c and deliverer.c need, and what they do to each semaphore.
use agh_sys_opy.Prelude.{ℕ, ◌+◌, ◌≡◌, [], ◌∷◌, some, arith}
use agh_sys_opy.Pizzeria.Kitchen.{
  down, up, semop, oven_used, oven_space, table_used, table_space, table_ready,
}

-- The changes of the five semaphores, each as an amount taken and an amount given.
pub record Changes (sem sem' : ℕ → ℕ) (a a' b b' c c' d d' e e' : ℕ) : Type 0 where
  pub on_oven_used : sem' oven_used + a ≡ sem oven_used + a'
  pub on_oven_space : sem' oven_space + b ≡ sem oven_space + b'
  pub on_table_used : sem' table_used + c ≡ sem table_used + c'
  pub on_table_space : sem' table_space + d ≡ sem table_space + d'
  pub on_table_ready : sem' table_ready + e ≡ sem table_ready + e'

module _ (sem sem' : ℕ → ℕ) where
  pub enter_oven-Changes :
      semop (down oven_used ∷ down oven_space ∷ []) sem ≡ some sem'
      → Changes sem sem' 1 0 1 0 0 0 0 0 0 0
  unfolding semop
  enter_oven-Changes h = ground arith

  pub leave_oven-Changes :
      semop (up oven_used ∷ []) sem ≡ some sem' → Changes sem sem' 0 1 0 0 0 0 0 0 0 0
  unfolding semop
  leave_oven-Changes h = ground arith

  pub enter_both-Changes :
      semop (down oven_used ∷ down table_used ∷ down table_space ∷ up table_ready ∷ []) sem
        ≡ some sem'
      → Changes sem sem' 1 0 0 0 1 0 1 0 0 1
  unfolding semop
  enter_both-Changes h = ground arith

  pub leave_both-Changes :
      semop (up oven_used ∷ up oven_space ∷ up table_used ∷ []) sem ≡ some sem'
      → Changes sem sem' 0 1 0 1 0 1 0 0 0 0
  unfolding semop
  leave_both-Changes h = ground arith

  pub enter_table-Changes :
      semop (down table_used ∷ down table_ready ∷ []) sem ≡ some sem'
      → Changes sem sem' 0 0 0 0 1 0 0 0 1 0
  unfolding semop
  enter_table-Changes h = ground arith

  pub leave_table-Changes :
      semop (up table_used ∷ up table_space ∷ []) sem ≡ some sem'
      → Changes sem sem' 0 0 0 0 0 1 0 1 0 0
  unfolding semop
  leave_table-Changes h = ground arith
