-- ===== src/Image/Pixels/Blocks.antt =====
-- The mode `block`: the loops of a thread, and all threads together.
use agh_sys_opy.Prelude.{
  ◌^◌, ◌≤◌, ℕ, zero, suc, ◌+◌, ◌<◌, ◌≡◌, refl, List, [], ◌∷◌, ◌++◌, ltb, Bool-cases, inl, inr,
  lt→ltb,
}
use agh_sys_opy.Prelude.Int.{ℤ, pos}
use agh_sys_opy.Image.Schedule.{Schedule}
use agh_sys_opy.Image.Pixels.{Image, size, negate_at, column_loop, block_loop, start_routine_block}
use agh_sys_opy.Image.Pixels.Columns.{column_rounds, block_rounds, thread_rounds}

-- Pixels negated one after the other.
pub negate_all : ℤ → List ℕ → (ℕ → ℤ) → ℕ → ℤ
negate_all m [] values = values
negate_all m (i ∷ is) values = negate_all m is (negate_at m i values)

negate_all-append :
    (m : ℤ) (is js : List ℕ) (values : ℕ → ℤ)
    → negate_all m (is ++ js) values ≡ negate_all m js (negate_all m is values)
unfolding negate_all
negate_all-append m [] js values = refl
negate_all-append m (i ∷ is) js values = negate_all-append m is js (negate_at m i values)

column_loop-eq :
    (fuel : ℕ) (m : ℤ) (width bound j : ℕ) (values : ℕ → ℤ)
    → column_loop fuel m width bound j values
      ≡ negate_all m (column_rounds fuel width bound j) values
unfolding column_loop negate_all
column_loop-eq zero m width bound j values = refl
column_loop-eq (suc fuel) m width bound j values = elim (Bool-cases (ltb j bound)) [
  | inl e ↦ rw e (column_loop-eq fuel m width bound (j + width) (negate_at m j values))
  | inr e ↦ rw e
]

block_loop-eq :
    (n : ℕ) (img : Image) (i : ℕ) (values : ℕ → ℤ)
    → block_loop n img i values ≡ negate_all img.max_pixel (block_rounds n img i) values
unfolding block_loop negate_all
block_loop-eq zero img i values = refl
block_loop-eq (suc n) img i values = elim (Bool-cases (ltb i img.width)) [
  | inl e ↦ rw (e, negate_all-append, column_loop-eq) (block_loop-eq n img (suc i) _)
  | inr e ↦ rw e
]

-- What `start_routine_block` does as one thread is to negate the pixels that its rounds name, in
-- order, which are the rounds that a schedule of all threads takes from it.
pub start_routine_block-eq :
    (img : Image) (n t : ℕ) (values : ℕ → ℤ)
    → t < n
    → start_routine_block img n t values ≡ negate_all img.max_pixel (thread_rounds img n t) values
unfolding start_routine_block
start_routine_block-eq img n t values h = rw (lt→ltb t n h) (block_loop-eq _ img _ values)

-- The rounds of the threads in the order in which they happen.
pub run_blocks : ℤ → Schedule → (ℕ → ℤ) → ℕ → ℤ
run_blocks m [] values = values
run_blocks m ((t, i) ∷ rest) values = run_blocks m rest (negate_at m i values)

-- An image whose values lie between 0 and the maximum, and whose numbers are all `int`s.
abbrev pub InRange : Image → ℕ → (ℕ → ℤ) → Type 0
InRange img m values =
    (img.max_pixel ≡ pos m)
    × (m < 2 ^ 31)
    × (size img < 2 ^ 31)
    × ((i : ℕ) → i < size img → (a : ℕ) × (values i ≡ pos a) × (a ≤ m))
