-- ===== src/Prelude/Family.antt =====
-- Arrays and per-process data as functions of an index: a write at one index, and sums.
use Prim.Native.Nat.{ℕ, zero, suc, ◌+◌, ◌*◌, ◌≤◌, ◌<◌}
use mathlib.Core.Path.{◌≡◌, refl, sym, subst}
use mathlib.Core.Logic.{◌≢◌}
use native.Mathlib.Decide.{dec_lt, ℕ_discrete}
use native.Mathlib.Omega.{arith}
use agh_sys_opy.Prelude.Tests.{◌==◌, if◌then◌else◌}

-- The family `f` with `a` written at index `i`.
abbrev pub write_at {ℓ} : {A : Type ℓ} → ℕ → A → (ℕ → A) → ℕ → A
write_at i a f j = if i == j then a else f j

module _ {ℓ} {A : Type ℓ} where
  pub write_at_self : (i : ℕ) (a : A) (f : ℕ → A) → write_at i a f i ≡ a
  write_at_self i a f = ground arith

  pub write_at_ne : (i j : ℕ) (a : A) (f : ℕ → A) → i ≢ j → write_at i a f j ≡ f j
  write_at_ne i j a f h = ground arith

-- What holds of the write and of the other members.
pub write_at_elim {ℓ κ} :
    {A : Type ℓ} (P : ℕ → A → Type κ) (i j : ℕ) (a : A) (f : ℕ → A)
    → P i a
    → (i ≢ j → P j (f j))
    → P j (write_at i a f j)
write_at_elim P i j a f here there = elim (ℕ_discrete i j) [
  | yes same ↦
      subst (λ k. P k (write_at i a f k)) same (subst (P i) (sym (write_at_self i a f)) here)
  | no other ↦ subst (P j) (sym (write_at_ne i j a f other)) (there other)
]

-- The sum of the weights of the first `n` members.
module _ {ℓ} {A : Type ℓ} (weight : A → ℕ) where
  pub sum_below : ℕ → (ℕ → A) → ℕ
  sum_below zero f = 0
  sum_below (suc n) f = weight (f n) + sum_below n f

  sum_below-write_at_above :
      (n i : ℕ) (a : A) (f : ℕ → A) → n ≤ i → sum_below n (write_at i a f) ≡ sum_below n f
  unfolding sum_below
  sum_below-write_at_above zero i a f h = refl
  sum_below-write_at_above (suc n) i a f h = ground (arith, sum_below-write_at_above n i a f)

  -- A write moves the sum by the difference of the two weights.
  pub sum_below-write_at :
      (n i : ℕ) (a : A) (f : ℕ → A)
      → i < n
      → sum_below n (write_at i a f) + weight (f i) ≡ sum_below n f + weight a
  unfolding sum_below
  sum_below-write_at zero i a f h = elim h [ ]
  sum_below-write_at (suc n) i a f h = elim (dec_lt i n) [
    | yes inside ↦ ground (arith, sum_below-write_at n i a f inside)
    | no last ↦ ground (arith, sum_below-write_at_above n i a f)
  ]

  pub weight-le-sum_below : (n i : ℕ) (f : ℕ → A) → i < n → weight (f i) ≤ sum_below n f
  unfolding sum_below
  weight-le-sum_below zero i f h = elim h [ ]
  weight-le-sum_below (suc n) i f h = elim (dec_lt i n) [
    | yes inside ↦ omega (arith, weight-le-sum_below n i f inside)
    | no last ↦ ground arith
  ]

  -- Two different members together weigh no more than the sum.
  pub two_weights-le-sum_below :
      (n i j : ℕ) (f : ℕ → A) → i < n → j < n → i ≢ j → weight (f i) + weight (f j) ≤ sum_below n f
  unfolding sum_below
  two_weights-le-sum_below zero i j f hi hj ne = elim hi [ ]
  two_weights-le-sum_below (suc n) i j f hi hj ne = ground (
    arith,
    two_weights-le-sum_below n i j f,
    weight-le-sum_below n i f,
    weight-le-sum_below n j f,
  )

-- Sums are compared member by member.
module _ {ℓ} {A : Type ℓ} (v w : A → ℕ) where
  pub sum_below-le : ((a : A) → v a ≤ w a) → (n : ℕ) (f : ℕ → A) → sum_below v n f ≤ sum_below w n f
  unfolding sum_below
  sum_below-le h zero f = omega arith
  sum_below-le h (suc n) f = omega (arith, h (f n), sum_below-le h n f)

  pub sum_below-add :
      (u : A → ℕ)
      → ((a : A) → v a + u a ≤ w a)
      → (n : ℕ) (f : ℕ → A) → sum_below v n f + sum_below u n f ≤ sum_below w n f
  unfolding sum_below
  sum_below-add u h zero f = omega arith
  sum_below-add u h (suc n) f = omega (arith, h (f n), sum_below-add u h n f)

module _ {ℓ} {A : Type ℓ} (weight : A → ℕ) where
  pub sum_below_constant :
      (c n : ℕ) (f : ℕ → A) → ((i : ℕ) → i < n → weight (f i) ≡ c) → sum_below weight n f ≡ n * c
  unfolding sum_below
  sum_below_constant c zero f h = omega arith
  sum_below_constant c (suc n) f h =
      grind (arith, h n (omega arith), sum_below_constant c n f (λ i lt. h i (omega arith)))

  pub sum_below_nothing : (n : ℕ) (a : A) → weight a ≡ 0 → sum_below weight n (λ _. a) ≡ 0
  sum_below_nothing n a e = grind (arith, sum_below_constant 0 n (λ _. a) (λ i lt. e))

  -- A positive sum has a positive member.
  pub sum_below_pos :
      (n : ℕ) (f : ℕ → A) → 0 < sum_below weight n f → (i : ℕ) × (i < n) × (0 < weight (f i))
  unfolding sum_below
  sum_below_pos zero f h = absurd (omega arith)
  sum_below_pos (suc n) f h = elim (dec_lt 0 (weight (f n))) [
    | yes p ↦ (n, omega arith, p)
    | no np ↦ let (i, lt, p) = sum_below_pos n f (omega arith) in (i, omega arith, p)
  ]

  -- A sum with one member that counts.
  pub sum_below_single :
      (n k : ℕ) (f : ℕ → A)
      → k < n
      → ((i : ℕ) → i < n → i ≢ k → weight (f i) ≡ 0)
      → sum_below weight n f ≡ weight (f k)
  unfolding sum_below
  sum_below_single zero k f h z = absurd (omega arith)
  sum_below_single (suc n) k f h z = elim (dec_lt k n) [
    | yes below ↦ omega (
      arith,
      z n (omega arith) (omega arith),
      sum_below_single n k f below (λ i lt ne. z i (omega arith) ne),
    )
    | no last ↦ ground (arith, sum_below_constant 0 n f (λ i lt. z i (omega arith) (omega arith)))
  ]
