-- ===== src/Image/Schedule.antt =====
-- The rounds of several threads' loops over pixels, merged in any order.
use agh_sys_opy.Prelude.{
  ℕ, zero, suc, ◌+◌, ◌<◌, ◌≤◌, ◌≡◌, refl, List, [], ◌∷◌, ◌==◌, if◌then◌else◌, write_at, arith,
  sum_below, sum_below-write_at, sum_below_constant, dec_lt,
}

-- The threads' rounds of the loop, in the order in which they happen: a thread and a pixel.
abbrev pub Schedule : Type 0
Schedule = List (ℕ × ℕ)

-- Indices `i`, `i + 1`, ..., `n` of them: the rounds of one thread.
abbrev pub rounds : ℕ → ℕ → List ℕ
rounds zero i = []
rounds (suc n) i = i ∷ rounds n (suc i)

-- The schedule merges the rounds that the threads have left.
pub data Interleaved : (ℕ → List ℕ) → Schedule → Type 0 where
  done : {work : ℕ → List ℕ} → ((t : ℕ) → work t ≡ []) → Interleaved work []
  next :
      {work : ℕ → List ℕ} {t i : ℕ} {left : List ℕ} {rest : Schedule}
      → work t ≡ i ∷ left
      → Interleaved (write_at t left work) rest
      → Interleaved work ((t, i) ∷ rest)

abbrev pub occurs : ℕ → List ℕ → ℕ
occurs i [] = 0
occurs i (j ∷ js) = let later = occurs i js in if i == j then suc later else later

occurs-rounds_below : (n i j : ℕ) → j < i → occurs j (rounds n i) ≡ 0
occurs-rounds_below zero i j h = refl
occurs-rounds_below (suc n) i j h = ground (arith, occurs-rounds_below n (suc i) j)

pub occurs-rounds : (n i j : ℕ) → i ≤ j → j < i + n → occurs j (rounds n i) ≡ 1
occurs-rounds zero i j lo hi = absurd (omega arith)
occurs-rounds (suc n) i j lo hi =
    ground (arith, occurs-rounds n (suc i) j, occurs-rounds_below n (suc i) j)

-- How often a pixel is visited, by any thread.
abbrev pub visited : ℕ → Schedule → ℕ
visited i [] = 0
visited i ((u, j) ∷ rest) = let later = visited i rest in if i == j then suc later else later

-- Threads from `n` on have nothing to do.
abbrev pub OnlyBelow : ℕ → (ℕ → List ℕ) → Type 0
OnlyBelow n work = (t : ℕ) → n ≤ t → work t ≡ []

pub Interleaved-visited :
    {work : ℕ → List ℕ} {sched : Schedule}
    → Interleaved work sched
    → (n i : ℕ) → OnlyBelow n work
    → visited i sched ≡ sum_below (occurs i) n work
Interleaved-visited {work} (done e) n i idle =
    grind (arith, sum_below_constant (occurs i) 0 n work (λ t lt. ground (arith, e t)))
Interleaved-visited {work} (next {t} {i = j} {left} e rest) n i idle = elim (dec_lt t n) [
  | yes inside ↦ ground (
    arith,
    Interleaved-visited rest n i (λ u le. ground (arith, idle u)),
    sum_below-write_at (occurs i) n t left work inside,
  )
  | no outside ↦ absurd (ground (arith, idle t))
]
