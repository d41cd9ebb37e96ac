-- ===== src/Prelude/Search.antt =====
-- The loop `for (i = 0; i < n; ++i) if (p(i)) return i;`, which several programs write out.
use Prim.Native.Nat.{ℕ, zero, suc, ◌+◌, ◌≤◌, ◌<◌}
use mathlib.Core.Path.{◌≡◌, refl, subst}
use mathlib.Core.Bool.{Bool, true, false}
use mathlib.Core.Option.{Option, none, some}
use native.Mathlib.Omega.{arith}

-- The first index from `i` on, of `n` tried, at which the test passes.
unfoldable pub find_from : ℕ → ℕ → (ℕ → Bool) → Option ℕ
find_from zero i p = none
find_from (suc n) i p = elim (p i) [ true ↦ some i | false ↦ find_from n (suc i) p ]

abbrev pub find_index : ℕ → (ℕ → Bool) → Option ℕ
find_index n p = find_from n 0 p

-- What a search tells of its test: where it passes, or that it fails throughout.
abbrev pub Found : ℕ → ℕ → (ℕ → Bool) → Option ℕ → Type 0
Found n i p (some k) =
    (i ≤ k) × (k < i + n) × (p k ≡ true) × ((j : ℕ) → i ≤ j → j < k → p j ≡ false)
Found n i p none = (j : ℕ) → i ≤ j → j < i + n → p j ≡ false

Found-later :
    (n i : ℕ) (p : ℕ → Bool) (r : Option ℕ)
    → p i ≡ false
    → Found n (suc i) p r
    → Found (suc n) i p r
Found-later n i p (some k) e (a, b, c, d) =
    (omega arith, omega arith, c, λ j lo hi. ground (arith, d j))
Found-later n i p none e d = λ j lo hi. ground (arith, d j)

pub find_from-Found : (n i : ℕ) (p : ℕ → Bool) → Found n i p (find_from n i p)
unfolding find_from
find_from-Found zero i p = λ j lo hi. absurd (omega arith)
find_from-Found (suc n) i p = Found-first (find_from-Found n (suc i) p) (p i) refl
  where
    Found-first :
        Found n (suc i) p (find_from n (suc i) p)
        → (b : Bool) → p i ≡ b
        → Found (suc n) i p (elim b [ true ↦ some i | false ↦ find_from n (suc i) p ])
    Found-first rest true e = (omega arith, omega arith, e, λ j lo hi. absurd (omega arith))
    Found-first rest false e = Found-later n i p (find_from n (suc i) p) e rest

-- A search that succeeds, from an equation.
pub find_index-some :
    (n k : ℕ) (p : ℕ → Bool)
    → find_index n p ≡ some k
    → (k < n) × (p k ≡ true) × ((j : ℕ) → j < k → p j ≡ false)
find_index-some n k p e =
    let f : Found n 0 p (some k) = subst (Found n 0 p) e (find_from-Found n 0 p) in
    (omega (arith, f.1), f.2, λ j h. f.3 j (omega arith) h)

-- A search that fails, from an equation.
pub find_index-none : (n j : ℕ) (p : ℕ → Bool) → find_index n p ≡ none → j < n → p j ≡ false
find_index-none n j p e h =
    let f : Found n 0 p none = subst (Found n 0 p) e (find_from-Found n 0 p) in
    f j (omega arith) (omega arith)

-- A search succeeds if the test passes anywhere in its range.
pub find_index_total :
    (n j : ℕ) (p : ℕ → Bool) → j < n → p j ≡ true → (k : ℕ) × (find_index n p ≡ some k)
find_index_total n j p h t = go (find_index n p) refl
  where
    go : (r : Option ℕ) → find_index n p ≡ r → (k : ℕ) × (find_index n p ≡ some k)
    go (some k) e = (k, e)
    go none e = absurd (ground (arith, find_index-none n j p e h))
