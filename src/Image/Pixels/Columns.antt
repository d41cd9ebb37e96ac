-- ===== src/Image/Pixels/Columns.antt =====
-- The pixels of each thread in the mode `block`: the columns are shared, and each pixel belongs to
-- exactly one thread.
use agh_sys_opy.Prelude.{
  ℕ, zero, suc, ◌+◌, ◌-◌, ◌*◌, ◌/◌, ◌<◌, ◌≤◌, ◌≡◌, refl, List, [], ◌∷◌, ◌++◌, ◌==◌, if◌then◌else◌,
  ltb, arith, ap, dec_lt, sum_below, sum_below_single, lt→ltb,
}
use native.Mathlib.Nat.{div-add-mod', mod-lt}
use agh_sys_opy.Image.Schedule.{occurs}
use agh_sys_opy.Image.Pixels.{Image, size, coef}

-- The pixels that the two loops of `start_routine_block` visit, in order.
abbrev pub column_rounds : ℕ → ℕ → ℕ → ℕ → List ℕ
column_rounds zero width bound j = []
column_rounds (suc fuel) width bound j =
    let rest = column_rounds fuel width bound (j + width) in if ltb j bound then j ∷ rest else []

abbrev pub block_rounds : ℕ → Image → ℕ → List ℕ
block_rounds zero img i = []
block_rounds (suc n) img i =
    let rest = block_rounds n img (suc i) in
    if ltb i img.width then column_rounds img.height img.width (size img) i ++ rest else []

-- The pixels of one thread.
abbrev pub thread_rounds : Image → ℕ → ℕ → List ℕ
thread_rounds img n t =
    if ltb t n then block_rounds (coef img.width n) img (t * coef img.width n) else []

-- Pixels `c + r * w` are told apart by their columns and rows.
in_row : (w c r q : ℕ) → c < w → r < q → c + r * w < q * w
in_row w c r q hc hr = grind arith

same_pixel : (w c r d q : ℕ) → c < w → d < w → c + r * w ≡ d + q * w → (c ≡ d) × (r ≡ q)
same_pixel w c r d q hc hd e = elim (dec_lt r q) [
  | yes lower ↦ absurd (omega (arith, in_row w c r q hc lower))
  | no le ↦ elim (dec_lt q r) [
    | yes higher ↦ absurd (omega (arith, in_row w d q r hd higher))
    | no ge ↦ let er : r ≡ q = omega arith in (omega (arith, ap (λ (x : ℕ). x * w) er), er)
  ]
]

occurs-append : (i : ℕ) (is js : List ℕ) → occurs i (is ++ js) ≡ occurs i is + occurs i js
occurs-append i [] js = omega arith
occurs-append i (j ∷ is) js = ground (arith, occurs-append i is js)

-- The column `d` from row `q` on holds each of its pixels once, and no other.
occurs-column :
    (fuel w h d q c r : ℕ)
    → q + fuel ≡ h
    → d < w
    → c < w
    → r < h
    → occurs (c + r * w) (column_rounds fuel w (w * h) (d + q * w))
      ≡ (if c == d then (if ltb r q then 0 else 1) else 0)
occurs-column zero w h d q c r e hd hc hr = ground arith
occurs-column (suc fuel) w h d q c r e hd hc hr =
    rw (again, lt→ltb (d + q * w) (w * h) (omega (arith, in_row w d q h hd (omega arith))))
      (ground (arith, occurs-column fuel w h d (suc q) c r, same_pixel w c r d q hc hd))
  where
    again : d + q * w + w ≡ d + suc q * w
    again = omega arith

-- The columns from `d` on, `n` of them as far as the image goes.
occurs-block :
    (n : ℕ) (img : Image) (d c r : ℕ)
    → c < img.width
    → r < img.height
    → occurs (c + r * img.width) (block_rounds n img d)
      ≡ (if ltb c d then 0 else if ltb c (d + n) then 1 else 0)
occurs-block zero img d c r hc hr = ground arith
occurs-block (suc n) img d c r hc hr = elim (dec_lt d img.width) [
  | no out ↦ ground arith
  | yes inside ↦
      rw (lt→ltb d img.width inside, occurs-append)
        (ground (arith, first inside, occurs-block n img (suc d) c r))
]
  where
    start : d + 0 * img.width ≡ d
    start = omega arith

    first :
        d < img.width
        → occurs (c + r * img.width) (column_rounds img.height img.width (size img) d)
          ≡ (if c == d then (if ltb r 0 then 0 else 1) else 0)
    first inside =
        rw start at
          (occurs-column img.height img.width img.height d 0 c r (omega arith) inside hc hr)

-- Each column belongs to one thread.
ceil-ge : (w n : ℕ) → 0 < n → w ≤ n * coef w n
ceil-ge w n h = omega (arith, div-add-mod' (w + n - 1) n, mod-lt (w + n - 1) h)

abbrev column_owner : ℕ → ℕ → ℕ → ℕ
column_owner w n c = c / coef w n

coef_pos : (w n c : ℕ) → 0 < n → c < w → 0 < coef w n
coef_pos w n c h hc = elim (dec_lt 0 (coef w n)) [
  | yes p ↦ p
  | no z ↦
      let e : coef w n ≡ 0 = omega arith in
      absurd (omega (arith, ceil-ge w n h, ap (λ (x : ℕ). n * x) e))
]

-- A quotient is below a bound.
div-lt_of_lt_mul : (c k n : ℕ) → c < n * k → c / k < n
div-lt_of_lt_mul c k n h = elim (dec_lt (c / k) n) [
  | yes p ↦ p
  | no ge ↦ absurd (grind (arith, div-add-mod' c k))
]

column_owner-lt : (w n c : ℕ) → 0 < n → c < w → column_owner w n c < n
column_owner-lt w n c h hc = div-lt_of_lt_mul c (coef w n) n (omega (arith, ceil-ge w n h))

mul_step : (k t q : ℕ) → t < q → t * k + k ≤ q * k
mul_step k t q h = grind arith

in_block :
    (c k t : ℕ)
    → 0 < k
    → ◌≡◌ {A = ℕ}
        (if ltb c (t * k) then 0 else if ltb c (t * k + k) then 1 else 0)
        (if t == c / k then 1 else 0)
in_block c k t h = elim (dec_lt t (c / k)) [
  | yes before ↦ ground (arith, div-add-mod' c k, mod-lt c h, mul_step k t (c / k) before)
  | no ge ↦ elim (dec_lt (c / k) t) [
    | yes beyond ↦ ground (arith, div-add-mod' c k, mod-lt c h, mul_step k (c / k) t beyond)
    | no le ↦ let e : t ≡ c / k = omega arith in rw e (ground (arith, div-add-mod' c k, mod-lt c h))
  ]
]

-- A thread visits a pixel once if it owns the column, and otherwise never.
occurs-thread :
    (img : Image) (n t c r : ℕ)
    → 0 < n
    → t < n
    → c < img.width
    → r < img.height
    → occurs (c + r * img.width) (thread_rounds img n t)
      ≡ (if t == column_owner img.width n c then 1 else 0)
occurs-thread img n t c r h ht hc hr =
    rw (lt→ltb t n ht, occurs-block _ img _ c r hc hr)
      (in_block c (coef img.width n) t (coef_pos img.width n c h hc))

-- All threads together visit each pixel once.
pub all_threads_once :
    (img : Image) (n c r : ℕ)
    → 0 < n
    → c < img.width
    → r < img.height
    → sum_below (occurs (c + r * img.width)) n (thread_rounds img n) ≡ 1
all_threads_once img n c r h hc hr =
    let k = column_owner img.width n c in
    let lt = column_owner-lt img.width n c h hc in
    omega (
      arith,
      sum_below_single (occurs (c + r * img.width)) n k (thread_rounds img n) lt
          (λ i hi ne. ground (arith, occurs-thread img n i c r h hi hc hr)),
      one k lt refl,
    )
  where
    one :
        (k : ℕ)
        → k < n
        → k ≡ column_owner img.width n c
        → occurs (c + r * img.width) (thread_rounds img n k) ≡ 1
    one k lt e = ground (arith, occurs-thread img n k c r h lt hc hr)
