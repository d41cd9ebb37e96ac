-- ===== src/Pizzeria/System/Safety.antt =====
-- What holds in every state that the cooks and deliverers of cw07/zad1 can reach.
use agh_sys_opy.Prelude.{
  ℕ, ◌+◌, ◌<◌, ◌≤◌, ◌≡◌, ◌≢◌, refl, none, some, arith, sum_below, sum_below_nothing,
  two_weights-le-sum_below, weight-le-sum_below, ℕ_discrete, sum_below-le,
}
use agh_sys_opy.Pizzeria.Kitchen.{oven_size, table_size}
use agh_sys_opy.Pizzeria.Kitchen.Spots.{filled}
use agh_sys_opy.Pizzeria.System.{
  Cook, Deliverer, System, Step, cook, deliverer, initial, Reach, start, later,
}
use agh_sys_opy.Pizzeria.System.Weights.{
  at_oven, at_table, has_space, bakes, will_move, holds_table, will_take, has_taken,
}
use agh_sys_opy.Pizzeria.System.Invariant.{Counts, Spots, spot_of}
use agh_sys_opy.Pizzeria.System.Invariant.Cooks.{CookMove-Inv}
use agh_sys_opy.Pizzeria.System.Invariant.Deliverers.{DelivererMove-Inv}

abbrev pub Inv : ℕ → ℕ → System → Type 0
Inv n m s = Counts n m s.shared s.cooks s.deliverers × Spots s.shared s.cooks s.deliverers

initial-Inv : (n m : ℕ) → Inv n m initial
initial-Inv n m = (
  record {
    oven_mutex = omega (arith, sum_below_nothing at_oven n Cook.preparing refl);
    table_mutex = omega (
      arith,
      sum_below_nothing at_table n Cook.preparing refl,
      sum_below_nothing holds_table m Deliverer.waiting refl,
    );
    oven_room = omega (arith, sum_below_nothing has_space n Cook.preparing refl);
    table_room = omega (
      arith,
      sum_below_nothing filled table_size none refl,
      sum_below_nothing will_move n Cook.preparing refl,
      sum_below_nothing has_taken m Deliverer.waiting refl,
    );
    ready = omega (
      arith,
      sum_below_nothing filled table_size none refl,
      sum_below_nothing will_move n Cook.preparing refl,
      sum_below_nothing will_take m Deliverer.waiting refl,
    );
    oven_count = omega (arith, sum_below_nothing filled oven_size none refl);
    table_count = omega (arith, sum_below_nothing filled table_size none refl);
    baking = omega (
      arith,
      sum_below_nothing filled oven_size none refl,
      sum_below_nothing bakes n Cook.preparing refl,
    );
  },
  record {
    own = λ i p spot. cc;
    apart = λ i j p q spot. cc;
    cooks_safe = λ i. cc;
    deliverers_safe = λ i. cc;
  },
)

-- Every step keeps the equations between semaphores, counters, spots and processes.
pub Step-Inv : {n m : ℕ} {s s' : System} → Step n m s s' → Inv n m s → Inv n m s'
Step-Inv (cook i lt mv) (v, w) = CookMove-Inv v w i lt mv
Step-Inv (deliverer i lt mv) (v, w) = DelivererMove-Inv v w i lt mv

pub Reach-Inv : {n m : ℕ} {s : System} → Reach n m s → Inv n m s
Reach-Inv {n} {m} start = initial-Inv n m
Reach-Inv (later r st) = Step-Inv st (Reach-Inv r)

-- No search of a cook or a deliverer ever comes back with -1: no process writes at the index -1 of
-- the oven or of the table.
pub never_lost :
    {n m : ℕ} {s : System}
    → Reach n m s
    → (i : ℕ) → (s.cooks i ≢ Cook.lost) × (s.deliverers i ≢ Deliverer.lost)
never_lost r i = let (v, w) = Reach-Inv r in (w.cooks_safe i, w.deliverers_safe i)

-- Two cooks are never both between two calls of `semop` at the oven.
pub oven_exclusion :
    {n m : ℕ} {s : System}
    → Reach n m s
    → (i j : ℕ) → i < n
    → j < n
    → at_oven (s.cooks i) ≡ 1
    → at_oven (s.cooks j) ≡ 1
    → i ≡ j
oven_exclusion {n} {s} r i j lt lt' a b = elim (ℕ_discrete i j) [
  | yes e ↦ e
  | no ne ↦
      let (v, w) = Reach-Inv r in
      absurd (omega (arith, v.oven_mutex, two_weights-le-sum_below at_oven n i j s.cooks lt lt' ne))
]

-- A cook and a deliverer are never both at the table, and neither are two of the same kind.
pub table_exclusion :
    {n m : ℕ} {s : System}
    → Reach n m s
    → ((i j : ℕ) → i < n → j < m → at_table (s.cooks i) + holds_table (s.deliverers j) ≤ 1)
      × ((i j : ℕ) → i < n → j < n → i ≢ j → at_table (s.cooks i) + at_table (s.cooks j) ≤ 1)
      × ((i j : ℕ)
          → i < m
          → j < m
          → i ≢ j
          → holds_table (s.deliverers i) + holds_table (s.deliverers j) ≤ 1)
table_exclusion {n} {m} {s} r =
    let (v, w) = Reach-Inv r in
    (
      λ i j lt lt'. omega (
        arith,
        v.table_mutex,
        weight-le-sum_below at_table n i s.cooks lt,
        weight-le-sum_below holds_table m j s.deliverers lt',
      ),
      λ i j lt lt' ne.
          omega (arith, v.table_mutex, two_weights-le-sum_below at_table n i j s.cooks lt lt' ne),
      λ i j lt lt' ne.
          omega (
            arith,
            v.table_mutex,
            two_weights-le-sum_below holds_table m i j s.deliverers lt lt' ne,
          ),
    )

-- Two cooks are never both between two calls of `semop` at the oven, a cook and a deliverer are never
-- both at the table, and neither are two of the same kind.
pub mutual_exclusion :
    {n m : ℕ} {s : System}
    → Reach n m s
    → ((i j : ℕ) → i < n → j < n → at_oven (s.cooks i) ≡ 1 → at_oven (s.cooks j) ≡ 1 → i ≡ j)
      × ((i j : ℕ) → i < n → j < m → at_table (s.cooks i) + holds_table (s.deliverers j) ≤ 1)
      × ((i j : ℕ) → i < n → j < n → i ≢ j → at_table (s.cooks i) + at_table (s.cooks j) ≤ 1)
      × ((i j : ℕ)
          → i < m
          → j < m
          → i ≢ j
          → holds_table (s.deliverers i) + holds_table (s.deliverers j) ≤ 1)
mutual_exclusion r = let (a, b, c) = table_exclusion r in (oven_exclusion r, a, b, c)

-- No search of a cook or a deliverer ever comes back with -1, and the two counters are the numbers of
-- pizzas in the oven and on the table, which never exceed the sizes of the arrays.
pub counters_exact :
    {n m : ℕ} {s : System}
    → Reach n m s
    → ((i : ℕ) → (s.cooks i ≢ Cook.lost) × (s.deliverers i ≢ Deliverer.lost))
      × (s.shared.kitchen.oven_quan ≡ sum_below filled oven_size s.shared.kitchen.oven)
      × (s.shared.kitchen.oven_quan ≤ oven_size)
      × (s.shared.kitchen.table_quan ≡ sum_below filled table_size s.shared.kitchen.table)
      × (s.shared.kitchen.table_quan ≤ table_size)
counters_exact {n} r =
    let (v, w) = Reach-Inv r in
    (
      never_lost r,
      v.oven_count,
      omega (arith, v, sum_below-le bakes has_space (λ c. ground arith) n _),
      v.table_count,
      omega (arith, v),
    )

-- The pizza that a cook has put into the oven lies at the spot that the cook remembers until the
-- cook takes it out.
-- No other cook remembers that spot.
pub pizza_kept :
    {n m : ℕ} {s : System}
    → Reach n m s
    → (i pizza spot : ℕ) → spot_of (s.cooks i) ≡ some (pizza, spot)
    → (spot < oven_size)
      × (s.shared.kitchen.oven spot ≡ some pizza)
      × ((j other : ℕ) → spot_of (s.cooks j) ≡ some (other, spot) → i ≡ j)
pizza_kept r i pizza spot e =
    let (v, w) = Reach-Inv r in
    let (inside, there) = w.own i pizza spot e in
    (inside, there, λ j other e'. w.apart i j pizza other spot e e')
