-- ===== src/Pizzeria/System/Invariant/Deliverers.antt =====
-- A step of a deliverer keeps the invariant.
use agh_sys_opy.Prelude.{
  ℕ, ◌+◌, ◌<◌, ◌≡◌, ◌≢◌, refl, none, arith, write_at, sum_below, sum_below-write_at, sum_below-le,
  weight-le-sum_below,
}
use agh_sys_opy.Pizzeria.Kitchen.{table_size, find_taken}
use agh_sys_opy.Pizzeria.Kitchen.Spots.{filled, find_taken-taken, find_taken-none}
use agh_sys_opy.Pizzeria.System.{
  Cook, Deliverer, Shared, DelivererMove, enter_table, take, take_lost, leave_table, deliver,
}
use agh_sys_opy.Pizzeria.System.Weights.{
  at_table, will_move, holds_table, will_take, has_taken, will_move-le,
}
use agh_sys_opy.Pizzeria.System.Invariant.{Counts, Spots}
use agh_sys_opy.Pizzeria.System.Invariant.Calls.{enter_table-Changes, leave_table-Changes}

-- The sums over the deliverers, where the `i`th goes from `d` to `d'`.
record Sums (m i : ℕ) (deliverers : ℕ → Deliverer) (d d' : Deliverer) : Type 0 where
  on_table :
      sum_below holds_table m (write_at i d' deliverers) + holds_table d
      ≡ sum_below holds_table m deliverers + holds_table d'
  on_taking :
      sum_below will_take m (write_at i d' deliverers) + will_take d
      ≡ sum_below will_take m deliverers + will_take d'
  on_taken :
      sum_below has_taken m (write_at i d' deliverers) + has_taken d
      ≡ sum_below has_taken m deliverers + has_taken d'

sums :
    (m i : ℕ) (deliverers : ℕ → Deliverer) (d' : Deliverer)
    → i < m
    → Sums m i deliverers (deliverers i) d'
sums m i deliverers d' lt = record {
  on_table = sum_below-write_at holds_table m i d' deliverers lt;
  on_taking = sum_below-write_at will_take m i d' deliverers lt;
  on_taken = sum_below-write_at has_taken m i d' deliverers lt;
}

module _ {n m : ℕ} {s : Shared} {cooks : ℕ → Cook} {deliverers : ℕ → Deliverer}
    (v : Counts n m s cooks deliverers) (w : Spots s cooks deliverers) (i : ℕ) (lt : i < m) where
  take_never_lost : deliverers i ≡ Deliverer.taking → find_taken s.kitchen ≢ none
  take_never_lost e h = omega (
    arith,
    v,
    find_taken-none s.kitchen h,
    sum_below-le will_move at_table will_move-le n cooks,
    weight-le-sum_below will_take m i deliverers lt,
    weight-le-sum_below holds_table m i deliverers lt,
    taking,
    holding,
  )
    where
      taking : will_take (deliverers i) ≡ 1
      taking = rw e

      holding : holds_table (deliverers i) ≡ 1
      holding = rw e

  DelivererMove-Counts :
      {s' : Shared} {d d' : Deliverer}
      → DelivererMove s d s' d'
      → deliverers i ≡ d
      → Sums m i deliverers d d'
      → Counts n m s' cooks (write_at i d' deliverers)
  DelivererMove-Counts (enter_table {sem} h) e f =
      omega (arith, v, f, enter_table-Changes s.sem sem h)
  DelivererMove-Counts (take {place} {pizza} h there) e f =
      let (inside, here) = find_taken-taken s.kitchen place h in
      ground (arith, v, f, sum_below-write_at filled table_size place none s.kitchen.table inside)
  DelivererMove-Counts (take_lost h) e f = absurd (take_never_lost e h)
  DelivererMove-Counts (leave_table {sem = sem} h) e f =
      omega (arith, v, f, leave_table-Changes s.sem sem h)
  DelivererMove-Counts deliver e f = omega (arith, v, f)

  DelivererMove-oven :
      {s' : Shared} {d d' : Deliverer} → DelivererMove s d s' d' → s'.kitchen.oven ≡ s.kitchen.oven
  DelivererMove-oven (enter_table h) = refl
  DelivererMove-oven (take h there) = refl
  DelivererMove-oven (take_lost h) = refl
  DelivererMove-oven (leave_table h) = refl
  DelivererMove-oven deliver = refl

  DelivererMove-safe :
      {s' : Shared} {d d' : Deliverer}
      → DelivererMove s d s' d'
      → deliverers i ≡ d
      → d' ≢ Deliverer.lost
  DelivererMove-safe (enter_table h) e = ground arith
  DelivererMove-safe (take h there) e = ground arith
  DelivererMove-safe (take_lost h) e = absurd (take_never_lost e h)
  DelivererMove-safe (leave_table h) e = ground arith
  DelivererMove-safe deliver e = ground arith

  DelivererMove-Spots :
      {s' : Shared} {d d' : Deliverer}
      → DelivererMove s d s' d'
      → deliverers i ≡ d
      → Spots s' cooks (write_at i d' deliverers)
  DelivererMove-Spots mv e = record {
    own = λ j p spot q. rw (DelivererMove-oven mv) (w.own j p spot q);
    apart = w.apart;
    cooks_safe = w.cooks_safe;
    deliverers_safe = λ j. ground (arith, DelivererMove-safe mv e, w.deliverers_safe j);
  }

  pub DelivererMove-Inv :
      {s' : Shared} {d' : Deliverer}
      → DelivererMove s (deliverers i) s' d'
      → Counts n m s' cooks (write_at i d' deliverers) × Spots s' cooks (write_at i d' deliverers)
  DelivererMove-Inv {d'} mv =
      (DelivererMove-Counts mv refl (sums m i deliverers d' lt), DelivererMove-Spots mv refl)
