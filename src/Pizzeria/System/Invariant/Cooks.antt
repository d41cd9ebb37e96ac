-- ===== src/Pizzeria/System/Invariant/Cooks.antt =====
-- A step of a cook keeps the invariant.
use agh_sys_opy.Prelude.{
  ℕ, ◌+◌, ◌<◌, ◌≡◌, ◌≢◌, refl, none, some, arith, write_at, sum_below, sum_below-write_at,
  sum_below-add, weight-le-sum_below,
}
use agh_sys_opy.Pizzeria.Kitchen.{oven_size, table_size, find_free_oven, find_free_table}
use agh_sys_opy.Pizzeria.Kitchen.Spots.{
  filled, find_free_oven-free, find_free_table-free, find_free_oven-none, find_free_table-none,
}
use agh_sys_opy.Pizzeria.System.{
  Cook, Deliverer, Shared, CookMove, enter_oven, place, place_lost, leave_oven, enter_both, move,
  move_lost, leave_both,
}
use agh_sys_opy.Pizzeria.System.Weights.{
  at_oven, at_table, has_space, bakes, will_place, will_move, bakes-will_place-le,
}
use agh_sys_opy.Pizzeria.System.Invariant.{Counts, Spots, spot_of}
use agh_sys_opy.Pizzeria.System.Invariant.Calls.{
  enter_oven-Changes, leave_oven-Changes, enter_both-Changes, leave_both-Changes,
}

-- The sums over the cooks, where the `i`th goes from `c` to `c'`.
record Sums (n i : ℕ) (cooks : ℕ → Cook) (c c' : Cook) : Type 0 where
  on_oven :
      sum_below at_oven n (write_at i c' cooks) + at_oven c ≡ sum_below at_oven n cooks + at_oven c'
  on_table :
      sum_below at_table n (write_at i c' cooks) + at_table c
      ≡ sum_below at_table n cooks + at_table c'
  on_space :
      sum_below has_space n (write_at i c' cooks) + has_space c
      ≡ sum_below has_space n cooks + has_space c'
  on_bakes : sum_below bakes n (write_at i c' cooks) + bakes c ≡ sum_below bakes n cooks + bakes c'
  on_moving :
      sum_below will_move n (write_at i c' cooks) + will_move c
      ≡ sum_below will_move n cooks + will_move c'

sums : (n i : ℕ) (cooks : ℕ → Cook) (c' : Cook) → i < n → Sums n i cooks (cooks i) c'
sums n i cooks c' lt = record {
  on_oven = sum_below-write_at at_oven n i c' cooks lt;
  on_table = sum_below-write_at at_table n i c' cooks lt;
  on_space = sum_below-write_at has_space n i c' cooks lt;
  on_bakes = sum_below-write_at bakes n i c' cooks lt;
  on_moving = sum_below-write_at will_move n i c' cooks lt;
}

module _ {n m : ℕ} {s : Shared} {cooks : ℕ → Cook} {deliverers : ℕ → Deliverer}
    (v : Counts n m s cooks deliverers) (w : Spots s cooks deliverers) (i : ℕ) (lt : i < n) where
  place_never_lost : {pizza : ℕ} → cooks i ≡ Cook.placing pizza → find_free_oven s.kitchen ≢ none
  place_never_lost e h = omega (
    arith,
    v,
    find_free_oven-none s.kitchen h,
    sum_below-add bakes has_space will_place bakes-will_place-le n cooks,
    weight-le-sum_below will_place n i cooks lt,
    placing,
  )
    where
      placing : will_place (cooks i) ≡ 1
      placing = rw e

  move_never_lost :
      {pizza spot : ℕ} → cooks i ≡ Cook.moving pizza spot → find_free_table s.kitchen ≢ none
  move_never_lost e h = omega (
    arith,
    v,
    find_free_table-none s.kitchen h,
    weight-le-sum_below will_move n i cooks lt,
    moving,
  )
    where
      moving : will_move (cooks i) ≡ 1
      moving = rw e

  CookMove-Counts :
      {s' : Shared} {c c' : Cook}
      → CookMove s c s' c'
      → cooks i ≡ c
      → Sums n i cooks c c'
      → Counts n m s' (write_at i c' cooks) deliverers
  CookMove-Counts (enter_oven pizza {sem} small h) e f =
      omega (arith, v, f, enter_oven-Changes s.sem sem h)
  CookMove-Counts (place {pizza} {spot} h) e f =
      let (inside, free) = find_free_oven-free s.kitchen spot h in
      ground
        (arith, v, f, sum_below-write_at filled oven_size spot (some pizza) s.kitchen.oven inside)
  CookMove-Counts (place_lost h) e f = absurd (place_never_lost e h)
  CookMove-Counts (leave_oven {sem = sem} h) e f =
      omega (arith, v, f, leave_oven-Changes s.sem sem h)
  CookMove-Counts (enter_both {sem = sem} h) e f =
      omega (arith, v, f, enter_both-Changes s.sem sem h)
  CookMove-Counts (move {pizza} {spot} {place} h) e f =
      let (inside, free) = find_free_table-free s.kitchen place h in
      let (here, there) = w.own i pizza spot (rw e) in
      ground (
        arith,
        v,
        f,
        sum_below-write_at filled oven_size spot none s.kitchen.oven here,
        sum_below-write_at filled table_size place (some pizza) s.kitchen.table inside,
      )
  CookMove-Counts (move_lost h) e f = absurd (move_never_lost e h)
  CookMove-Counts (leave_both {sem} h) e f = omega (arith, v, f, leave_both-Changes s.sem sem h)

  CookMove-Spots :
      {s' : Shared} {c c' : Cook}
      → CookMove s c s' c'
      → cooks i ≡ c
      → Spots s' (write_at i c' cooks) deliverers
  CookMove-Spots mv e = record {
    own = own' mv e;
    apart = apart' mv e;
    cooks_safe = safe' mv e;
    deliverers_safe = w.deliverers_safe;
  }
    where
      own' :
          {s' : Shared} {c c' : Cook}
          → CookMove s c s' c'
          → cooks i ≡ c
          → (j p spot : ℕ) → spot_of (write_at i c' cooks j) ≡ some (p, spot)
          → (spot < oven_size) × (s'.kitchen.oven spot ≡ some p)
      own' (enter_oven pizza small h) e j p spot q = ground (arith, w.own j p spot)
      own' (place {pizza} {spot = at} h) e j p spot q =
          ground (arith, w.own j p spot, find_free_oven-free s.kitchen at h)
      own' (place_lost h) e j p spot q = ground (arith, w.own j p spot)
      own' (leave_oven h) e j p spot q = ground (arith, w.own j p spot, w.own i p spot)
      own' (enter_both h) e j p spot q = ground (arith, w.own j p spot, w.own i p spot)
      own' (move {pizza} {spot = at} h) e j p spot q =
          ground (arith, w.own j p spot, w.apart i j pizza p spot)
      own' (move_lost h) e j p spot q = ground (arith, w.own j p spot)
      own' (leave_both h) e j p spot q = ground (arith, w.own j p spot)

      apart' :
          {s' : Shared} {c c' : Cook}
          → CookMove s c s' c'
          → cooks i ≡ c
          → (j k p q spot : ℕ) → spot_of (write_at i c' cooks j) ≡ some (p, spot)
          → spot_of (write_at i c' cooks k) ≡ some (q, spot)
          → j ≡ k
      apart' (place {pizza} {spot = at} h) e j k p q spot a b = ground (
        arith,
        w.apart j k p q spot,
        w.own j p spot,
        w.own k q spot,
        find_free_oven-free s.kitchen at h,
      )
      apart' (enter_oven pizza small h) e j k p q spot a b = ground (arith, w.apart j k p q spot)
      apart' (place_lost h) e j k p q spot a b = ground (arith, w.apart j k p q spot)
      apart' (leave_oven h) e j k p q spot a b = ground (arith, w.apart j k p q spot)
      apart' (enter_both h) e j k p q spot a b = ground (arith, w.apart j k p q spot)
      apart' (move h) e j k p q spot a b = ground (arith, w.apart j k p q spot)
      apart' (move_lost h) e j k p q spot a b = ground (arith, w.apart j k p q spot)
      apart' (leave_both h) e j k p q spot a b = ground (arith, w.apart j k p q spot)

      safe' :
          {s' : Shared} {c c' : Cook}
          → CookMove s c s' c'
          → cooks i ≡ c
          → (j : ℕ) → write_at i c' cooks j ≢ Cook.lost
      safe' (place_lost h) e j = absurd (place_never_lost e h)
      safe' (move_lost h) e j = absurd (move_never_lost e h)
      safe' (enter_oven pizza small h) e j = ground (arith, w.cooks_safe j)
      safe' (place h) e j = ground (arith, w.cooks_safe j)
      safe' (leave_oven h) e j = ground (arith, w.cooks_safe j)
      safe' (enter_both h) e j = ground (arith, w.cooks_safe j)
      safe' (move h) e j = ground (arith, w.cooks_safe j)
      safe' (leave_both h) e j = ground (arith, w.cooks_safe j)

  pub CookMove-Inv :
      {s' : Shared} {c' : Cook}
      → CookMove s (cooks i) s' c'
      → Counts n m s' (write_at i c' cooks) deliverers × Spots s' (write_at i c' cooks) deliverers
  CookMove-Inv {c'} mv = (CookMove-Counts mv refl (sums n i cooks c' lt), CookMove-Spots mv refl)
