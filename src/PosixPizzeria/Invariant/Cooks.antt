-- ===== src/PosixPizzeria/Invariant/Cooks.antt =====
-- A step of a cook of cw07/zad2 keeps the invariant.
use agh_sys_opy.Prelude.{
  ℕ, ◌+◌, ◌<◌, ◌≡◌, ◌≢◌, ◌⊎◌, inl, inr, refl, none, some, arith, write_at, sum_below,
  sum_below-write_at, sum_below-add, weight-le-sum_below,
}
use agh_sys_opy.Pizzeria.Kitchen.{oven_size, table_size, find_free_oven, find_free_table}
use agh_sys_opy.Pizzeria.Kitchen.Spots.{
  filled, find_free_oven-free, find_free_table-free, find_free_oven-none, find_free_table-none,
}
use agh_sys_opy.PosixPizzeria.{
  Cook, Deliverer, Shared, CookMove, wait_space, wait_oven, place, place_lost, post_oven,
  wait_oven_again, clear, post_space, wait_table_space, wait_table, move, move_lost, post_ready,
  post_oven_again, post_table,
}
use agh_sys_opy.PosixPizzeria.Weights.{
  at_oven, at_table, has_space, bakes, will_place, will_move, will_announce, bakes-will_place-le,
}
use agh_sys_opy.PosixPizzeria.Invariant.{Counts, Spots, spot_of}

-- The sums over the cooks, where the `i`th goes from `c` to `c'`.
record Sums (n i : ℕ) (cooks : ℕ → Cook) (c c' : Cook) : Type 0 where
  on_oven :
      sum_below at_oven n (write_at i c' cooks) + at_oven c ≡ sum_below at_oven n cooks + at_oven c'
  on_table :
      sum_below at_table n (write_at i c' cooks) + at_table c
      ≡ sum_below at_table n cooks + at_table c'
  on_space :
      sum_below has_space n (write_at i c' cooks) + has_space c
      ≡ sum_below has_space n cooks + has_space c'
  on_bakes : sum_below bakes n (write_at i c' cooks) + bakes c ≡ sum_below bakes n cooks + bakes c'
  on_moving :
      sum_below will_move n (write_at i c' cooks) + will_move c
      ≡ sum_below will_move n cooks + will_move c'
  on_moved :
      sum_below will_announce n (write_at i c' cooks) + will_announce c
      ≡ sum_below will_announce n cooks + will_announce c'

sums : (n i : ℕ) (cooks : ℕ → Cook) (c' : Cook) → i < n → Sums n i cooks (cooks i) c'
sums n i cooks c' lt = record {
  on_oven = sum_below-write_at at_oven n i c' cooks lt;
  on_table = sum_below-write_at at_table n i c' cooks lt;
  on_space = sum_below-write_at has_space n i c' cooks lt;
  on_bakes = sum_below-write_at bakes n i c' cooks lt;
  on_moving = sum_below-write_at will_move n i c' cooks lt;
  on_moved = sum_below-write_at will_announce n i c' cooks lt;
}

module _ {n m : ℕ} {s : Shared} {cooks : ℕ → Cook} {deliverers : ℕ → Deliverer}
    (v : Counts n m s cooks deliverers) (w : Spots s cooks deliverers) (i : ℕ) (lt : i < n) where
  place_never_lost : {pizza : ℕ} → cooks i ≡ Cook.placing pizza → find_free_oven s.kitchen ≢ none
  place_never_lost e h = omega (
    arith,
    v,
    find_free_oven-none s.kitchen h,
    sum_below-add bakes has_space will_place bakes-will_place-le n cooks,
    weight-le-sum_below will_place n i cooks lt,
    placing,
  )
    where
      placing : will_place (cooks i) ≡ 1
      placing = rw e

  move_never_lost : {pizza : ℕ} → cooks i ≡ Cook.moving pizza → find_free_table s.kitchen ≢ none
  move_never_lost e h = omega (
    arith,
    v,
    find_free_table-none s.kitchen h,
    weight-le-sum_below will_move n i cooks lt,
    moving,
  )
    where
      moving : will_move (cooks i) ≡ 1
      moving = rw e

  CookMove-Counts :
      {s' : Shared} {c c' : Cook}
      → CookMove s c s' c'
      → cooks i ≡ c
      → Sums n i cooks c c'
      → Counts n m s' (write_at i c' cooks) deliverers
  CookMove-Counts (wait_space pizza small h) e f = omega (arith, v, f)
  CookMove-Counts (wait_oven h) e f = omega (arith, v, f)
  CookMove-Counts (place {pizza} {spot} h) e f =
      let (inside, free) = find_free_oven-free s.kitchen spot h in
      ground
        (arith, v, f, sum_below-write_at filled oven_size spot (some pizza) s.kitchen.oven inside)
  CookMove-Counts (place_lost h) e f = absurd (place_never_lost e h)
  CookMove-Counts post_oven e f = omega (arith, v, f)
  CookMove-Counts (wait_oven_again h) e f = omega (arith, v, f)
  CookMove-Counts (clear {pizza} {spot}) e f =
      let (here, there) = w.own i pizza spot (rw e) in
      ground (arith, v, f, sum_below-write_at filled oven_size spot none s.kitchen.oven here)
  CookMove-Counts post_space e f = omega (arith, v, f)
  CookMove-Counts (wait_table_space h) e f = omega (arith, v, f)
  CookMove-Counts (wait_table h) e f = omega (arith, v, f)
  CookMove-Counts (move {pizza} {place} h) e f =
      let (inside, free) = find_free_table-free s.kitchen place h in
      ground (
        arith,
        v,
        f,
        sum_below-write_at filled table_size place (some pizza) s.kitchen.table inside,
      )
  CookMove-Counts (move_lost h) e f = absurd (move_never_lost e h)
  CookMove-Counts post_ready e f = omega (arith, v, f)
  CookMove-Counts post_oven_again e f = omega (arith, v, f)
  CookMove-Counts post_table e f = omega (arith, v, f)

  -- A move that leaves the oven alone.
  quiet :
      (s' : Shared) (c' : Cook)
      → s'.kitchen.oven ≡ s.kitchen.oven
      → (spot_of c' ≡ none) ⊎ (spot_of c' ≡ spot_of (cooks i))
      → c' ≢ Cook.lost
      → Spots s' (write_at i c' cooks) deliverers
  quiet s' c' same spot safe = record {
    own = λ j p at q. rw same (ground (arith, w.own j p at, w.own i p at));
    apart = λ j k p q at a b. ground (arith, w.apart j k p q at);
    cooks_safe = λ j. ground (arith, w.cooks_safe j);
    deliverers_safe = w.deliverers_safe;
  }

  CookMove-Spots :
      {s' : Shared} {c c' : Cook}
      → CookMove s c s' c'
      → cooks i ≡ c
      → Spots s' (write_at i c' cooks) deliverers
  CookMove-Spots (wait_space pizza small h) e = quiet _ _ refl (inl refl) (ground arith)
  CookMove-Spots (wait_oven h) e = quiet _ _ refl (inl refl) (ground arith)
  CookMove-Spots (place {pizza} {spot = at} h) e = record {
    own = λ j p spot q. ground (arith, w.own j p spot, find_free_oven-free s.kitchen at h);
    apart = λ j k p q spot a b. ground (
      arith,
      w.apart j k p q spot,
      w.own j p spot,
      w.own k q spot,
      find_free_oven-free s.kitchen at h,
    );
    cooks_safe = λ j. ground (arith, w.cooks_safe j);
    deliverers_safe = w.deliverers_safe;
  }
  CookMove-Spots (place_lost h) e = absurd (place_never_lost e h)
  CookMove-Spots post_oven e = quiet _ _ refl (inr (rw e)) (ground arith)
  CookMove-Spots (wait_oven_again h) e = quiet _ _ refl (inr (rw e)) (ground arith)
  CookMove-Spots (clear {pizza} {spot = at}) e = record {
    own = λ j p spot q. ground (arith, w.own j p spot, w.apart i j pizza p spot);
    apart = λ j k p q spot a b. ground (arith, w.apart j k p q spot);
    cooks_safe = λ j. ground (arith, w.cooks_safe j);
    deliverers_safe = w.deliverers_safe;
  }
  CookMove-Spots post_space e = quiet _ _ refl (inl refl) (ground arith)
  CookMove-Spots (wait_table_space h) e = quiet _ _ refl (inl refl) (ground arith)
  CookMove-Spots (wait_table h) e = quiet _ _ refl (inl refl) (ground arith)
  CookMove-Spots (move h) e = quiet _ _ refl (inl refl) (ground arith)
  CookMove-Spots (move_lost h) e = absurd (move_never_lost e h)
  CookMove-Spots post_ready e = quiet _ _ refl (inl refl) (ground arith)
  CookMove-Spots post_oven_again e = quiet _ _ refl (inl refl) (ground arith)
  CookMove-Spots post_table e = quiet _ _ refl (inl refl) (ground arith)

  pub CookMove-Inv :
      {s' : Shared} {c' : Cook}
      → CookMove s (cooks i) s' c'
      → Counts n m s' (write_at i c' cooks) deliverers × Spots s' (write_at i c' cooks) deliverers
  CookMove-Inv {c'} mv = (CookMove-Counts mv refl (sums n i cooks c' lt), CookMove-Spots mv refl)
