-- ===== src/PosixPizzeria/Progress.antt =====
-- The pizzeria of cw07/zad2 never deadlocks, although its semaphores are taken one at a time.
use agh_sys_opy.Prelude.{
  ℕ, ◌+◌, ◌<◌, ◌≡◌, ◌≢◌, refl, arith, sum_below, sum_below_pos, dec_lt, Option-cases, inl, inr,
  sum_below-le,
}
use agh_sys_opy.Pizzeria.Kitchen.{
  oven_used, oven_space, table_used, table_space, table_ready, find_free_oven, find_free_table,
  find_taken,
}
use agh_sys_opy.Pizzeria.Kitchen.Spots.{find_taken-taken}
use agh_sys_opy.PosixPizzeria.{
  Cook, Deliverer, Shared, System, Step, cook, deliverer, Reach, CookMove, DelivererMove,
  wait_space, wait_oven, place, place_lost, post_oven, wait_oven_again, clear, post_space,
  wait_table_space, wait_table, move, move_lost, post_ready, post_oven_again, post_table,
  wait_ready, take, take_lost, post_table_space, deliver,
}
use agh_sys_opy.PosixPizzeria.Weights.{
  at_oven, at_table, has_space, will_move, will_announce, will_move-le, will_announce-le,
  has_taken-le, holds_table, will_take, has_taken,
}
use agh_sys_opy.PosixPizzeria.Safety.{Inv, Reach-Inv}

abbrev CookGoes : Shared → Cook → Type 0
CookGoes s c = (s' : Shared) × (c' : Cook) × CookMove s c s' c'

abbrev DelivererGoes : Shared → Deliverer → Type 0
DelivererGoes s d = (s' : Shared) × (d' : Deliverer) × DelivererMove s d s' d'

placing_goes : (s : Shared) (pizza : ℕ) → CookGoes s (Cook.placing pizza)
placing_goes s pizza = elim (Option-cases (find_free_oven s.kitchen)) [
  | inl e ↦ (_, _, place_lost e)
  | inr (spot, e) ↦ (_, _, place e)
]

moving_goes : (s : Shared) (pizza : ℕ) → CookGoes s (Cook.moving pizza)
moving_goes s pizza = elim (Option-cases (find_free_table s.kitchen)) [
  | inl e ↦ (_, _, move_lost e)
  | inr (spot, e) ↦ (_, _, move e)
]

-- What the next `sem_wait` of a cook needs.
abbrev CanWait : Shared → Cook → Type 0
CanWait s Cook.preparing = 0 < s.sem oven_space
CanWait s (Cook.entering _) = 0 < s.sem oven_used
CanWait s (Cook.baking _ _) = 0 < s.sem oven_used
CanWait s (Cook.lifting _) = 0 < s.sem table_space
CanWait s (Cook.choosing _) = 0 < s.sem table_used
CanWait s _ = Unit

cook_goes : (s : Shared) (c : Cook) → c ≢ Cook.lost → CanWait s c → CookGoes s c
cook_goes s Cook.preparing ne h = (_, _, wait_space 0 (omega arith) h)
cook_goes s (Cook.entering pizza) ne h = (_, _, wait_oven h)
cook_goes s (Cook.placing pizza) ne h = placing_goes s pizza
cook_goes s (Cook.placed pizza spot) ne h = (_, _, post_oven)
cook_goes s (Cook.baking pizza spot) ne h = (_, _, wait_oven_again h)
cook_goes s (Cook.reaching pizza spot) ne h = (_, _, clear)
cook_goes s (Cook.cleared pizza) ne h = (_, _, post_space)
cook_goes s (Cook.lifting pizza) ne h = (_, _, wait_table_space h)
cook_goes s (Cook.choosing pizza) ne h = (_, _, wait_table h)
cook_goes s (Cook.moving pizza) ne h = moving_goes s pizza
cook_goes s Cook.moved ne h = (_, _, post_ready)
cook_goes s Cook.announced ne h = (_, _, post_oven_again)
cook_goes s Cook.leaving ne h = (_, _, post_table)
cook_goes s Cook.lost ne h = absurd (ne refl)

-- With the table taken, a cook waits for nothing; with the oven taken, for the table at most.
at_table-CanWait : (s : Shared) (c : Cook) → 0 < at_table c → CanWait s c
at_table-CanWait s c h = ground arith

at_oven-CanWait :
    (s : Shared) (c : Cook)
    → 0 < at_oven c
    → 0 < s.sem table_used
    → 0 < s.sem table_space
    → CanWait s c
at_oven-CanWait s c h t p = ground arith

-- With nobody at the oven or at the table, a cook waits for space in the oven at most.
quiet-CanWait :
    (s : Shared) (c : Cook)
    → 0 < s.sem oven_used
    → 0 < s.sem table_used
    → 0 < s.sem table_space
    → 0 < s.sem oven_space + has_space c
    → CanWait s c
quiet-CanWait s c o t p room = ground arith

holds_table_goes : (s : Shared) (d : Deliverer) → 0 < holds_table d → DelivererGoes s d
holds_table_goes s Deliverer.taking h = elim (Option-cases (find_taken s.kitchen)) [
  | inl e ↦ (_, _, take_lost e)
  | inr (spot, e) ↦
      let (inside, (pizza, there)) = find_taken-taken s.kitchen spot e in (_, _, take e there)
]
holds_table_goes s (Deliverer.taken pizza) h = (_, _, post_table_space)
holds_table_goes s (Deliverer.stepping_back pizza) h = (_, _, post_table)
holds_table_goes s Deliverer.waiting h = absurd (omega arith)
holds_table_goes s Deliverer.approaching h = absurd (omega arith)
holds_table_goes s (Deliverer.delivering pizza) h = absurd (omega arith)
holds_table_goes s Deliverer.lost h = absurd (omega arith)

-- With the table free, a deliverer waits for a pizza at most.
deliverer_goes :
    (s : Shared) (d : Deliverer)
    → d ≢ Deliverer.lost
    → 0 < s.sem table_used
    → 0 < s.sem table_ready + will_take d
    → DelivererGoes s d
deliverer_goes s Deliverer.waiting ne t h = (_, _, wait_ready (omega arith))
deliverer_goes s Deliverer.approaching ne t h = (_, _, wait_table t)
deliverer_goes s Deliverer.taking ne t h = holds_table_goes s Deliverer.taking (omega arith)
deliverer_goes s (Deliverer.taken pizza) ne t h = (_, _, post_table_space)
deliverer_goes s (Deliverer.stepping_back pizza) ne t h = (_, _, post_table)
deliverer_goes s (Deliverer.delivering pizza) ne t h = (_, _, deliver)
deliverer_goes s Deliverer.lost ne t h = absurd (ne refl)

module _ {n m : ℕ} {s : System} (v : Inv n m s) where
  abbrev Goes : Type 0
  Goes = (s' : System) × Step n m s s'

  cook_steps : (i : ℕ) → i < n → CanWait s.shared (s.cooks i) → Goes
  cook_steps i lt can =
      let (s', c', mv) = cook_goes s.shared (s.cooks i) (v.1.cooks_safe i) can in (_, cook i lt mv)

  deliverer_steps : (i : ℕ) → i < m → DelivererGoes s.shared (s.deliverers i) → Goes
  deliverer_steps i lt (s', d', mv) = (_, deliverer i lt mv)

  module _ (t : sum_below at_table n s.cooks ≡ 0)
      (h : sum_below holds_table m s.deliverers ≡ 0) where
    table_free : 0 < s.shared.sem table_used
    table_free = omega (arith, v.0.table_mutex)

    -- Without a pizza on the table there is room on it, since one cook at most is about to use it.
    table_has_room :
        s.shared.sem table_ready ≡ 0
        → sum_below will_take m s.deliverers ≡ 0
        → 0 < s.shared.sem table_space
    table_has_room nothing nobody = omega (
      arith,
      v.0.table_room,
      v.0.ready,
      v.0.oven_mutex,
      sum_below-le will_move at_oven will_move-le n s.cooks,
      sum_below-le will_announce at_table will_announce-le n s.cooks,
      sum_below-le has_taken holds_table has_taken-le m s.deliverers,
    )

    -- Nobody is at the oven or at the table.
    quiet_goes : 0 < n → 0 < s.shared.sem table_space → sum_below at_oven n s.cooks ≡ 0 → Goes
    quiet_goes cooks_there room o = elim (dec_lt 0 (s.shared.sem oven_space)) [
      | yes space ↦
          cook_steps 0 cooks_there
            (quiet-CanWait s.shared (s.cooks 0) oven_free table_free room (omega arith))
      | no full ↦
          let (i, lt, has) = sum_below_pos has_space n s.cooks (omega (arith, v.0.oven_room)) in
          cook_steps i lt
            (quiet-CanWait s.shared (s.cooks i) oven_free table_free room (omega arith))
    ]
      where
        oven_free : 0 < s.shared.sem oven_used
        oven_free = omega (arith, v.0.oven_mutex)

    no_pizza_goes : 0 < n → 0 < s.shared.sem table_space → Goes
    no_pizza_goes cooks_there room = elim (dec_lt 0 (sum_below at_oven n s.cooks)) [
      | yes busy ↦
          let (i, lt, at) = sum_below_pos at_oven n s.cooks busy in
          cook_steps i lt (at_oven-CanWait s.shared (s.cooks i) at table_free room)
      | no quiet ↦ quiet_goes cooks_there room (omega arith)
    ]

    table_free_goes : 0 < n → 0 < m → Goes
    table_free_goes cooks_there deliverers_there = elim (dec_lt 0 (s.shared.sem table_ready)) [
      | yes pizza ↦ deliverer_steps 0 deliverers_there (
          deliverer_goes s.shared (s.deliverers 0) (v.1.deliverers_safe 0) table_free (omega arith))
      | no nothing ↦ elim (dec_lt 0 (sum_below will_take m s.deliverers)) [
        | yes someone ↦
            let (i, lt, at) = sum_below_pos will_take m s.deliverers someone in
            deliverer_steps i lt (
              deliverer_goes s.shared (s.deliverers i) (v.1.deliverers_safe i) table_free
                (omega arith))
        | no nobody ↦ no_pizza_goes cooks_there (table_has_room (omega arith) (omega arith))
      ]
    ]

  some_goes : 0 < n → 0 < m → Goes
  some_goes cooks_there deliverers_there = elim (dec_lt 0 (sum_below at_table n s.cooks)) [
    | yes busy ↦
        let (i, lt, at) = sum_below_pos at_table n s.cooks busy in
        cook_steps i lt (at_table-CanWait s.shared (s.cooks i) at)
    | no quiet ↦ elim (dec_lt 0 (sum_below holds_table m s.deliverers)) [
      | yes busy ↦
          let (i, lt, at) = sum_below_pos holds_table m s.deliverers busy in
          deliverer_steps i lt (holds_table_goes s.shared (s.deliverers i) at)
      | no still ↦ table_free_goes (omega arith) (omega arith) cooks_there deliverers_there
    ]
  ]

-- Over POSIX semaphores, which are taken one at a time, from left to right, there is no deadlock: with
-- at least one cook and one deliverer, some process can move in every reachable state.
pub someone_moves :
    {n m : ℕ} {s : System} → 0 < n → 0 < m → Reach n m s → (s' : System) × Step n m s s'
someone_moves cooks_there deliverers_there r = some_goes (Reach-Inv r) cooks_there deliverers_there
