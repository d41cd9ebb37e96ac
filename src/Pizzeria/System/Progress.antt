-- ===== src/Pizzeria/System/Progress.antt =====
-- The pizzeria of cw07/zad1 never deadlocks: some process can always go on.
use agh_sys_opy.Prelude.{
  ℕ, ◌+◌, ◌<◌, ◌≡◌, ◌≢◌, refl, ◌∷◌, [], none, arith, sum_below, sum_below_pos, dec_lt, Option-cases,
  inl, inr, sum_below-le,
}
use agh_sys_opy.Pizzeria.Kitchen.{
  down, up, semop, oven_used, oven_space, table_used, table_space, table_ready, find_free_oven,
  find_free_table, find_taken,
}
use agh_sys_opy.Pizzeria.Kitchen.Spots.{find_taken-taken}
use agh_sys_opy.Pizzeria.System.{
  Cook, Deliverer, Shared, System, Step, cook, deliverer, Reach, CookMove, DelivererMove,
  enter_oven, place, place_lost, leave_oven, enter_both, move, move_lost, leave_both, enter_table,
  take, take_lost, leave_table, deliver,
}
use agh_sys_opy.Pizzeria.System.Weights.{
  at_oven, at_table, has_space, will_move, will_move-le, at_table-le, will_take-le, has_taken-le,
  holds_table, will_take, has_taken,
}
use agh_sys_opy.Pizzeria.System.Safety.{Inv, Reach-Inv}

-- What the calls of `semop` need in order not to wait.
enter_oven_ready :
    (sem : ℕ → ℕ)
    → 0 < sem oven_used
    → 0 < sem oven_space
    → semop (down oven_used ∷ down oven_space ∷ []) sem ≢ none
unfolding semop
enter_oven_ready sem a b e = ground arith

enter_both_ready :
    (sem : ℕ → ℕ)
    → 0 < sem oven_used
    → 0 < sem table_used
    → 0 < sem table_space
    → semop (down oven_used ∷ down table_used ∷ down table_space ∷ up table_ready ∷ []) sem ≢ none
unfolding semop
enter_both_ready sem a b c e = ground arith

enter_table_ready :
    (sem : ℕ → ℕ)
    → 0 < sem table_used
    → 0 < sem table_ready
    → semop (down table_used ∷ down table_ready ∷ []) sem ≢ none
unfolding semop
enter_table_ready sem a b e = ground arith

-- A process between two calls of `semop` can go on.
abbrev CookGoes : Shared → Cook → Type 0
CookGoes s c = (s' : Shared) × (c' : Cook) × CookMove s c s' c'

abbrev DelivererGoes : Shared → Deliverer → Type 0
DelivererGoes s d = (s' : Shared) × (d' : Deliverer) × DelivererMove s d s' d'

at_oven_goes : (s : Shared) (c : Cook) → 0 < at_oven c → CookGoes s c
unfolding semop
at_oven_goes s (Cook.placing pizza) h = elim (Option-cases (find_free_oven s.kitchen)) [
  | inl e ↦ (_, _, place_lost e)
  | inr (spot, e) ↦ (_, _, place e)
]
at_oven_goes s (Cook.placed pizza spot) h = (_, _, leave_oven refl)
at_oven_goes s (Cook.moving pizza spot) h = elim (Option-cases (find_free_table s.kitchen)) [
  | inl e ↦ (_, _, move_lost e)
  | inr (spot, e) ↦ (_, _, move e)
]
at_oven_goes s Cook.moved h = (_, _, leave_both refl)
at_oven_goes s Cook.preparing h = absurd (omega arith)
at_oven_goes s (Cook.baking pizza spot) h = absurd (omega arith)
at_oven_goes s Cook.lost h = absurd (omega arith)

holds_table_goes : (s : Shared) (d : Deliverer) → 0 < holds_table d → DelivererGoes s d
unfolding semop
holds_table_goes s Deliverer.taking h = elim (Option-cases (find_taken s.kitchen)) [
  | inl e ↦ (_, _, take_lost e)
  | inr (spot, e) ↦
      let (inside, (pizza, there)) = find_taken-taken s.kitchen spot e in (_, _, take e there)
]
holds_table_goes s (Deliverer.taken pizza) h = (_, _, leave_table refl)
holds_table_goes s Deliverer.waiting h = absurd (omega arith)
holds_table_goes s (Deliverer.delivering pizza) h = absurd (omega arith)
holds_table_goes s Deliverer.lost h = absurd (omega arith)

-- With a pizza on the table and the table free, a deliverer who is not lost can go on.
deliverer_goes :
    (s : Shared) (d : Deliverer)
    → d ≢ Deliverer.lost
    → 0 < s.sem table_used
    → 0 < s.sem table_ready
    → DelivererGoes s d
deliverer_goes s Deliverer.waiting ne a b =
    elim (Option-cases (semop (down table_used ∷ down table_ready ∷ []) s.sem)) [
      | inl e ↦ absurd (enter_table_ready s.sem a b e)
      | inr (sem, e) ↦ (_, _, enter_table e)
    ]
deliverer_goes s (Deliverer.delivering pizza) ne a b = (_, _, deliver)
deliverer_goes s Deliverer.taking ne a b = holds_table_goes s Deliverer.taking (omega arith)
deliverer_goes s (Deliverer.taken pizza) ne a b =
    holds_table_goes s (Deliverer.taken pizza) (omega arith)
deliverer_goes s Deliverer.lost ne a b = absurd (ne refl)

-- With the oven and the table free and room on the table, a cook goes on who has a place in the
-- oven or finds one.
cook_goes :
    (s : Shared) (c : Cook)
    → c ≢ Cook.lost
    → 0 < s.sem oven_used
    → 0 < s.sem table_used
    → 0 < s.sem table_space
    → 0 < s.sem oven_space + has_space c
    → CookGoes s c
cook_goes s Cook.preparing ne a b d room =
    elim (Option-cases (semop (down oven_used ∷ down oven_space ∷ []) s.sem)) [
      | inl e ↦ absurd (enter_oven_ready s.sem a (omega arith) e)
      | inr (sem, e) ↦ (_, _, enter_oven 0 (omega arith) e)
    ]
cook_goes s (Cook.baking pizza spot) ne a b d room =
    elim (Option-cases
      (semop (down oven_used ∷ down table_used ∷ down table_space ∷ up table_ready ∷ []) s.sem)) [
        | inl e ↦ absurd (enter_both_ready s.sem a b d e)
        | inr (sem, e) ↦ (_, _, enter_both e)
      ]
cook_goes s (Cook.placing pizza) ne a b d room = at_oven_goes s (Cook.placing pizza) (omega arith)
cook_goes s (Cook.placed pizza spot) ne a b d room =
    at_oven_goes s (Cook.placed pizza spot) (omega arith)
cook_goes s (Cook.moving pizza spot) ne a b d room =
    at_oven_goes s (Cook.moving pizza spot) (omega arith)
cook_goes s Cook.moved ne a b d room = at_oven_goes s Cook.moved (omega arith)
cook_goes s Cook.lost ne a b d room = absurd (ne refl)

module _ {n m : ℕ} {s : System} (v : Inv n m s) where
  -- One step of the whole system.
  abbrev Goes : Type 0
  Goes = (s' : System) × Step n m s s'

  cook_steps : (i : ℕ) → i < n → CookGoes s.shared (s.cooks i) → Goes
  cook_steps i lt (s', c', mv) = (_, cook i lt mv)

  deliverer_steps : (i : ℕ) → i < m → DelivererGoes s.shared (s.deliverers i) → Goes
  deliverer_steps i lt (s', d', mv) = (_, deliverer i lt mv)

  -- Nobody is at the oven or at the table.
  quiet_goes :
      0 < n
      → 0 < m
      → sum_below at_oven n s.cooks ≡ 0
      → sum_below holds_table m s.deliverers ≡ 0
      → Goes
  quiet_goes cooks_there deliverers_there o t = elim (dec_lt 0 (s.shared.sem table_ready)) [
    | yes pizza ↦
        deliverer_steps 0 deliverers_there
          (deliverer_goes s.shared (s.deliverers 0) (v.1.deliverers_safe 0) table_free pizza)
    | no nothing ↦ elim (dec_lt 0 (s.shared.sem oven_space)) [
      | yes space ↦ cook_steps 0 cooks_there (
          cook_goes s.shared (s.cooks 0) (v.1.cooks_safe 0) oven_free table_free (room nothing)
            (omega arith))
      | no full ↦
          let (i, lt, has) = sum_below_pos has_space n s.cooks (omega (arith, v.0.oven_room)) in
          cook_steps i lt (
            cook_goes s.shared (s.cooks i) (v.1.cooks_safe i) oven_free table_free (room nothing)
              (omega arith))
    ]
  ]
    where
      oven_free : 0 < s.shared.sem oven_used
      oven_free = omega (arith, v.0.oven_mutex)

      nobody : sum_below at_table n s.cooks ≡ 0
      nobody = omega (arith, sum_below-le at_table at_oven at_table-le n s.cooks)

      table_free : 0 < s.shared.sem table_used
      table_free = omega (arith, v.0.table_mutex, nobody)

      room : ¬ (0 < s.shared.sem table_ready) → 0 < s.shared.sem table_space
      room nothing = omega (
        arith,
        v.0.table_room,
        v.0.ready,
        nobody,
        sum_below-le will_move at_table will_move-le n s.cooks,
        sum_below-le will_take holds_table will_take-le m s.deliverers,
        sum_below-le has_taken holds_table has_taken-le m s.deliverers,
      )

  some_goes : 0 < n → 0 < m → Goes
  some_goes cooks_there deliverers_there = elim (dec_lt 0 (sum_below at_oven n s.cooks)) [
    | yes busy ↦
        let (i, lt, at) = sum_below_pos at_oven n s.cooks busy in
        cook_steps i lt (at_oven_goes s.shared (s.cooks i) at)
    | no quiet ↦ elim (dec_lt 0 (sum_below holds_table m s.deliverers)) [
      | yes busy ↦
          let (i, lt, at) = sum_below_pos holds_table m s.deliverers busy in
          deliverer_steps i lt (holds_table_goes s.shared (s.deliverers i) at)
      | no still ↦ quiet_goes cooks_there deliverers_there (omega arith) (omega arith)
    ]
  ]

-- There is no deadlock: with at least one cook and one deliverer, some process can move in every
-- reachable state.
pub no_deadlock :
    {n m : ℕ} {s : System} → 0 < n → 0 < m → Reach n m s → (s' : System) × Step n m s s'
no_deadlock cooks_there deliverers_there r = some_goes (Reach-Inv r) cooks_there deliverers_there
