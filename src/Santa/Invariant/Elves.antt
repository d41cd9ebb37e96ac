-- ===== src/Santa/Invariant/Elves.antt =====
-- A turn of an elf, start_routine_elf.
use agh_sys_opy.Prelude.{
  ℕ, suc, ◌<◌, ◌≡◌, ◌≢◌, refl, inl, inr, Bool, false, ◌&&◌, ltb, ◌==◌, write_at, write_at_self,
  write_at_ne, arith, sym, subst, ◌∙◌, ap, Bool-cases, ℕ_discrete,
}
use agh_sys_opy.Santa.{
  SantaThread, Elf, System, checking, delivering, helping, ended, counted, helped, kept_out,
  elf_num, elves_required, set_elf, elf_last, elf_turn,
}
use agh_sys_opy.Santa.Invariant.{SantaOk, place, InGroup, IsValid}

pub group_place : (i : ℕ) (e : Elf) → InGroup i e → i ≡ place e
group_place i e (inl h) = sym (ap place h)
group_place i e (inr h) = sym (ap place h)

away_outside : (i : ℕ) → InGroup i Elf.away → ⊥
away_outside i (inl h) = cc
away_outside i (inr h) = cc

kept_out_outside : (i : ℕ) → InGroup i kept_out → ⊥
kept_out_outside i (inl h) = cc
kept_out_outside i (inr h) = cc

-- What holds of the new place of one elf and the old places of the others.
at_write :
    (P : Elf → Type 0) (id j : ℕ) (e : Elf) (f : ℕ → Elf)
    → (id ≡ j → P e)
    → (id ≢ j → P (f j))
    → P (write_at id e f j)
at_write P id j e f same different = elim (ℕ_discrete id j) [
  | yes p ↦ subst P (sym (ap (λ k. write_at id e f k) (sym p) ∙ write_at_self id e f)) (same p)
  | no n ↦ subst P (sym (write_at_ne id j e f n)) (different n)
]

-- The elf `id` moves on, and leaves its place only where nobody is counted.
set_elf-IsValid :
    (id : ℕ) (e : Elf) (s : System)
    → IsValid s
    → place e < elves_required
    → ((i : ℕ) → i < s.elves → s.elves_id i ≡ id → InGroup i (s.elf id) → InGroup i e)
    → IsValid (set_elf id e s)
set_elf-IsValid id e s v fits stays = record {
  reindeers_wait = v.reindeers_wait;
  elves_fit = v.elves_fit;
  places_fit =
      λ j. at_write (λ x. place x < elves_required) id j e s.elf (λ _. fits) (λ _. v.places_fit j);
  group = λ i h. (
    (v.group i h).0,
    at_write (InGroup i) id (s.elves_id i) e s.elf
        (λ p. stays i h (sym p) (subst (λ k. InGroup i (s.elf k)) (sym p) (v.group i h).1))
        (λ _. (v.group i h).1),
  );
  santa_ok = v.santa_ok;
}

elf_last-IsValid :
    (id : ℕ) (s : System)
    → IsValid s
    → ((i : ℕ) → i < s.elves → s.elves_id i ≡ id → InGroup i (s.elf id) → ⊥)
    → IsValid (elf_last id s)
elf_last-IsValid id s v outside = elim (Bool-cases (s.elves == elves_required)) [
  | inl full ↦
      rw full (set_elf-IsValid id kept_out s v (omega arith) (λ i h p q. absurd (outside i h p q)))
  | inr room ↦
      rw room (set_elf-IsValid id Elf.away s v (omega arith) (λ i h p q. absurd (outside i h p q)))
]

new_elf :
    (r e e' : ℕ) (l : Bool) (t : SantaThread)
    → e < elves_required
    → SantaOk r e l t
    → SantaOk r e' l t
new_elf r e e' l (checking d) few ok = ok
new_elf r e e' l (delivering d) few ok = ok
new_elf r e e' l (helping d) few (_, _, full) = absurd (omega arith)
new_elf r e e' l (ended d) few ok = ok

-- An elf that is away takes the next place.
joins :
    (id : ℕ) (s : System)
    → id < elf_num
    → IsValid s
    → s.elves < elves_required
    → s.elf id ≡ Elf.away
    → IsValid (
        set_elf id
          (counted s.elves)
          (record s { elves = suc s.elves; elves_id = write_at s.elves id s.elves_id }))
joins id s few v room at = record {
  reindeers_wait = v.reindeers_wait;
  elves_fit = omega arith;
  places_fit = λ j.
      at_write (λ x. place x < elves_required) id j (counted s.elves) s.elf (λ _. room)
        (λ _. v.places_fit j);
  group = λ i h. elim (ℕ_discrete s.elves i) [
    | yes here ↦
        subst
          (λ k.
            (write_at s.elves id s.elves_id k < elf_num)
            × InGroup k (write_at id (counted s.elves) s.elf (write_at s.elves id s.elves_id k)))
          here
          (rw (write_at_self s.elves id s.elves_id, write_at_self id (counted s.elves) s.elf)
            (few, inl refl))
    | no before ↦
        let old = v.group i (omega arith) in
        rw (write_at_ne s.elves i id s.elves_id before) (
          old.0,
          at_write (InGroup i) id (s.elves_id i) (counted s.elves) s.elf
              (λ p. absurd (
                away_outside i
                  (subst (InGroup i) at (subst (λ k. InGroup i (s.elf k)) (sym p) old.1))))
              (λ _. old.1),
        )
  ];
  santa_ok = new_elf s.reindeers s.elves (suc s.elves) s.locked s.santa room v.santa_ok;
}

-- An elf whose number stands at its place, while somebody is counted, passes the test.
not_lost :
    (id : ℕ) (s : System) (index i : ℕ)
    → i ≡ index
    → i < s.elves
    → s.elves_id i ≡ id
    → ((s.elves_id index == id) && ltb 0 s.elves) ≡ false
    → ⊥
not_lost id s index i same h p lost =
    let q : s.elves_id index ≡ id = ap s.elves_id (sym same) ∙ p in ground (arith, lost)

pub elf_turn-IsValid :
    (id : ℕ) (s : System)
    → id < elf_num
    → IsValid s
    → (e : Elf) → s.elf id ≡ e
    → IsValid (elf_turn id s e)
elf_turn-IsValid id s few v Elf.away at = elim (Bool-cases (ltb s.elves elves_required)) [
  | inl room ↦ rw room (joins id s few v (ground (arith, room)) at)
  | inr full ↦
      rw full (elf_last-IsValid id s v (λ i h p q. away_outside i (subst (InGroup i) at q)))
]
elf_turn-IsValid id s few v (counted index) at =
    elim (Bool-cases ((s.elves_id index == id) && ltb 0 s.elves)) [
      | inl own ↦ rw own (
          set_elf-IsValid id (helped index) s v
            (subst (λ x. place x < elves_required) at (v.places_fit id))
            (λ i h p q.
              inr (ap helped (sym (group_place i (counted index) (subst (InGroup i) at q))))))
      | inr lost ↦ rw lost (
          elf_last-IsValid id s v (λ i h p q.
            not_lost id s index i (group_place i (counted index) (subst (InGroup i) at q)) h p
              lost))
    ]
elf_turn-IsValid id s few v (helped index) at = elim (Bool-cases (ltb 0 s.elves)) [
  | inl more ↦ rw more v
  | inr nobody ↦ rw nobody (elf_last-IsValid id s v (λ i h p q. absurd (ground (arith, nobody))))
]
elf_turn-IsValid id s few v kept_out at = elim (Bool-cases (ltb 0 s.elves)) [
  | inl more ↦ rw more v
  | inr nobody ↦
      rw nobody
        (set_elf-IsValid id Elf.away s v (omega arith) (λ i h p q. absurd (ground (arith, nobody))))
]
