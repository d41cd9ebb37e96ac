-- ===== src/Prelude/Tests.antt =====
-- Boolean tests on the native numbers, and the conditional.
use Prim.Native.Nat.{ℕ, ◌≤◌, ◌<◌, compare, Ordering}
use mathlib.Core.Path.{◌≡◌, refl, subst}
use mathlib.Core.Logic.{◌↔◌, ◌⊎◌, inl, inr}
use mathlib.Core.Bool.{Bool, true, false, not}
use mathlib.Core.Option.{Option, none, some}
use mathlib.Core.List.{List, [], ◌∷◌}
use native.Mathlib.Omega.{arith}

-- These compute to `compare`, which `ground` and `grind` read with no lemma listed.
abbrev pub ltb : ℕ → ℕ → Bool
ltb a b = elim (compare a b) [ Ordering.lt ↦ true | _ ↦ false ]

abbrev pub leb : ℕ → ℕ → Bool
leb a b = elim (compare a b) [ Ordering.gt ↦ false | _ ↦ true ]

infix 50 ◌==◌
abbrev pub ◌==◌ : ℕ → ℕ → Bool
a == b = elim (compare a b) [ Ordering.eq ↦ true | _ ↦ false ]

infix 1 if◌then◌else◌
abbrev pub if◌then◌else◌ {ℓ} : {A : Type ℓ} → Bool → A → A → A
if true then x else y = x
if false then x else y = y

-- `omega` reads a test through such lemmas.
pub ltb→lt : (a b : ℕ) → ltb a b ≡ true → a < b
ltb→lt a b h = ground arith

pub lt→ltb : (a b : ℕ) → a < b → ltb a b ≡ true
lt→ltb a b h = ground arith

pub leb→le : (a b : ℕ) → leb a b ≡ true → a ≤ b
leb→le a b h = ground arith

pub ==_iff : (a b : ℕ) → ((a == b) ≡ true) ↔ (a ≡ b)
==_iff a b = ground arith

pub ruleset tests = (arith, ltb→lt, lt→ltb, leb→le)

-- To split on a computed value and keep the equation.
pub Bool-cases : (b : Bool) → (b ≡ true) ⊎ (b ≡ false)
Bool-cases true = inl refl
Bool-cases false = inr refl

pub not-true : (b : Bool) → not b ≡ true → b ≡ false
not-true true h = absurd (ground (arith, h))
not-true false h = refl

pub Option-cases {ℓ} : {A : Type ℓ} (o : Option A) → (o ≡ none) ⊎ ((a : A) × (o ≡ some a))
Option-cases none = inl refl
Option-cases (some a) = inr (a, refl)

-- `!strcmp(s, t)` on the bytes before the terminating NUL.
abbrev pub str_eq : List ℕ → List ℕ → Bool
str_eq [] [] = true
str_eq [] (y ∷ ys) = false
str_eq (x ∷ xs) [] = false
str_eq (x ∷ xs) (y ∷ ys) = if x == y then str_eq xs ys else false

pub str_eq_refl : (s : List ℕ) → str_eq s s ≡ true
str_eq_refl [] = refl
str_eq_refl (x ∷ xs) = ground (arith, str_eq_refl xs)

pub str_eq→eq : (s t : List ℕ) → str_eq s t ≡ true → s ≡ t
str_eq→eq [] [] h = refl
str_eq→eq [] (y ∷ ys) h = ground arith
str_eq→eq (x ∷ xs) [] h = ground arith
str_eq→eq (x ∷ xs) (y ∷ ys) h = ground (arith, str_eq→eq xs ys)

-- A computation that may fail succeeds, with a result of which `P` holds.
abbrev pub Succeeds {ℓ} : {A : Type ℓ} → (A → Type 0) → Option A → Type 0
Succeeds P (some a) = P a
Succeeds P none = ⊥

pub Succeeds-weaken {ℓ} :
    {A : Type ℓ} {P Q : A → Type 0} (r : Option A)
    → ((a : A) → P a → Q a)
    → Succeeds P r
    → Succeeds Q r
Succeeds-weaken (some a) f h = f a h
Succeeds-weaken none f h = h

pub Succeeds-bind {ℓ κ} :
    {A : Type ℓ} {B : Type κ} {P : A → Type 0} (Q : B → Type 0) (r : Option A) (f : A → Option B)
    → ((a : A) → P a → Succeeds Q (f a))
    → Succeeds P r
    → Succeeds Q (elim r [ some a ↦ f a | none ↦ none ])
Succeeds-bind Q (some a) f h p = h a p
Succeeds-bind Q none f h p = p

pub Succeeds-some {ℓ} :
    {A : Type ℓ} (P : A → Type 0) {r : Option A} {a : A} → r ≡ some a → Succeeds P r → P a
Succeeds-some P e h = subst (Succeeds P) e h

-- A computation that may fail yields only results of which `P` holds.
abbrev pub Yields {ℓ} : {A : Type ℓ} → (A → Type 0) → Option A → Type 0
Yields P (some a) = P a
Yields P none = Unit

pub Succeeds-Yields {ℓ} :
    {A : Type ℓ} {P Q : A → Type 0} (r : Option A)
    → ((a : A) → P a → Q a)
    → Succeeds P r
    → Yields Q r
Succeeds-Yields (some a) f h = f a h
Succeeds-Yields none f h = tt

pub Yields-bind {ℓ κ} :
    {A : Type ℓ} {B : Type κ} {P : A → Type 0} (Q : B → Type 0) (r : Option A) (f : A → Option B)
    → ((a : A) → P a → Yields Q (f a))
    → Yields P r
    → Yields Q (elim r [ some a ↦ f a | none ↦ none ])
Yields-bind Q (some a) f h p = h a p
Yields-bind Q none f h p = tt

pub Yields-some {ℓ} :
    {A : Type ℓ} (P : A → Type 0) {r : Option A} {a : A} → r ≡ some a → Yields P r → P a
Yields-some P e h = subst (Yields P) e h
