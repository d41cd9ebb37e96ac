-- ===== src/Image/Files/Ending.antt =====
-- Whether `read_image` comes to an end.
use agh_sys_opy.Prelude.{
  ℕ, zero, suc, ◌+◌, ◌-◌, ◌<◌, ◌≤◌, ◌≡◌, refl, Bool, true, false, not, not-true, List, [], ◌∷◌,
  Option, none, some, length, ltb, ◌==◌, arith, Bool-cases, inl, inr, subst, lt→ltb, ◌≢◌,
}
use agh_sys_opy.Prelude.Int.{ℤ, pos, negsuc}
use agh_sys_opy.Text.{strtol, scan, tokens, add_token, fgets}
use agh_sys_opy.Text.Tokens.{Every}
use agh_sys_opy.Image.Pixels.{Image, size}
use agh_sys_opy.Image.Files.{
  max_line, Reading, Outcome, ok, exited, undefined, negative_size, out_of_fuel, is_delim,
  read_word, read_words, read_value, read_max, dimension, bind, is_comment, read_line, read_lines,
  read_image, unread,
}

abbrev no_hash : ℕ → Bool
no_hash c = not (c == b'#')

abbrev AllEvery : (ℕ → Bool) → List (List ℕ) → Type 0
AllEvery p [] = Unit
AllEvery p (w ∷ ws) = Every p w × AllEvery p ws

add_token-AllEvery :
    (p : ℕ → Bool) (w : List ℕ) (ts : List (List ℕ))
    → Every p w
    → AllEvery p ts
    → AllEvery p (add_token w ts)
add_token-AllEvery p [] ts h hs = hs
add_token-AllEvery p (c ∷ w) ts h hs = (h, hs)

scan-AllEvery :
    (p d : ℕ → Bool) (s : List ℕ) → Every p s → Every p (scan d s).0 × AllEvery p (scan d s).1
unfolding scan
scan-AllEvery p d [] h = (tt, tt)
scan-AllEvery p d (c ∷ s) h =
    let rest = scan-AllEvery p d s h.1 in
    elim (Bool-cases (d c)) [
      | inl e ↦ rw e (tt, add_token-AllEvery p (scan d s).0 (scan d s).1 rest.0 rest.1)
      | inr e ↦ rw e ((h.0, rest.0), rest.1)
    ]

tokens-AllEvery : (p d : ℕ → Bool) (s : List ℕ) → Every p s → AllEvery p (tokens d s)
unfolding tokens
tokens-AllEvery p d s h =
    let both = scan-AllEvery p d s h in add_token-AllEvery p (scan d s).0 (scan d s).1 both.0 both.1

fgets-Every :
    (p : ℕ → Bool) (n : ℕ) (file : List ℕ)
    → Every p file
    → Every p (fgets n file).0 × Every p (fgets n file).1
unfolding fgets
fgets-Every p zero file h = (tt, h)
fgets-Every p (suc n) [] h = (tt, tt)
fgets-Every p (suc n) (c ∷ file) h =
    let rest = fgets-Every p n file h.1 in
    elim (Bool-cases (c == 10)) [
      | inl e ↦ rw e ((h.0, tt), h.1)
      | inr e ↦ rw e ((h.0, rest.0), rest.1)
    ]

length-fgets : (n : ℕ) (file : List ℕ) → length (fgets n file).1 ≤ length file
unfolding fgets
length-fgets zero file = omega arith
length-fgets (suc n) [] = omega arith
length-fgets (suc n) (c ∷ file) = ground (arith, length-fgets n file)

length-fgets_cons : (n c : ℕ) (file : List ℕ) → length (fgets (suc n) (c ∷ file)).1 ≤ length file
unfolding fgets
length-fgets_cons n c file = ground (arith, length-fgets n file)

-- A run that ends, with a result that has the property if it has one.
abbrev Ends : {A : Type 0} → (A → Type 0) → Outcome A → Type 0
Ends P (ok a) = P a
Ends P exited = Unit
Ends P undefined = Unit
Ends P negative_size = Unit
Ends P out_of_fuel = ⊥

Ends-bind :
    {A B : Type 0} {P : A → Type 0} (Q : B → Type 0) (o : Outcome A) (f : A → Outcome B)
    → ((a : A) → P a → Ends Q (f a))
    → Ends P o
    → Ends Q (bind o f)
Ends-bind Q (ok a) f k h = k a h
Ends-bind Q exited f k h = tt
Ends-bind Q undefined f k h = tt
Ends-bind Q negative_size f k h = tt
Ends-bind Q out_of_fuel f k h = absurd h

abbrev Counts : Reading → Reading → Type 0
Counts r next = next.word_num ≡ suc r.word_num

dimension-Ends :
    (P : Reading → Type 0) (v : ℤ) (k : ℕ → Outcome Reading)
    → ((n : ℕ) → Ends P (k n))
    → Ends P (dimension v k)
unfolding dimension
dimension-Ends P (pos zero) k h = tt
dimension-Ends P (pos (suc n)) k h = h (suc n)
dimension-Ends P (negsuc n) k h = tt

read_max-Ends : (v : ℤ) (r : Reading) → Ends (Counts r) (read_max v r)
unfolding read_max
read_max-Ends (pos zero) r = tt
read_max-Ends (pos (suc n)) r = refl
read_max-Ends (negsuc n) r = refl

read_value-Ends : (i : ℕ) (v : ℤ) (r : Reading) → Ends (Counts r) (read_value i v r)
unfolding read_value
read_value-Ends i v r = elim (Bool-cases (ltb i (size r.image))) [
  | inl e ↦ rw e refl
  | inr e ↦ rw e tt
]

read_word-Ends : (n : ℕ) (token : List ℕ) (r : Reading) → Ends (Counts r) (read_word n token r)
unfolding read_word
read_word-Ends zero token r = refl
read_word-Ends (suc zero) token r = dimension-Ends (Counts r) (strtol token) _ (λ n. refl)
read_word-Ends (suc (suc zero)) token r = dimension-Ends (Counts r) (strtol token) _ (λ n. refl)
read_word-Ends (suc (suc (suc zero))) token r = read_max-Ends (strtol token) r
read_word-Ends (suc (suc (suc (suc i)))) token r = read_value-Ends i (strtol token) r

read_words-Ends :
    (n : ℕ) (ts : List (List ℕ)) (r : Reading)
    → n ≤ length ts + r.word_num
    → Ends (λ next. n ≤ next.word_num) (read_words ts r)
unfolding read_words
read_words-Ends n [] r h = omega arith
read_words-Ends n (t ∷ ts) r h =
    Ends-bind (λ next. n ≤ next.word_num) (read_word r.word_num t r) _
      (λ next e. read_words-Ends n ts next (omega arith)) (read_word-Ends r.word_num t r)

no_hash_comment : (w : List ℕ) → Every no_hash w → is_comment w ≡ false
no_hash_comment [] h = refl
no_hash_comment (c ∷ w) h = not-true (c == b'#') h.0

abbrev Advances : Reading → List ℕ × Reading → Type 0
Advances r p = Every no_hash p.0 × (r.word_num < p.1.word_num)

read_line-Ends :
    (ts : List (List ℕ)) (r : Reading) → AllEvery no_hash ts → Ends (Advances r) (read_line ts r)
unfolding read_line
read_line-Ends [] r h = tt
read_line-Ends (t ∷ ts) r h =
    rw (read_line, no_hash_comment t h.0)
      (Ends-bind (Advances r) (read_words (t ∷ ts) r) _ (λ next more. (h.0, more))
        (read_words-Ends (suc r.word_num) (t ∷ ts) r (omega arith)))

abbrev StaleEvery : (ℕ → Bool) → Option (List ℕ) → Type 0
StaleEvery p none = Unit
StaleEvery p (some w) = Every p w

abbrev Any : Image → Type 0
Any img = Unit

read_lines-Ends :
    (fuel : ℕ) (file : List ℕ) (stale : Option (List ℕ)) (r : Reading)
    → length file + (4 - r.word_num) < fuel
    → Every no_hash file
    → StaleEvery no_hash stale
    → Ends Any (read_lines fuel file stale r)
unfolding read_lines
read_lines-Ends zero file stale r enough h hs = absurd (omega arith)
read_lines-Ends (suc fuel) [] none r enough h hs = tt
read_lines-Ends (suc fuel) [] (some w) r enough h hs = elim (Bool-cases (ltb r.word_num 4)) [
  | inr e ↦ rw (read_lines, e) tt
  | inl e ↦
      rw (read_lines, e)
        (Ends-bind Any (read_line (w ∷ []) r) _
          (λ p adv. read_lines-Ends fuel [] (some p.0) p.1 (ground (arith, adv.1)) tt adv.0)
          (read_line-Ends (w ∷ []) r (hs, tt)))
]
read_lines-Ends (suc fuel) (c ∷ file) stale r enough h hs =
    let kept = fgets-Every no_hash (max_line - 1) (c ∷ file) h in
    Ends-bind Any (read_line (tokens is_delim (fgets (max_line - 1) (c ∷ file)).0) r) _
      (λ p adv.
        read_lines-Ends fuel (fgets (max_line - 1) (c ∷ file)).1 (some p.0) p.1
          (omega (arith, adv.1, length-fgets_cons (max_line - 2) c file)) kept.1 adv.0)
      (read_line-Ends (tokens is_delim (fgets (max_line - 1) (c ∷ file)).0) r
        (tokens-AllEvery no_hash is_delim (fgets (max_line - 1) (c ∷ file)).0 kept.0))

Ends-fuel : {A : Type 0} (P : A → Type 0) (o : Outcome A) → Ends P o → o ≢ out_of_fuel
Ends-fuel P o h e = subst (Ends P) e h

-- On a file without a '#', `read_image` does not go on for ever, whether it returns, exits, meets a
-- negative dimension or does something undefined: one unit of fuel for each byte of the file
-- and five more are enough.
pub read_image_ends :
    (fuel : ℕ) (file : List ℕ)
    → length file + 4 < fuel
    → Every (λ c. not (c == b'#')) file
    → read_image fuel file ≢ out_of_fuel
unfolding read_image
read_image_ends fuel file enough h =
    Ends-fuel Any (read_lines fuel file none unread)
      (read_lines-Ends fuel file none unread (omega arith) h tt)

-- At the end of a file where fewer than four words are read, and the last line was a comment,
-- `read_image` goes on with that comment for ever.
pub read_lines_endless :
    (fuel : ℕ) (token : List ℕ) (r : Reading)
    → is_comment token ≡ true
    → r.word_num < 4
    → read_lines fuel [] (some token) r ≡ out_of_fuel
unfolding read_lines read_line
read_lines_endless zero token r e h = refl
read_lines_endless (suc fuel) token r e h =
    rw (read_lines, read_line, lt→ltb r.word_num 4 h, e) (read_lines_endless fuel token r e h)
