-- ===== src/Text/Tokens.antt =====
-- Lines of tokens with a delimiter between them, and what decimal numbers consist of.
use agh_sys_opy.Prelude.{
  sym, ap, some, ℕ, zero, suc, ◌+◌, ◌/◌, ◌%◌, ◌^◌, ◌<◌, ◌≤◌, ◌≡◌, refl, Bool, true, false, List, [],
  ◌∷◌, ◌++◌, append_assoc, append-nil, arith, ltb, ◌==◌, not, not-true, length, dec_lt, lt→ltb, ◌∙◌,
}
use native.Mathlib.Nat.{pow-succ'}
use agh_sys_opy.Prelude.Int.{ℤ, pos, negsuc}
use agh_sys_opy.Text.{
  digits, print_decimal, print_int, add_token, scan, tokens, fgets, getline, cut_at, skip_delim,
  strtok_at, strtol, read_signed,
}
use agh_sys_opy.Text.Decimal.{strtol-print_decimal, read_digits-print_decimal}

abbrev pub Every : (ℕ → Bool) → List ℕ → Type 0
Every p [] = Unit
Every p (c ∷ s) = (p c ≡ true) × Every p s

abbrev pub IsToken : (ℕ → Bool) → List ℕ → Type 0
IsToken p [] = ⊥
IsToken p (c ∷ s) = Every p (c ∷ s)

-- Words with a blank between them.
abbrev pub join_words : List (List ℕ) → List ℕ
join_words [] = []
join_words (w ∷ []) = w
join_words (w ∷ v ∷ ws) = w ++ (b' ' ∷ join_words (v ∷ ws))

-- Bytes that are no delimiters and no newlines.
pub Every-append : (p : ℕ → Bool) (s t : List ℕ) → Every p s → Every p t → Every p (s ++ t)
Every-append p [] t hs ht = ht
Every-append p (c ∷ s) t hs ht = (hs.0, Every-append p s t hs.1 ht)

pub Every-weaken :
    (p q : ℕ → Bool) (s : List ℕ) → ((c : ℕ) → p c ≡ true → q c ≡ true) → Every p s → Every q s
Every-weaken p q [] f h = tt
Every-weaken p q (c ∷ s) f h = (f c h.0, Every-weaken p q s f h.1)

pub IsToken-weaken :
    (p q : ℕ → Bool) (s : List ℕ) → ((c : ℕ) → p c ≡ true → q c ≡ true) → IsToken p s → IsToken q s
IsToken-weaken p q [] f h = h
IsToken-weaken p q (c ∷ s) f h = Every-weaken p q (c ∷ s) f h

-- A property of the digits is one of a number that is printed.
abbrev pub OfDigits : (ℕ → Bool) → Type 0
OfDigits p = (d : ℕ) → d < 10 → p (b'0' + d) ≡ true

digits-IsToken :
    (p : ℕ → Bool) (fuel n : ℕ) (rest : List ℕ)
    → OfDigits p
    → n < fuel
    → Every p rest
    → IsToken p (digits fuel n rest)
unfolding digits
digits-IsToken p zero n rest od h e = absurd (omega arith)
digits-IsToken p (suc fuel) n rest od h e = elim (dec_lt n 10) [
  | yes last ↦ rw (lt→ltb n 10 last) (od n last, e)
  | no more ↦ rw (big more) (
      digits-IsToken p fuel (n / 10) ((b'0' + n % 10) ∷ rest) od (omega arith)
        (od (n % 10) (omega arith), e))
]
  where
    big : (n < 10 → ⊥) → ltb n 10 ≡ false
    big more = ground arith

IsToken-cons : (p : ℕ → Bool) (c : ℕ) (s : List ℕ) → p c ≡ true → IsToken p s → IsToken p (c ∷ s)
IsToken-cons p c [] h t = absurd t
IsToken-cons p c (d ∷ s) h t = (h, t)

pub print_int-IsToken :
    (p : ℕ → Bool) (v : ℤ) → OfDigits p → p b'-' ≡ true → IsToken p (print_int v)
unfolding print_int print_decimal
print_int-IsToken p (pos n) od m = digits-IsToken p (suc n) n [] od (omega arith) tt
print_int-IsToken p (negsuc n) od m =
    IsToken-cons p b'-' _ m (digits-IsToken p (suc (suc n)) (suc n) [] od (omega arith) tt)

pub print_decimal-IsToken : (p : ℕ → Bool) (n : ℕ) → OfDigits p → IsToken p (print_decimal n)
unfolding print_decimal
print_decimal-IsToken p n od = digits-IsToken p (suc n) n [] od (omega arith) tt

-- One digit for each power of ten.
length-digits :
    (k fuel n : ℕ) (rest : List ℕ)
    → n < 10 ^ suc k
    → n < fuel
    → length (digits fuel n rest) ≤ suc k + length rest
unfolding digits
length-digits k zero n rest small h = absurd (omega arith)
length-digits zero (suc fuel) n rest small h =
    rw (lt→ltb n 10 (omega (arith, small, pow-succ' 10 0))) (omega arith)
length-digits (suc k) (suc fuel) n rest small h =
    let fewer : n / 10 < 10 ^ suc k = omega (arith, small, pow-succ' 10 (suc k)) in
    ground (arith, length-digits k fuel (n / 10) ((b'0' + n % 10) ∷ rest) fewer)

-- An `int` is printed with eleven bytes at most.
abbrev pub IsInt : ℤ → Type 0
IsInt (pos n) = n < 2 ^ 31
IsInt (negsuc n) = n < 2 ^ 31

pub print_decimal_fits : (n : ℕ) → n < 2 ^ 31 → length (print_decimal n) ≤ 10
unfolding print_decimal
print_decimal_fits n h = omega (arith, length-digits 9 (suc n) n [] (omega arith) (omega arith))

pub length-print_int : (v : ℤ) → IsInt v → length (print_int v) ≤ 11
unfolding print_int print_decimal
length-print_int (pos n) h = omega (arith, length-digits 9 (suc n) n [] (omega arith) (omega arith))
length-print_int (negsuc n) h =
    omega (arith, length-digits 9 (suc (suc n)) (suc n) [] (omega arith) (omega arith))

pub strtol-print_int : (v : ℤ) → strtol (print_int v) ≡ v
unfolding print_int strtol read_signed
strtol-print_int (pos n) = rw append-nil at (strtol-print_decimal n [] tt)
strtol-print_int (negsuc n) = rw (read_digits-print_decimal (suc n)) refl

-- The line that `fgets` reads.
pub fgets-line :
    (n : ℕ) (l rest : List ℕ)
    → length l < n
    → Every (λ c. not (c == 10)) l
    → fgets n (l ++ (10 ∷ rest)) ≡ (l ++ (10 ∷ []), rest)
unfolding fgets
fgets-line zero l rest h e = absurd (omega arith)
fgets-line (suc n) [] rest h e = refl
fgets-line (suc n) (c ∷ l) rest h e =
    rw (fgets-line n l rest (omega arith) e.1, not-true (c == 10) e.0) refl

pub fgets_last :
    (n : ℕ) (l : List ℕ) → length l ≤ n → Every (λ c. not (c == 10)) l → fgets n l ≡ (l, [])
unfolding fgets
fgets_last zero [] h e = refl
fgets_last zero (c ∷ l) h e = absurd (omega arith)
fgets_last (suc n) [] h e = refl
fgets_last (suc n) (c ∷ l) h e = rw (fgets_last n l (omega arith) e.1, not-true (c == 10) e.0) refl

-- A string without delimiters is one piece.
pub scan-Every :
    (d : ℕ → Bool) (w rest : List ℕ)
    → Every (λ c. not (d c)) w
    → scan d (w ++ rest) ≡ (w ++ (scan d rest).0, (scan d rest).1)
unfolding scan
scan-Every d [] rest e = refl
scan-Every d (c ∷ w) rest e = rw (scan-Every d w rest e.1, not-true (d c) e.0) refl

-- What separates words: a blank, and what stands at the end of a line.
abbrev pub Tokens : (ℕ → Bool) → List (List ℕ) → Type 0
Tokens d [] = Unit
Tokens d (w ∷ ws) = IsToken (λ c. not (d c)) w × Tokens d ws

pub IsToken-Every : (p : ℕ → Bool) (w : List ℕ) → IsToken p w → Every p w
IsToken-Every p [] h = absurd h
IsToken-Every p (c ∷ w) h = h

pub add_token-IsToken :
    (p : ℕ → Bool) (w : List ℕ) (ts : List (List ℕ)) → IsToken p w → add_token w ts ≡ w ∷ ts
add_token-IsToken p [] ts h = absurd h
add_token-IsToken p (c ∷ w) ts h = refl

scan_words :
    (d : ℕ → Bool) (w : List ℕ) (ws : List (List ℕ)) (end : List ℕ)
    → d b' ' ≡ true
    → scan d end ≡ ([], [])
    → Tokens d (w ∷ ws)
    → scan d (join_words (w ∷ ws) ++ end) ≡ (w, ws)
unfolding scan
scan_words d w [] end blank e h =
    scan-Every d w end (IsToken-Every _ w h.0) ∙ rw (e, append-nil) refl
scan_words d w (v ∷ ws) end blank e h =
    rw
      (
        append_assoc,
        scan-Every d w (b' ' ∷ (join_words (v ∷ ws) ++ end)) (IsToken-Every _ w h.0),
        scan,
        scan_words d v ws end blank e h.1,
        blank,
        add_token-IsToken _ v ws h.1.0,
        append-nil,
      )
      refl

-- The words of a line are its tokens.
pub tokens-join_words :
    (d : ℕ → Bool) (w : List ℕ) (ws : List (List ℕ)) (end : List ℕ)
    → d b' ' ≡ true
    → scan d end ≡ ([], [])
    → Tokens d (w ∷ ws)
    → tokens d (join_words (w ∷ ws) ++ end) ≡ w ∷ ws
unfolding tokens
tokens-join_words d w ws end blank e h =
    rw (tokens, scan_words d w ws end blank e h, add_token-IsToken _ w ws h.0) refl

-- The line that `getline` reads.
pub getline-Every :
    (l rest : List ℕ)
    → Every (λ c. not (c == 10)) l
    → getline (l ++ (10 ∷ rest)) ≡ (l ++ (10 ∷ []), rest)
unfolding getline
getline-Every [] rest h = refl
getline-Every (c ∷ l) rest h = rw (getline-Every l rest h.1, not-true (c == 10) h.0) refl

-- The string in front of a delimiter, and what is behind it.
pub cut_at-Every :
    (d : ℕ) (l rest : List ℕ)
    → Every (λ c. not (c == d)) l
    → (d == d) ≡ true
    → cut_at d (l ++ (d ∷ rest)) ≡ (l, rest)
unfolding cut_at
cut_at-Every d [] rest h e = rw e refl
cut_at-Every d (c ∷ l) rest h e = rw (cut_at-Every d l rest h.1 e, not-true (c == d) h.0) refl

pub strtok_at-Every :
    (d : ℕ) (l rest : List ℕ)
    → IsToken (λ c. not (c == d)) l
    → (d == d) ≡ true
    → strtok_at d (l ++ (d ∷ rest)) ≡ some (l, rest)
unfolding strtok_at skip_delim
strtok_at-Every d [] rest h e = absurd h
strtok_at-Every d (c ∷ l) rest h e =
    rw (strtok_at, skip_delim, not-true (c == d) h.0) (ap some (cut_at-Every d (c ∷ l) rest h e))

-- Delimiters in front are passed over, and a token ends at the first one.
pub tokens-skip : (d : ℕ → Bool) (c : ℕ) (s : List ℕ) → d c ≡ true → tokens d (c ∷ s) ≡ tokens d s
unfolding tokens scan
tokens-skip d c s e = rw (tokens, scan, e) refl

pub tokens-cut :
    (d : ℕ → Bool) (w : List ℕ) (c : ℕ) (rest : List ℕ)
    → IsToken (λ c. not (d c)) w
    → d c ≡ true
    → tokens d (w ++ (c ∷ rest)) ≡ w ∷ tokens d rest
unfolding tokens scan
tokens-cut d w c rest h e =
    rw
      (
        tokens,
        scan-Every d w (c ∷ rest) (IsToken-Every _ w h),
        scan,
        e,
        append-nil,
        add_token-IsToken _ w (tokens d rest) h,
      )
      refl

pub tokens_alone : (d : ℕ → Bool) (w : List ℕ) → IsToken (λ c. not (d c)) w → tokens d w ≡ w ∷ []
unfolding tokens scan
tokens_alone d w h =
    ap (tokens d) (sym (append-nil w))
    ∙ rw (tokens, scan-Every d w [] (IsToken-Every _ w h), append-nil, add_token-IsToken _ w [] h)
        refl
