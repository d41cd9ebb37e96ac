-- ===== src/PosixChat/Buffers.antt =====
-- Arrays in which a string stands behind some bytes.
use agh_sys_opy.Prelude.{
  ℕ, suc, ◌+◌, ◌<◌, ◌≤◌, ◌≡◌, refl, ap, ap₂, sym, ◌∙◌, true, List, [], ◌∷◌, ◌++◌, append_assoc,
  length, length-append, take, drop, take-append, drop-append, none, some, false, ltb, arith,
}
use agh_sys_opy.Text.{c_string}
use agh_sys_opy.Text.Strings.{NoNul, c_string-append}
use agh_sys_opy.PosixChat.{Buffer, msg_size, string_at, strcpy_at, strcat_at}

-- The bytes `p`, a string, its NUL and what is left.
abbrev pub holding : List ℕ → List ℕ → List ℕ → Buffer
holding p t rest = p ++ (t ++ (0 ∷ rest))

pub string_at-holding :
    (place : ℕ) (p t rest : List ℕ)
    → place ≡ length p
    → NoNul t
    → string_at place (holding p t rest) ≡ t
string_at-holding place p t rest e h =
    ap c_string (drop-append place 0 p (t ++ (0 ∷ rest)) (omega arith)) ∙ c_string-append t rest h

strcpy_at_fits :
    (place : ℕ) (s : List ℕ) (m : Buffer)
    → place + length s < msg_size
    → strcpy_at place s m ≡ some (take place m ++ (s ++ (0 ∷ drop (place + length s + 1) m)))
unfolding strcpy_at
strcpy_at_fits place s m h =
    let fits : ltb (place + length s) msg_size ≡ true = ground (arith, h) in rw fits refl

pub strcat_at-holding :
    (place : ℕ) (p t s rest : List ℕ)
    → place ≡ length p
    → NoNul t
    → place + length t + length s < msg_size
    → strcat_at place s (holding p t rest) ≡ some (holding p (t ++ s) (drop (length s) rest))
unfolding strcat_at
strcat_at-holding place p t s rest e h fits =
    ap (λ w. strcpy_at (place + length w) s (holding p t rest))
      (string_at-holding place p t rest e h)
    ∙ strcpy_at_fits (place + length t) s (holding p t rest) fits
    ∙ ap some (ap₂ (λ a b. a ++ (s ++ (0 ∷ b))) taken dropped)
    ∙ ap some (
        append_assoc p t (s ++ (0 ∷ drop (length s) rest))
        ∙ ap (λ b. p ++ b) (sym (append_assoc t s (0 ∷ drop (length s) rest))))
  where
    split : holding p t rest ≡ (p ++ t) ++ (0 ∷ rest)
    split = sym (append_assoc p t (0 ∷ rest))

    taken : take (place + length t) (holding p t rest) ≡ p ++ t
    taken =
        ap (take (place + length t)) split
        ∙ take-append (place + length t) (p ++ t) (0 ∷ rest) (omega (arith, length-append p t))

    dropped : drop (place + length t + length s + 1) (holding p t rest) ≡ drop (length s) rest
    dropped =
        ap (drop (place + length t + length s + 1)) split
        ∙ drop-append (place + length t + length s + 1) (suc (length s)) (p ++ t) (0 ∷ rest)
            (omega (arith, length-append p t))

pub strcat_at_overflow :
    (place : ℕ) (p t s rest : List ℕ)
    → place ≡ length p
    → NoNul t
    → msg_size ≤ place + length t + length s
    → strcat_at place s (holding p t rest) ≡ none
unfolding strcat_at strcpy_at
strcat_at_overflow place p t s rest e h long =
    let over : ltb (place + length t + length s) msg_size ≡ false = ground (arith, long) in
    ap (λ w. strcpy_at (place + length w) s (holding p t rest))
      (string_at-holding place p t rest e h)
    ∙ rw over refl

-- `strcpy` over an empty string.
pub strcpy_at-holding :
    (place : ℕ) (p s rest : List ℕ)
    → place ≡ length p
    → place + length s < msg_size
    → strcpy_at place s (holding p [] rest) ≡ some (holding p s (drop (length s) rest))
strcpy_at-holding place p s rest e fits =
    strcpy_at_fits place s (holding p [] rest) fits
    ∙ ap some (
        ap₂ (λ a b. a ++ (s ++ (0 ∷ b))) (take-append place p (0 ∷ rest) e)
          (drop-append (place + length s + 1) (suc (length s)) p (0 ∷ rest) (omega arith)))
