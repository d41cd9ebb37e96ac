-- ===== src/Text/Strings.antt =====
-- Strings in arrays: what stands in front of the NUL.
use agh_sys_opy.Prelude.{
  ℕ, zero, suc, true, replicate, ◌≡◌, refl, ap, false, List, [], ◌∷◌, ◌++◌, not, not-true, ◌==◌,
}
use agh_sys_opy.Text.{c_string}
use agh_sys_opy.Text.Tokens.{Every}

abbrev pub NoNul : List ℕ → Type 0
NoNul s = Every (λ c. not (c == 0)) s

pub c_string-append : (w rest : List ℕ) → NoNul w → c_string (w ++ (0 ∷ rest)) ≡ w
c_string-append [] rest h = refl
c_string-append (c ∷ w) rest h =
    let nonzero : (c == 0) ≡ false = not-true (c == 0) h.0 in
    rw nonzero (ap (λ s. c ∷ s) (c_string-append w rest h.1))

pub c_string-NoNul : (w : List ℕ) → NoNul w → c_string w ≡ w
c_string-NoNul [] h = refl
c_string-NoNul (c ∷ w) h =
    let nonzero : (c == 0) ≡ false = not-true (c == 0) h.0 in
    rw nonzero (ap (λ s. c ∷ s) (c_string-NoNul w h.1))

pub replicate-NoNul : (n c : ℕ) → not (c == 0) ≡ true → NoNul (replicate n c)
replicate-NoNul zero c h = tt
replicate-NoNul (suc n) c h = (h, replicate-NoNul n c h)
