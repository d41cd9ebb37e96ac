-- ===== src/Blanks/Lines.antt =====
-- The lines of any file: each ends with a newline, or with the last byte of the file.
use agh_sys_opy.Prelude.{
  ℕ, ◌<◌, ◌≡◌, refl, ap, sym, ◌∙◌, ◌⊎◌, inl, inr, Bool, Bool-cases, true, false, ◌&&◌, ◌==◌, ==_iff,
  if◌then◌else◌, List, [], ◌∷◌, ◌++◌, append_assoc, length,
}
use agh_sys_opy.Text.{is_space}

-- What stands in front of the last byte of a line, and that byte.
abbrev pub Line : Type 0
Line = List ℕ × ℕ

abbrev pub bytes : Line → List ℕ
bytes l = l.0 ++ (l.1 ∷ [])

abbrev pub text : List Line → List ℕ
text [] = []
text (l ∷ ls) = bytes l ++ text ls

-- A byte in front of the lines that follow it, where it is no newline.
abbrev pub extend : ℕ → List Line → List Line
extend c [] = ([], c) ∷ []
extend c ((b, x) ∷ ls) = (c ∷ b, x) ∷ ls

unfoldable pub lines_of : List ℕ → List Line
lines_of [] = []
lines_of (c ∷ file) = let rest = lines_of file in if c == 10 then ([], c) ∷ rest else extend c rest

abbrev pub blank : List ℕ → Bool
blank [] = true
blank (c ∷ s) = is_space c && blank s

-- The lines that are not blank, one after the other.
abbrev pub without_blanks : List Line → List ℕ
without_blanks [] = []
without_blanks (l ∷ ls) =
    let rest = without_blanks ls in if blank (bytes l) then rest else bytes l ++ rest

-- No line has a newline but at its end, and each one but the last has one there.
abbrev pub NoNewline : List ℕ → Type 0
NoNewline [] = Unit
NoNewline (c ∷ s) = ((c == 10) ≡ false) × NoNewline s

abbrev pub IsLines : List Line → Type 0
IsLines [] = Unit
IsLines (l ∷ ls) = NoNewline l.0 × ((l.1 ≡ 10) ⊎ (ls ≡ [])) × IsLines ls

-- Each line, with its newline, is shorter than the buffer.
abbrev pub Fits : ℕ → List Line → Type 0
Fits size [] = Unit
Fits size (l ∷ ls) = (length (bytes l) < size) × Fits size ls

extend-text : (c : ℕ) (ls : List Line) → text (extend c ls) ≡ c ∷ text ls
extend-text c [] = refl
extend-text c (l ∷ ls) = refl

pub text-lines_of : (file : List ℕ) → text (lines_of file) ≡ file
unfolding lines_of
text-lines_of [] = refl
text-lines_of (c ∷ file) = elim (Bool-cases (c == 10)) [
  | inl e ↦ rw (lines_of, e) (ap (λ s. c ∷ s) (text-lines_of file))
  | inr e ↦ rw (lines_of, e) (extend-text c (lines_of file) ∙ ap (λ s. c ∷ s) (text-lines_of file))
]

extend-IsLines : (c : ℕ) (ls : List Line) → (c == 10) ≡ false → IsLines ls → IsLines (extend c ls)
extend-IsLines c [] e h = (tt, inr refl, tt)
extend-IsLines c (l ∷ ls) e h = ((e, h.0), h.1, h.2)

pub lines_of-IsLines : (file : List ℕ) → IsLines (lines_of file)
unfolding lines_of
lines_of-IsLines [] = tt
lines_of-IsLines (c ∷ file) = elim (Bool-cases (c == 10)) [
  | inl e ↦ rw (lines_of, e) (tt, inl ((==_iff c 10).0 e), lines_of-IsLines file)
  | inr e ↦ rw (lines_of, e) (extend-IsLines c (lines_of file) e (lines_of-IsLines file))
]

-- The lines behind some of the lines.
pub IsLines-behind : (ls ls' : List Line) → IsLines (ls ++ ls') → IsLines ls'
IsLines-behind [] ls' h = h
IsLines-behind (l ∷ ls) ls' h = IsLines-behind ls ls' h.2

pub Fits-behind : (size : ℕ) (ls ls' : List Line) → Fits size (ls ++ ls') → Fits size ls'
Fits-behind size [] ls' h = h
Fits-behind size (l ∷ ls) ls' h = Fits-behind size ls ls' h.1

pub text-append : (ls ls' : List Line) → text (ls ++ ls') ≡ text ls ++ text ls'
text-append [] ls' = refl
text-append (l ∷ ls) ls' =
    ap (λ s. bytes l ++ s) (text-append ls ls') ∙ sym (append_assoc (bytes l) (text ls) (text ls'))

pub without_blanks-append :
    (ls ls' : List Line) → without_blanks (ls ++ ls') ≡ without_blanks ls ++ without_blanks ls'
without_blanks-append [] ls' = refl
without_blanks-append (l ∷ ls) ls' = elim (Bool-cases (blank (bytes l))) [
  | inl e ↦ rw (e) (without_blanks-append ls ls')
  | inr e ↦ rw (e) (
      ap (λ s. bytes l ++ s) (without_blanks-append ls ls')
      ∙ sym (append_assoc (bytes l) (without_blanks ls) (without_blanks ls')))
]
