-- ===== src/Fifo/Lines.antt =====
-- A file as its lines: `add_line` adds to one of them.
use agh_sys_opy.Prelude.{
  ℕ, zero, suc, ◌+◌, ◌-◌, ◌≤◌, ◌≡◌, ◌≢◌, refl, true, false, List, [], ◌∷◌, ◌++◌, append_assoc,
  length, length-append, replicate, ltb, ◌==◌, arith, ap, ◌∙◌, sym, Bool-cases, inl, inr,
}
use agh_sys_opy.Text.Words.{strip_newline-append}
use agh_sys_opy.Text.{getline}
use agh_sys_opy.Fifo.{newline, write_line, copy_lines, add_missing, add_line}

-- The bytes of lines, with a newline behind each.
abbrev pub render : List (List ℕ) → List ℕ
render [] = []
render (l ∷ ls) = l ++ (newline ∷ render ls)

abbrev pub NoNewline : List ℕ → Type 0
NoNewline [] = Unit
NoNewline (c ∷ rest) = ((c == newline) ≡ false) × NoNewline rest

abbrev pub AllNoNewline : List (List ℕ) → Type 0
AllNoNewline [] = Unit
AllNoNewline (l ∷ ls) = NoNewline l × AllNoNewline ls

-- The text is added to the line `k`, counted from 0; lines that are missing are empty.
abbrev pub append_at : ℕ → List ℕ → List (List ℕ) → List (List ℕ)
append_at k text [] = replicate k [] ++ (text ∷ [])
append_at zero text (l ∷ ls) = (l ++ text) ∷ ls
append_at (suc k) text (l ∷ ls) = l ∷ append_at k text ls

render-replicate :
    (k : ℕ) (text : List ℕ)
    → replicate k newline ++ (text ++ (newline ∷ [])) ≡ render (replicate k [] ++ (text ∷ []))
render-replicate zero text = refl
render-replicate (suc k) text = ap (λ s. newline ∷ s) (render-replicate k text)

getline-NoNewline :
    (l rest : List ℕ) → NoNewline l → getline (l ++ (newline ∷ rest)) ≡ (l ++ (newline ∷ []), rest)
unfolding getline
getline-NoNewline [] rest h = refl
getline-NoNewline (c ∷ l) rest h = rw (getline-NoNewline l rest h.1, h.0) refl

-- What a copy adds up to, missing lines included.
added : ℕ → List ℕ → ℕ → ℕ → List ℕ → List ℕ
added fuel text row i file = add_missing text row (copy_lines fuel text row i file)

add_missing-append :
    (text : List ℕ) (row : ℕ) (w out : List ℕ) (n : ℕ)
    → add_missing text row (w ++ out, n) ≡ w ++ add_missing text row (out, n)
unfolding add_missing
add_missing-append text row w out n = elim (Bool-cases (ltb n row)) [
  | inl e ↦ rw (e, append_assoc) refl
  | inr e ↦ rw e refl
]

copy_lines_cut :
    (fuel : ℕ) (text : List ℕ) (row i c : ℕ) (rest line behind : List ℕ)
    → getline (c ∷ rest) ≡ (line, behind)
    → added (suc fuel) text row i (c ∷ rest)
      ≡ write_line text row (suc i) line ++ added fuel text row (suc i) behind
unfolding added copy_lines
copy_lines_cut fuel text row i c rest line behind e =
    rw (added, copy_lines, e) (add_missing-append text row _ _ _)

copy_lines_next :
    (fuel : ℕ) (text : List ℕ) (row i : ℕ) (l rest : List ℕ)
    → NoNewline l
    → added (suc fuel) text row i (l ++ (newline ∷ rest))
      ≡ write_line text row (suc i) (l ++ (newline ∷ [])) ++ added fuel text row (suc i) rest
copy_lines_next fuel text row i [] rest h =
    copy_lines_cut fuel text row i newline rest _ _ (getline-NoNewline [] rest h)
copy_lines_next fuel text row i (c ∷ l) rest h =
    copy_lines_cut fuel text row i c (l ++ (newline ∷ rest)) _ _ (getline-NoNewline (c ∷ l) rest h)

length-render :
    (l : List ℕ) (ls : List (List ℕ)) → suc (length (render ls)) ≤ length (render (l ∷ ls))
length-render l ls = omega (arith, length-append l (newline ∷ render ls))

write_line_other :
    (text : List ℕ) (row i : ℕ) (line : List ℕ) → i ≢ row → write_line text row i line ≡ line
unfolding write_line
write_line_other text row i line ne = ground arith

write_line_row :
    (text : List ℕ) (row : ℕ) (l : List ℕ)
    → write_line text row row (l ++ (newline ∷ [])) ≡ (l ++ text) ++ (newline ∷ [])
unfolding write_line
write_line_row text row l = rw (same, strip_newline-append, ← append_assoc) refl
  where
    same : (row == row) ≡ true
    same = ground arith

-- Behind the row everything is copied.
added_behind :
    (ls : List (List ℕ)) (fuel : ℕ) (text : List ℕ) (row i : ℕ)
    → length (render ls) ≤ fuel
    → AllNoNewline ls
    → row ≤ i
    → added fuel text row i (render ls) ≡ render ls
unfolding added copy_lines add_missing
added_behind [] zero text row i enough h le = ground arith
added_behind [] (suc fuel) text row i enough h le = ground arith
added_behind (l ∷ ls) zero text row i enough h le = absurd (omega (arith, length-render l ls))
added_behind (l ∷ ls) (suc fuel) text row i enough h le =
    copy_lines_next fuel text row i l (render ls) h.0
    ∙ rw
        (
          write_line_other text row (suc i) (l ++ (newline ∷ [])) (λ e. omega arith),
          added_behind ls fuel text row (suc i) (omega (arith, length-render l ls)) h.1
              (omega arith),
          append_assoc,
        )
        refl

add_missing_end :
    (k : ℕ) (text : List ℕ) (row i : ℕ)
    → i + suc k ≡ row
    → add_missing text row ([], i) ≡ render (append_at k text [])
unfolding add_missing
add_missing_end k text row i e = rw (short, left) (render-replicate k text)
  where
    short : ltb i row ≡ true
    short = ground arith

    left : row - i - 1 ≡ k
    left = omega arith

added_before :
    (ls : List (List ℕ)) (fuel k : ℕ) (text : List ℕ) (row i : ℕ)
    → length (render ls) ≤ fuel
    → AllNoNewline ls
    → i + suc k ≡ row
    → added fuel text row i (render ls) ≡ render (append_at k text ls)
unfolding added copy_lines add_missing
added_before [] zero k text row i enough h e = add_missing_end k text row i e
added_before [] (suc fuel) k text row i enough h e = add_missing_end k text row i e
added_before (l ∷ ls) zero k text row i enough h e = absurd (omega (arith, length-render l ls))
added_before (l ∷ ls) (suc fuel) zero text row i enough h e =
    copy_lines_next fuel text row i l (render ls) h.0
    ∙ rw
        (
          here,
          write_line_row text row l,
          added_behind ls fuel text row row (omega (arith, length-render l ls)) h.1 (omega arith),
          append_assoc,
        )
        refl
  where
    here : suc i ≡ row
    here = omega arith
added_before (l ∷ ls) (suc fuel) (suc k) text row i enough h e =
    copy_lines_next fuel text row i l (render ls) h.0
    ∙ rw
        (
          write_line_other text row (suc i) (l ++ (newline ∷ [])) (λ same. omega arith),
          added_before ls fuel k text row (suc i) (omega (arith, length-render l ls)) h.1
              (omega arith),
          append_assoc,
        )
        refl

-- On a file of lines, each with a newline behind it, `add_line` writes the file back with the text
-- added to the line of the given number (from 1 on), and with empty lines in front of it where the
-- file is too short.
pub add_line-append_at :
    (ls : List (List ℕ)) (k : ℕ) (text : List ℕ)
    → AllNoNewline ls
    → add_line (render ls) text (suc k) ≡ render (append_at k text ls)
unfolding add_line added
add_line-append_at ls k text h =
    added_before ls (length (render ls)) k text (suc k) 0 (omega arith) h (omega arith)

append_at_comm :
    (j k : ℕ) (t u : List ℕ) (ls : List (List ℕ))
    → j ≢ k
    → append_at j t (append_at k u ls) ≡ append_at k u (append_at j t ls)
append_at_comm zero zero t u ls ne = absurd (ne refl)
append_at_comm zero (suc k) t u [] ne = refl
append_at_comm (suc j) zero t u [] ne = refl
append_at_comm (suc j) (suc k) t u [] ne =
    ap (λ ls. [] ∷ ls) (append_at_comm j k t u [] (λ e. ne (ap suc e)))
append_at_comm zero (suc k) t u (l ∷ ls) ne = refl
append_at_comm (suc j) zero t u (l ∷ ls) ne = refl
append_at_comm (suc j) (suc k) t u (l ∷ ls) ne =
    ap (λ ls. l ∷ ls) (append_at_comm j k t u ls (λ e. ne (ap suc e)))

NoNewline-append : (l text : List ℕ) → NoNewline l → NoNewline text → NoNewline (l ++ text)
NoNewline-append [] text h t = t
NoNewline-append (c ∷ l) text h t = (h.0, NoNewline-append l text h.1 t)

pub append_at-AllNoNewline :
    (k : ℕ) (text : List ℕ) (ls : List (List ℕ))
    → AllNoNewline ls
    → NoNewline text
    → AllNoNewline (append_at k text ls)
append_at-AllNoNewline zero text [] h t = (t, tt)
append_at-AllNoNewline (suc k) text [] h t = (tt, append_at-AllNoNewline k text [] tt t)
append_at-AllNoNewline zero text (l ∷ ls) h t = (NoNewline-append l text h.0 t, h.1)
append_at-AllNoNewline (suc k) text (l ∷ ls) h t = (h.0, append_at-AllNoNewline k text ls h.1 t)

add_line_twice :
    (ls : List (List ℕ)) (j k : ℕ) (t u : List ℕ)
    → AllNoNewline ls
    → NoNewline t
    → add_line (add_line (render ls) t (suc j)) u (suc k)
      ≡ render (append_at k u (append_at j t ls))
add_line_twice ls j k t u h ht =
    ap (λ file. add_line file u (suc k)) (add_line-append_at ls j t h)
    ∙ add_line-append_at (append_at j t ls) k u (append_at-AllNoNewline j t ls h ht)

-- Texts without newlines that are added to different lines of a file of lines give the same file in
-- either order.
pub add_line_comm :
    (ls : List (List ℕ)) (j k : ℕ) (t u : List ℕ)
    → AllNoNewline ls
    → NoNewline t
    → NoNewline u
    → j ≢ k
    → add_line (add_line (render ls) t (suc j)) u (suc k)
      ≡ add_line (add_line (render ls) u (suc k)) t (suc j)
add_line_comm ls j k t u h ht hu ne =
    add_line_twice ls j k t u h ht
    ∙ ap render (sym (append_at_comm j k t u ls ne))
    ∙ sym (add_line_twice ls k j u t h hu)
