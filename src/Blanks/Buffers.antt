-- ===== src/Blanks/Buffers.antt =====
-- One round of the outer loop: the lines that end in the buffer are done, and the next one is read
-- again.
use agh_sys_opy.Prelude.{
  ℕ, zero, suc, ◌+◌, ◌-◌, ◌≤◌, ◌<◌, ◌≡◌, refl, ap, ◌∙◌, ◌⊎◌, inl, inr, Bool-cases, true, false,
  ◌||◌, ◌==◌, ==_iff, List, [], ◌∷◌, ◌++◌, append_assoc, append-nil, length, length-append,
  length-take, take, drop, take-append, take_past, drop-drop, drop-append, arith,
}
use agh_sys_opy.Text.{is_space}
use agh_sys_opy.Blanks.{Scan, see, end_line, seek_back, scan_byte, scan}
use agh_sys_opy.Blanks.Lines.{Line, bytes, text, blank, without_blanks, NoNewline}
use agh_sys_opy.Blanks.Walk.{line_start, seen, walk, blank-append}

end_line-written :
    (buffer : List ℕ) (i j position : ℕ) (out b : List ℕ) (x : ℕ) (rest : List ℕ)
    → j ≡ i + length b
    → drop i buffer ≡ (b ++ (x ∷ [])) ++ rest
    → end_line buffer j (see x (seen b (line_start i position out)))
      ≡ line_start (suc j) position (out ++ without_blanks ((b, x) ∷ []))
end_line-written buffer i j position out b x rest e d = elim (Bool-cases (is_space x)) [
  | inr f ↦ rw (blank-append b x, f, taken, append-nil (b ++ (x ∷ []))) refl
  | inl f ↦ elim (Bool-cases (blank b)) [
    | inl g ↦ rw (blank-append b x, f, g, append-nil out) refl
    | inr g ↦ rw (blank-append b x, f, g, taken, append-nil (b ++ (x ∷ []))) refl
  ]
]
  where
    taken : take (j - i + 1) (drop i buffer) ≡ b ++ (x ∷ [])
    taken =
        ap (take (j - i + 1)) d
        ∙ take-append (j - i + 1) (b ++ (x ∷ [])) rest (omega (arith, length-append b (x ∷ [])))

-- A line that ends inside of the buffer.
pub scan-line :
    (size : ℕ) (buffer : List ℕ) (i j position : ℕ) (out b : List ℕ) (x : ℕ) (rest : List ℕ)
    → NoNewline b
    → j ≡ i + length b
    → suc j < size
    → j < length buffer
    → ((x == 10) || (suc j == length buffer)) ≡ true
    → drop i buffer ≡ (b ++ (x ∷ [])) ++ rest
    → scan size buffer ((b ++ (x ∷ [])) ++ rest) i (line_start i position out)
      ≡ scan size buffer rest
          (suc j)
          (line_start (suc j) position (out ++ without_blanks ((b, x) ∷ [])))
unfolding scan scan_byte
scan-line size buffer i j position out b x rest h e lt lt' ends d =
    ap (λ r. scan size buffer r i (line_start i position out)) (append_assoc b (x ∷ []) rest)
    ∙ walk size buffer b (x ∷ rest) i j (line_start i position out) h e (omega arith) lt'
    ∙ ap (λ t. scan size buffer rest (suc j) t)
        (stepped ∙ end_line-written buffer i j position out b x rest e d)
  where
    inside : (suc j == size) ≡ false
    inside = ground (arith, lt)

    stepped :
        scan_byte size buffer j x (seen b (line_start i position out))
        ≡ end_line buffer j (see x (seen b (line_start i position out)))
    stepped = rw (scan_byte, inside, ends) refl

-- A line that the buffer cuts.
pub scan-cut :
    (size : ℕ) (buffer : List ℕ) (i j base : ℕ) (out b : List ℕ) (x : ℕ)
    → NoNewline b
    → j ≡ i + length b
    → suc j ≡ size
    → suc j ≡ length buffer
    → (result : Scan) × (scan size buffer
          (b ++ (x ∷ []))
          i
          (line_start i (base + length buffer) out)
        ≡ result)
      × (result.position ≡ base + i)
      × (result.written ≡ out)
unfolding scan scan_byte
scan-cut size buffer i j base out b x h e full full' = (
  seek_back j (see x (seen b (line_start i (base + length buffer) out))),
  walk size buffer b (x ∷ []) i j (line_start i (base + length buffer) out) h e (omega arith)
        (omega arith)
      ∙ rw (scan, scan, scan_byte, at_end) refl,
  omega arith,
  refl,
)
  where
    at_end : (suc j == size) ≡ true
    at_end = (==_iff (suc j) size).1 full

-- After a round: which lines are done, where the file is read next, and what was written.
abbrev pub Round : ℕ → List Line → List ℕ → Scan → Type 0
Round start ls out s =
    (ls1 ls2 : List Line) × (ls ≡ ls1 ++ ls2)
    × (s.position ≡ start + length (text ls1))
    × (s.written ≡ out ++ without_blanks ls1)

pub Round-more :
    (start next : ℕ) (l : Line) (ls : List Line) (out : List ℕ) (s : Scan)
    → next ≡ start + length (bytes l)
    → Round next ls (out ++ without_blanks (l ∷ [])) s
    → Round start (l ∷ ls) out s
Round-more start next l ls out s e (ls1, ls2, parts, place, wrote) = (
  l ∷ ls1,
  ls2,
  ap (λ t. l ∷ t) parts,
  omega (arith, place, length-append (bytes l) (text ls1)),
  wrote
      ∙ append_assoc out (without_blanks (l ∷ [])) (without_blanks ls1)
      ∙ ap (λ w. out ++ w) together,
)
  where
    together : without_blanks (l ∷ []) ++ without_blanks ls1 ≡ without_blanks (l ∷ ls1)
    together = elim (Bool-cases (blank (bytes l))) [
      | inl f ↦ rw (f) refl
      | inr f ↦ rw (f) (ap (λ b. b ++ without_blanks ls1) (append-nil (bytes l)))
    ]

-- The part of a line that fits into the rest of the buffer, whose last byte is cut.
pub take_cut :
    (k : ℕ) (b : List ℕ) (x : ℕ) (rest : List ℕ)
    → k ≤ length b
    → (y : ℕ) × (take (suc k) ((b ++ (x ∷ [])) ++ rest) ≡ take k b ++ (y ∷ []))
take_cut zero [] x rest h = (x, refl)
take_cut zero (c ∷ b) x rest h = (c, refl)
take_cut (suc k) [] x rest h = absurd (omega arith)
take_cut (suc k) (c ∷ b) x rest h =
    let (y, e) = take_cut k b x rest (omega arith) in (y, ap (λ t. c ∷ t) e)

pub take-NoNewline : (k : ℕ) (b : List ℕ) → NoNewline b → NoNewline (take k b)
take-NoNewline zero b h = tt
take-NoNewline (suc k) [] h = tt
take-NoNewline (suc k) (c ∷ b) h = (h.0, take-NoNewline k b h.1)

-- The rest of a buffer holds the beginning of the lines that are left.
abbrev pub Holds : ℕ → ℕ → List ℕ → List Line → Type 0
Holds k i buffer ls =
    (drop i buffer ≡ take k (text ls)) × (length buffer ≡ i + length (take k (text ls)))

pub Holds-behind :
    (k k' i next : ℕ) (buffer : List ℕ) (l : Line) (ls : List Line)
    → k ≡ length (bytes l) + k'
    → next ≡ i + length (bytes l)
    → Holds k i buffer (l ∷ ls)
    → Holds k' next buffer ls
Holds-behind k k' i next buffer l ls e f (d, n) = (
  drop-drop i (length (bytes l)) next buffer f
      ∙ ap (drop (length (bytes l))) (d ∙ past)
      ∙ drop-append (length (bytes l)) 0 (bytes l) (take k' (text ls)) (omega arith),
  omega (arith, n, ap length past, length-append (bytes l) (take k' (text ls))),
)
  where
    past : take k (bytes l ++ text ls) ≡ bytes l ++ take k' (text ls)
    past = take_past k k' (bytes l) (text ls) e

-- The last byte of a line is a newline or the last byte of the buffer.
pub ends_line :
    (k' j : ℕ) (buffer b : List ℕ) (x : ℕ) (ls : List Line)
    → (x ≡ 10) ⊎ (ls ≡ [])
    → Holds k' (suc j) buffer ls
    → ((x == 10) || (suc j == length buffer)) ≡ true
ends_line k' j buffer b x ls (inl newline) h = rw ((==_iff x 10).1 newline) refl
ends_line k' j buffer b x ls (inr last) (d, n) =
    rw (at_end) (elim (Bool-cases (x == 10)) [ inl f ↦ rw (f) refl | inr f ↦ rw (f) refl ])
  where
    nothing : length (take k' (text ls)) ≡ 0
    nothing = rw (last) (omega (arith, length-take {A = ℕ} k' []))

    at_end : (suc j == length buffer) ≡ true
    at_end = (==_iff (suc j) (length buffer)).1 (omega (arith, n, nothing))
