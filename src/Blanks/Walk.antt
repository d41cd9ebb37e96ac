-- ===== src/Blanks/Walk.antt =====
-- What the inner loop does with the lines of a buffer.
use agh_sys_opy.Prelude.{
  ℕ, suc, ◌+◌, ◌<◌, ◌≡◌, refl, ap, ◌∙◌, inl, inr, Bool-cases, true, false, ◌&&◌, ◌==◌,
  if◌then◌else◌, List, [], ◌∷◌, ◌++◌, length, arith,
}
use agh_sys_opy.Text.{is_space}
use agh_sys_opy.Blanks.{Scan, see, scan_byte, scan}
use agh_sys_opy.Blanks.Lines.{blank, NoNewline}

-- The state at the start of a line.
abbrev pub line_start : ℕ → ℕ → List ℕ → Scan
line_start i position written = record {
  cur_start = i;
  is_blank = true;
  position = position;
  written = written;
}

abbrev pub seen : List ℕ → Scan → Scan
seen b s = record s { is_blank = if blank b then s.is_blank else false }

see-seen : (c : ℕ) (b : List ℕ) (s : Scan) → seen b (see c s) ≡ seen (c ∷ b) s
see-seen c b s = elim (Bool-cases (is_space c)) [
  | inl e ↦ rw (e) refl
  | inr e ↦ rw (e) (elim (Bool-cases (blank b)) [ inl f ↦ rw (f) refl | inr f ↦ rw (f) refl ])
]

scan_byte-see :
    (size : ℕ) (buffer : List ℕ) (i c : ℕ) (s : Scan)
    → (c == 10) ≡ false
    → suc i < size
    → suc i < length buffer
    → scan_byte size buffer i c s ≡ see c s
unfolding scan_byte
scan_byte-see size buffer i c s plain h h' = ground (arith, plain)

-- Bytes in the middle of a line.
pub walk :
    (size : ℕ) (buffer b rest : List ℕ) (i j : ℕ) (s : Scan)
    → NoNewline b
    → j ≡ i + length b
    → j < size
    → j < length buffer
    → scan size buffer (b ++ rest) i s ≡ scan size buffer rest j (seen b s)
unfolding scan
walk size buffer [] rest i j s h e lt lt' = ap (λ k. scan size buffer rest k s) (omega arith)
walk size buffer (c ∷ b) rest i j s h e lt lt' =
    ap (λ t. scan size buffer (b ++ rest) (suc i) t)
      (scan_byte-see size buffer i c s h.0 (omega arith) (omega arith))
    ∙ walk size buffer b rest (suc i) j (see c s) h.1 (omega arith) lt lt'
    ∙ ap (λ t. scan size buffer rest j t) (see-seen c b s)

pub blank-append :
    (b : List ℕ) (x : ℕ) → blank (b ++ (x ∷ [])) ≡ (if is_space x then blank b else false)
blank-append [] x = elim (Bool-cases (is_space x)) [ inl e ↦ rw (e) refl | inr e ↦ rw (e) refl ]
blank-append (c ∷ b) x =
    ap (λ t. is_space c && t) (blank-append b x) ∙ elim (Bool-cases (is_space x)) [
      | inl e ↦ rw (e) refl
      | inr e ↦
          rw (e) (elim (Bool-cases (is_space c)) [ inl f ↦ rw (f) refl | inr f ↦ rw (f) refl ])
    ]
