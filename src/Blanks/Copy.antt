-- ===== src/Blanks/Copy.antt =====
-- copy_and_remove_blanks, a round of its outer loop after the other.
use agh_sys_opy.Prelude.{
  take_past, drop-drop, ℕ, zero, suc, ◌+◌, ◌-◌, ◌≤◌, ◌<◌, ◌≡◌, refl, ap, sym, ◌∙◌, subst, ◌⊎◌, inl,
  inr, false, ◌==◌, List, [], ◌∷◌, ◌++◌, append_assoc, append-nil, length, length-append,
  length-take, take, drop, take-all, drop-append, dec_lt, some, arith,
}
use agh_sys_opy.Blanks.{
  Scan, scan, buffer_size, read_buffer, scan_buffer, copy_file, copy_and_remove_blanks,
}
use agh_sys_opy.Blanks.Lines.{
  Line, bytes, text, without_blanks, NoNewline, IsLines, Fits, lines_of, lines_of-IsLines,
  text-lines_of, IsLines-behind, Fits-behind, text-append, without_blanks-append,
}
use agh_sys_opy.Blanks.Walk.{line_start}
use agh_sys_opy.Blanks.Buffers.{
  Round, Round-more, Holds, Holds-behind, ends_line, scan-line, scan-cut, take_cut, take-NoNewline,
}

-- The inner loop from the start of a line on.
abbrev Scanned : ℕ → ℕ → ℕ → ℕ → List ℕ → List Line → List ℕ → Type 0
Scanned size k i base buffer ls out =
    (s : Scan) × (scan size buffer (take k (text ls)) i (line_start i (base + length buffer) out)
      ≡ s)
    × Round (base + i) ls out s
    × ((ls ≡ []) ⊎ (base < s.position))

-- A line that does not fit into the rest of the buffer is left to the next round.
pub scan_kept :
    (size k i base : ℕ) (buffer b : List ℕ) (x : ℕ) (ls : List Line) (out : List ℕ)
    → size ≡ i + suc k
    → k ≤ length b
    → NoNewline b
    → Holds (suc k) i buffer ((b, x) ∷ ls)
    → (s : Scan) × (scan size buffer
          (take (suc k) (text ((b, x) ∷ ls)))
          i
          (line_start i (base + length buffer) out)
        ≡ s)
      × (s.position ≡ base + i)
      × (s.written ≡ out)
scan_kept size k i base buffer b x ls out e short plain (d, n) =
    let (y, cut) = take_cut k b x (text ls) short in
    let front : length (take k b) ≡ k = omega (arith, length-take k b) in
    let (s, result, place, wrote) =
      scan-cut size buffer i (i + k) base out (take k b) y (take-NoNewline k b plain)
        (omega (arith, front)) (omega arith)
        (omega (arith, n, ap length cut, length-append (take k b) (y ∷ []), front)) in
    (
      s,
      ap (λ r. scan size buffer r i (line_start i (base + length buffer) out)) cut ∙ result,
      place,
      wrote,
    )

scan-Scanned :
    (size k i base : ℕ) (buffer : List ℕ) (ls : List Line) (out : List ℕ)
    → size ≡ i + k
    → 0 < k
    → IsLines ls
    → Fits size ls
    → Holds k i buffer ls
    → Scanned size k i base buffer ls out
unfolding scan
scan-Scanned size k i base buffer [] out e room good fits (d, n) = (
  line_start i (base + length buffer) out,
  ap (λ r. scan size buffer r i (line_start i (base + length buffer) out)) empty,
  ([], [], refl, omega (arith, n, ap length empty), sym (append-nil out)),
  inl refl,
)
  where
    empty : take {A = ℕ} k [] ≡ []
    empty = take-all k [] (omega arith)
scan-Scanned size zero i base buffer ((b, x) ∷ ls) out e room good fits h = absurd (omega arith)
scan-Scanned size (suc k) i base buffer ((b, x) ∷ ls) out e room good fits h =
    elim (dec_lt (length b) k) [
      | no long ↦
          let (s, result, place, wrote) =
            scan_kept size k i base buffer b x ls out e (omega arith) good.0 h in
          let all : length (b ++ (x ∷ [])) ≡ suc (length b) =
            omega (arith, length-append b (x ∷ [])) in
          (
            s,
            result,
            ([], (b, x) ∷ ls, refl, omega (arith, place), wrote ∙ sym (append-nil out)),
            inr (omega (arith, fits.0, all, place)),
          )
      | yes short ↦
          let all : length (b ++ (x ∷ [])) ≡ suc (length b) =
            omega (arith, length-append b (x ∷ [])) in
          let k' : ℕ = k - length b in
          let j : ℕ = i + length b in
          let past = take_past (suc k) k' (b ++ (x ∷ [])) (text ls) (omega (arith, all)) in
          let next : Holds k' (suc j) buffer ls =
            Holds-behind (suc k) k' i (suc j) buffer (b, x) ls (omega (arith, all))
              (omega (arith, all)) h in
          let (s, result, round, on) =
            scan-Scanned size k' (suc j) base buffer ls (out ++ without_blanks ((b, x) ∷ []))
              (omega arith) (omega arith) good.2 fits.1 next in
          (
            s,
            ap (λ r. scan size buffer r i (line_start i (base + length buffer) out)) past
                ∙ scan-line size buffer i j (base + length buffer) out b x (take k' (text ls))
                    good.0 refl (omega arith) (omega (arith, next.1))
                    (ends_line k' j buffer b x ls good.1 next) (h.0 ∙ past)
                ∙ result,
            Round-more (base + i) (base + suc j) (b, x) ls out s (omega (arith, all)) round,
            inr (omega (arith, round.3)),
          )
    ]

-- The inner loop over a whole buffer.
pub scan_buffer-Scanned :
    (size position : ℕ) (buffer : List ℕ) (ls : List Line) (out : List ℕ)
    → buffer ≡ take size (text ls)
    → (scan_buffer size buffer position out
        ≡ scan size buffer (take size (text ls)) 0 (line_start 0 (position + length buffer) out))
      × Holds size 0 buffer ls
scan_buffer-Scanned size position buffer ls out e = (
  ap (λ r. scan size buffer r 0 (line_start 0 (position + length buffer) out)) e,
  (e, omega (arith, ap length e)),
)

pub filled_buffer :
    (size : ℕ) (buffer : List ℕ) (l : Line) (ls : List Line)
    → 0 < size
    → buffer ≡ take size (text (l ∷ ls))
    → (length buffer == 0) ≡ false
filled_buffer size buffer l ls room e = ground (
  arith,
  ap length e,
  length-take size (text (l ∷ ls)),
  length-append (bytes l) (text ls),
  length-append l.0 (l.1 ∷ []),
)

copy_file-without_blanks :
    (size fuel : ℕ) (file : List ℕ) (position : ℕ) (ls : List Line) (out : List ℕ)
    → 0 < size
    → IsLines ls
    → Fits size ls
    → drop position file ≡ text ls
    → length (text ls) < fuel
    → copy_file size fuel file position out ≡ some (out ++ without_blanks ls)
unfolding copy_file scan
copy_file-without_blanks size zero file position ls out room good fits d enough =
    absurd (omega arith)
copy_file-without_blanks size (suc fuel) file position [] out room good fits d enough =
    rw (copy_file, d, take-all {A = ℕ} size [] (omega arith)) (ap some (sym (append-nil out)))
copy_file-without_blanks size (suc fuel) file position (l ∷ ls) out room good fits d enough =
    let buffer : List ℕ = read_buffer size file position in
    let read : buffer ≡ take size (text (l ∷ ls)) = ap (take size) d in
    let (start, holds) = scan_buffer-Scanned size position buffer (l ∷ ls) out read in
    let (s, result, (ls1, ls2, parts, place, wrote), on) =
      scan-Scanned size size 0 position buffer (l ∷ ls) out (omega arith) room good fits holds in
    let both : text (l ∷ ls) ≡ text ls1 ++ text ls2 = ap text parts ∙ text-append ls1 ls2 in
    let further : 0 < length (text ls1) = elim on [
      | inl nil ↦ absurd cc
      | inr less ↦ omega (arith, place)
    ] in
    let rest : drop s.position file ≡ text ls2 =
      drop-drop position (length (text ls1)) s.position file (omega (arith, place))
      ∙ ap (drop (length (text ls1))) (d ∙ both)
      ∙ drop-append (length (text ls1)) 0 (text ls1) (text ls2) (omega arith) in
    let later : copy_file size fuel file s.position s.written
        ≡ some (s.written ++ without_blanks ls2) =
      copy_file-without_blanks size fuel file s.position ls2 s.written room
        (IsLines-behind ls1 ls2 (subst IsLines parts good))
        (Fits-behind size ls1 ls2 (subst (Fits size) parts fits)) rest
        (omega (arith, enough, further, ap length both, length-append (text ls1) (text ls2))) in
    let all : s.written ++ without_blanks ls2 ≡ out ++ without_blanks (l ∷ ls) =
      ap (λ w. w ++ without_blanks ls2) wrote
      ∙ append_assoc out (without_blanks ls1) (without_blanks ls2)
      ∙ ap (λ w. out ++ w) (sym (without_blanks-append ls1 ls2) ∙ ap without_blanks (sym parts)) in
    let scanned : scan_buffer size buffer position out ≡ s = start ∙ result in
    rw (copy_file, filled_buffer size buffer l ls room read, scanned) (later ∙ ap some all)

-- On every file whose lines, with their newlines, have less than 1024 bytes, `copy_and_remove_blanks`
-- comes to an end, and what it writes is the lines of the file that have a byte which is no white
-- space, in order and unchanged, the last one also without a newline. One round for each byte and
-- one more are enough.
pub copy_and_remove_blanks-lines_of :
    (file : List ℕ)
    → Fits buffer_size (lines_of file)
    → copy_and_remove_blanks (suc (length file)) file ≡ some (without_blanks (lines_of file))
copy_and_remove_blanks-lines_of file fits =
    copy_file-without_blanks buffer_size (suc (length file)) file 0 (lines_of file) [] (omega arith)
      (lines_of-IsLines file) fits (sym (text-lines_of file))
      (omega (arith, ap length (text-lines_of file)))
