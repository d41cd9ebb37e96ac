-- ===== src/Blanks/Endless.antt =====
-- A file with a line that the buffer does not hold.
use agh_sys_opy.Prelude.{
  ℕ, zero, suc, ◌≤◌, ◌≡◌, refl, ap, sym, ◌∙◌, subst, List, [], ◌∷◌, length, length-append, take,
  drop, none, arith,
}
use agh_sys_opy.Blanks.{
  scan, buffer_size, read_buffer, scan_buffer, copy_file, copy_and_remove_blanks,
}
use agh_sys_opy.Blanks.Lines.{
  Line, bytes, text, NoNewline, IsLines, lines_of, lines_of-IsLines, text-lines_of,
}
use agh_sys_opy.Blanks.Copy.{scan_kept, scan_buffer-Scanned, filled_buffer}

copy_file_endless :
    (k fuel : ℕ) (file : List ℕ) (position : ℕ) (b : List ℕ) (x : ℕ) (ls : List Line) (out : List ℕ)
    → k ≤ length b
    → NoNewline b
    → drop position file ≡ text ((b, x) ∷ ls)
    → copy_file (suc k) fuel file position out ≡ none
unfolding copy_file scan
copy_file_endless k zero file position b x ls out long plain d = refl
copy_file_endless k (suc fuel) file position b x ls out long plain d =
    let buffer : List ℕ = read_buffer (suc k) file position in
    let read : buffer ≡ take (suc k) (text ((b, x) ∷ ls)) = ap (take (suc k)) d in
    let (start, holds) = scan_buffer-Scanned (suc k) position buffer ((b, x) ∷ ls) out read in
    let (s, result, place, wrote) =
      scan_kept (suc k) k 0 position buffer b x ls out (omega arith) long plain holds in
    let scanned : scan_buffer (suc k) buffer position out ≡ s = start ∙ result in
    let again : copy_file (suc k) fuel file s.position s.written ≡ none =
      copy_file_endless k fuel file s.position b x ls s.written long plain
        (ap (λ p. drop p file) (omega (arith, place)) ∙ d) in
    rw (copy_file, filled_buffer (suc k) buffer (b, x) ls (omega arith) read, scanned) again

-- On a file whose first line, with its newline, has 1024 bytes or more, `copy_and_remove_blanks` reads
-- that line again and again: no number of rounds is enough.
pub copy_and_remove_blanks_endless :
    (file : List ℕ) (l : Line) (ls : List Line) (fuel : ℕ)
    → lines_of file ≡ l ∷ ls
    → buffer_size ≤ length (bytes l)
    → copy_and_remove_blanks fuel file ≡ none
copy_and_remove_blanks_endless file (b, x) ls fuel e long =
    copy_file_endless 1023 fuel file 0 b x ls [] (omega (arith, length-append b (x ∷ [])))
      (subst IsLines e (lines_of-IsLines file)).0 (sym (text-lines_of file) ∙ ap text e)
