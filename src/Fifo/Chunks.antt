-- ===== src/Fifo/Chunks.antt =====
-- The chunks of a file one after the other.
use agh_sys_opy.Prelude.{
  ℕ, zero, suc, ◌+◌, ltb, false, ◌<◌, ◌≤◌, ◌≡◌, refl, ap, ap₂, sym, ◌∙◌, subst, List, [], ◌∷◌, ◌++◌,
  map, length, length-take, length-drop, length-replicate, take-append-drop, take, drop, replicate,
  Option, some, arith,
}
use agh_sys_opy.Text.Tokens.{IsToken}
use agh_sys_opy.Text.{c_string}
use agh_sys_opy.Text.Strings.{NoNul}
use agh_sys_opy.Fifo.Lines.{NoNewline}
use agh_sys_opy.Fifo.Producer.{pipe_buf, copy_chunks, read_to_fifo}
use agh_sys_opy.Fifo.Writes.{
  tab, row_byte, buffer_of, sent, round_writes, length-sent, c_string-sent,
}

-- What a consumer reads from the bodies of buffers, as strings.
abbrev pub texts : List (List ℕ) → List ℕ
texts [] = []
texts (b ∷ bodies) = c_string b ++ texts bodies

-- Bodies of one size that hold no newline.
abbrev pub IsBody : ℕ → List ℕ → Type 0
IsBody n b = (length b ≡ n) × NoNewline (c_string b)

abbrev pub AllBodies : ℕ → List (List ℕ) → Type 0
AllBodies n [] = Unit
AllBodies n (b ∷ bodies) = IsBody n b × AllBodies n bodies

map-append {ℓ κ} :
    {A : Type ℓ} {B : Type κ} (f : A → B) (xs ys : List A) → map f (xs ++ ys) ≡ map f xs ++ map f ys
map-append f [] ys = refl
map-append f (x ∷ xs) ys = ap (λ zs. f x ∷ zs) (map-append f xs ys)

map-tab-NoNewline : (w : List ℕ) → NoNewline (map tab w)
map-tab-NoNewline [] = tt
map-tab-NoNewline (c ∷ w) = (ground arith, map-tab-NoNewline w)

take-NoNul : (n : ℕ) (s : List ℕ) → NoNul s → NoNul (take n s)
take-NoNul zero s h = tt
take-NoNul (suc n) [] h = tt
take-NoNul (suc n) (c ∷ s) h = (h.0, take-NoNul n s h.1)

drop-NoNul : (n : ℕ) (s : List ℕ) → NoNul s → NoNul (drop n s)
drop-NoNul zero s h = h
drop-NoNul (suc n) [] h = tt
drop-NoNul (suc n) (c ∷ s) h = drop-NoNul n s h.1

-- What a producer writes for a file.
abbrev pub Writes : List ℕ → ℕ → List ℕ → Option (List (List ℕ)) → Type 0
Writes row n file written =
    (bodies : List (List ℕ)) × (written ≡ some (map (buffer_of row) bodies))
    × AllBodies n bodies
    × (texts bodies ≡ map tab file)

sent-IsBody :
    (n : ℕ) (chunk content : List ℕ)
    → NoNul chunk
    → length content ≡ n
    → length chunk ≤ n
    → IsBody n (sent n chunk content)
sent-IsBody n chunk content h e le = (
  length-sent n chunk content e le,
  subst NoNewline (sym (c_string-sent n chunk content h)) (map-tab-NoNewline chunk),
)

-- The row, the blank and the bytes asked for are written to the FIFO as one piece.
abbrev pub InOnePiece : List ℕ → ℕ → Type 0
InOnePiece row n = n + length row + 1 ≤ pipe_buf

InOnePiece-fits :
    (row : List ℕ) (n : ℕ) → InOnePiece row n → ltb pipe_buf (n + length row + 1) ≡ false
InOnePiece-fits row n h = ground (arith, h)

copy_chunks-Writes :
    (fuel m : ℕ) (row content file : List ℕ)
    → IsToken row_byte row
    → length content ≡ suc m
    → NoNul file
    → (0 < length file → InOnePiece row (suc m))
    → length file < fuel
    → Writes row (suc m) file (copy_chunks 0 fuel row (suc m) (buffer_of row content) file)
unfolding copy_chunks
copy_chunks-Writes zero m row content file is_row size h whole enough = absurd (omega arith)
copy_chunks-Writes (suc fuel) m row content [] is_row size h whole enough = ([], refl, tt, refl)
copy_chunks-Writes (suc fuel) m row content (c ∷ file) is_row size h whole enough =
    let chunk : List ℕ = c ∷ take m file in
    let plain : NoNul chunk = (h.0, take-NoNul m file h.1) in
    let short : length chunk ≤ suc m = ground (arith, length-take m file) in
    let body : List ℕ = sent (suc m) chunk content in
    let is_body : IsBody (suc m) body = sent-IsBody (suc m) chunk content plain size short in
    let fitting : ltb pipe_buf (suc m + length row + 1) ≡ false =
      InOnePiece-fits row (suc m) (whole (omega arith)) in
    let (bodies, e, all, joined) =
      copy_chunks-Writes fuel m row body (drop m file) is_row is_body.0 (drop-NoNul m file h.1)
        (λ some_byte. whole (omega arith)) (ground (arith, length-drop m file)) in
    (
      body ∷ bodies,
      rw (copy_chunks, round_writes row (suc m) chunk content is_row plain size short, fitting, e)
          refl,
      (is_body, all),
      ap₂ (λ a b. a ++ b) (c_string-sent (suc m) chunk content plain) joined
          ∙ sym (map-append tab chunk (drop m file))
          ∙ ap (λ w. tab c ∷ map tab w) (take-append-drop m file),
    )

-- A producer with a row, a positive number of bytes and a file without NULs, whose buffers are written
-- in one piece, where the byte behind its buffer is 0: the buffers that it writes begin with the row and a blank, and hold behind them
-- as many bytes as were asked for; the strings at the front of these are the file, with tabs in place
-- of newlines.
pub read_to_fifo-Writes :
    (m : ℕ) (row file : List ℕ)
    → IsToken row_byte row
    → NoNul file
    → (0 < length file → InOnePiece row (suc m))
    → Writes row (suc m) file (read_to_fifo 0 row file (suc m))
unfolding read_to_fifo
read_to_fifo-Writes m row file is_row h whole =
    copy_chunks-Writes (suc (length file)) m row (replicate (suc m) 0) file is_row
      (length-replicate (suc m) 0) h whole (omega arith)

pub read_to_fifo_empty : (row : List ℕ) (m : ℕ) → read_to_fifo 0 row [] (suc m) ≡ some []
unfolding read_to_fifo copy_chunks
read_to_fifo_empty row m = refl
