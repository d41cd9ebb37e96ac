-- ===== src/Fifo/Writes.antt =====
-- What a producer writes: one buffer of one size for each chunk, with the bytes of its file.
use agh_sys_opy.Prelude.{
  ℕ, suc, ◌+◌, ◌≤◌, ◌≡◌, refl, ap, sym, ◌∙◌, Bool, true, false, ◌&&◌, not, List, [], ◌∷◌, ◌++◌,
  append-nil, append_assoc, map, length, length-append, length-map, length-drop, take-append,
  drop-append, set-append, drop-all, drop_next, take, drop, set, some, ltb, ◌==◌, if◌then◌else◌,
  Bool-cases, inl, inr, dec_lt, arith,
}
use agh_sys_opy.Text.Tokens.{Every, IsToken}
use agh_sys_opy.Fifo.Producer.{replace_behind, remove_newlines, read_chunk}
use agh_sys_opy.Text.{c_string}
use agh_sys_opy.Text.Strings.{NoNul, c_string-append, c_string-NoNul}

-- A newline is written as a tab.
abbrev pub tab : ℕ → ℕ
tab c = if c == 10 then 9 else c

-- A row as it is given on the command line: not empty, no NUL, no newline.
abbrev pub row_byte : ℕ → Bool
row_byte c = not (c == 0) && not (c == 10)

replace_behind-append :
    (slack : ℕ) (w rest out : List ℕ)
    → NoNul w
    → replace_behind slack rest ≡ some out
    → replace_behind slack (w ++ rest) ≡ some (map tab w ++ out)
unfolding replace_behind
replace_behind-append slack [] rest out h e = e
replace_behind-append slack (c ∷ w) rest out h e =
    let nonzero : (tab c == 0) ≡ false = ground (arith, h.0) in
    rw (replace_behind, replace_behind-append slack w rest out h.1 e, nonzero) refl

map-tab_row : (w : List ℕ) → Every row_byte w → map tab w ≡ w
map-tab_row [] h = refl
map-tab_row (c ∷ w) h =
    let same : tab c ≡ c = ground (arith, h.0) in rw (same, map-tab_row w h.1) refl

row-NoNul : (w : List ℕ) → Every row_byte w → NoNul w
row-NoNul [] h = tt
row-NoNul (c ∷ w) h = (ground (arith, h.0), row-NoNul w h.1)

-- The row and the blank stay as they are.
remove_newlines_row :
    (slack : ℕ) (row body out : List ℕ)
    → IsToken row_byte row
    → replace_behind slack body ≡ some out
    → remove_newlines slack (row ++ (b' ' ∷ body)) ≡ some (row ++ (b' ' ∷ out))
unfolding remove_newlines replace_behind
remove_newlines_row slack [] body out h e = absurd h
remove_newlines_row slack (c ∷ row) body out h e =
    let nonzero : (c == 0) ≡ false = ground (arith, h.0) in
    let blank : replace_behind slack (b' ' ∷ body) ≡ some (b' ' ∷ out) =
      rw (replace_behind, e) refl in
    rw
      (
        nonzero,
        replace_behind-append slack row (b' ' ∷ body) (b' ' ∷ out) (row-NoNul row h.1) blank,
        map-tab_row row h.1,
      )
      refl

-- The content behind the row when a chunk has been read.
abbrev filled : ℕ → List ℕ → List ℕ → List ℕ
filled n chunk content =
    if ltb (length chunk) n then chunk ++ (0 ∷ drop (suc (length chunk)) content) else chunk

read_chunk-filled :
    (row : List ℕ) (n : ℕ) (chunk content : List ℕ)
    → length content ≡ n
    → length chunk ≤ n
    → read_chunk row n chunk (row ++ (b' ' ∷ content)) ≡ row ++ (b' ' ∷ filled n chunk content)
read_chunk-filled row n chunk content e le = elim (dec_lt (length chunk) n) [
  | yes lt ↦
      let less : ltb (length chunk) n ≡ true = ground (arith, lt) in
      let (x, next) = drop_next (length chunk) content (omega arith) in
      let behind = drop (suc (length chunk)) content in
      rw (less, taken, dropped, next)
        (ap (λ b. set b (length chunk + (length row + 1)) 0)
            (sym (append_assoc (row ++ (b' ' ∷ [])) chunk (x ∷ behind)))
          ∙ set-append (length chunk + (length row + 1)) ((row ++ (b' ' ∷ [])) ++ chunk) x 0 behind
              (omega
                (arith, length-append (row ++ (b' ' ∷ [])) chunk, length-append row (b' ' ∷ [])))
          ∙ append_assoc (row ++ (b' ' ∷ [])) chunk (0 ∷ behind)
          ∙ append_assoc row (b' ' ∷ []) (chunk ++ (0 ∷ behind)))
  | no ge ↦
      let less : ltb (length chunk) n ≡ false = ground (arith, ge) in
      rw (less, taken, dropped, drop-all (length chunk) content (omega arith), append-nil)
        (append_assoc row (b' ' ∷ []) chunk)
]
  where
    taken : take (length row + 1) (row ++ (b' ' ∷ content)) ≡ row ++ (b' ' ∷ [])
    taken =
        ap (take (length row + 1)) (sym (append_assoc row (b' ' ∷ []) content))
        ∙ take-append (length row + 1) (row ++ (b' ' ∷ [])) content
            (omega (arith, length-append row (b' ' ∷ [])))

    dropped :
        drop (length row + 1 + length chunk) (row ++ (b' ' ∷ content)) ≡ drop (length chunk) content
    dropped =
        drop-append (length row + 1 + length chunk) (suc (length chunk)) row (b' ' ∷ content)
          (omega arith)

-- The content that is written for a chunk.
abbrev pub sent : ℕ → List ℕ → List ℕ → List ℕ
sent n chunk content =
    if ltb (length chunk) n
    then map tab chunk ++ (0 ∷ drop (suc (length chunk)) content)
    else map tab chunk

replace_behind-filled :
    (n : ℕ) (chunk content : List ℕ)
    → NoNul chunk
    → replace_behind 0 (filled n chunk content) ≡ some (sent n chunk content)
unfolding replace_behind
replace_behind-filled n chunk content h = elim (Bool-cases (ltb (length chunk) n)) [
  | inl e ↦ rw e (replace_behind-append 0 chunk (0 ∷ drop (suc (length chunk)) content) _ h refl)
  | inr e ↦ rw e (
      ap (replace_behind 0) (sym (append-nil chunk))
      ∙ replace_behind-append 0 chunk [] [] h refl
      ∙ ap some (append-nil (map tab chunk)))
]

pub length-sent :
    (n : ℕ) (chunk content : List ℕ)
    → length content ≡ n
    → length chunk ≤ n
    → length (sent n chunk content) ≡ n
length-sent n chunk content e le = elim (Bool-cases (ltb (length chunk) n)) [
  | inl lt ↦ rw lt (
      ground (
        arith,
        lt,
        length-append (map tab chunk) (0 ∷ drop (suc (length chunk)) content),
        length-map chunk tab,
        length-drop (suc (length chunk)) content,
      ))
  | inr ge ↦ rw ge (ground (arith, ge, length-map chunk tab))
]

map-tab-NoNul : (w : List ℕ) → NoNul w → NoNul (map tab w)
map-tab-NoNul [] h = tt
map-tab-NoNul (c ∷ w) h = (ground (arith, h.0), map-tab-NoNul w h.1)

pub c_string-sent :
    (n : ℕ) (chunk content : List ℕ) → NoNul chunk → c_string (sent n chunk content) ≡ map tab chunk
c_string-sent n chunk content h = elim (Bool-cases (ltb (length chunk) n)) [
  | inl e ↦ rw e (c_string-append (map tab chunk) _ (map-tab-NoNul chunk h))
  | inr e ↦ rw e (c_string-NoNul (map tab chunk) (map-tab-NoNul chunk h))
]

-- One buffer that a producer writes.
abbrev pub buffer_of : List ℕ → List ℕ → List ℕ
buffer_of row body = row ++ (b' ' ∷ body)

pub round_writes :
    (row : List ℕ) (n : ℕ) (chunk content : List ℕ)
    → IsToken row_byte row
    → NoNul chunk
    → length content ≡ n
    → length chunk ≤ n
    → remove_newlines 0 (read_chunk row n chunk (buffer_of row content))
      ≡ some (buffer_of row (sent n chunk content))
round_writes row n chunk content is_row h e le =
    ap (remove_newlines 0) (read_chunk-filled row n chunk content e le)
    ∙ remove_newlines_row 0 row (filled n chunk content) (sent n chunk content) is_row
        (replace_behind-filled n chunk content h)
