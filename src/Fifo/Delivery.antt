-- ===== src/Fifo/Delivery.antt =====
-- Producers and a consumer together.
use agh_sys_opy.Prelude.{
  ℕ, zero, suc, ◌+◌, ◌-◌, ◌^◌, ◌<◌, ◌≡◌, ◌≢◌, refl, ap, sym, subst, ◌∙◌, List, [], ◌∷◌, ◌++◌,
  append_assoc, append-nil, map, length, length-append, get_or, some, ◌==◌, if◌then◌else◌, write_at,
  write_at_elim, arith,
}
use agh_sys_opy.Text.{print_decimal}
use agh_sys_opy.Text.Tokens.{IsToken, print_decimal-IsToken}
use agh_sys_opy.Text.{c_string}
use agh_sys_opy.Text.Strings.{NoNul}
use agh_sys_opy.Fifo.Lines.{
  render, AllNoNewline, append_at, append_at-AllNoNewline, add_line-append_at,
}
use agh_sys_opy.Fifo.Producer.{read_to_fifo}
use agh_sys_opy.Fifo.Consumer.{Outcome, finished, read_loop, read_from_fifo}
use agh_sys_opy.Fifo.Writes.{tab, row_byte, buffer_of}
use agh_sys_opy.Fifo.Chunks.{
  InOnePiece, Writes, texts, IsBody, AllBodies, read_to_fifo-Writes, read_to_fifo_empty,
}
use agh_sys_opy.Fifo.Reads.{read_loop-buffer_of}

-- The buffers in the order in which they are written to the FIFO, each with the number of its
-- producer, from 0 on.
abbrev pub Writings : Type 0
Writings = List (ℕ × List ℕ)

-- The bytes of the FIFO, and the buffers of one producer.
abbrev pub all_bytes : Writings → List ℕ
all_bytes [] = []
all_bytes ((j, buffer) ∷ ws) = buffer ++ all_bytes ws

abbrev pub buffers_of : ℕ → Writings → List (List ℕ)
buffers_of i [] = []
buffers_of i ((j, buffer) ∷ ws) =
    let rest = buffers_of i ws in if i == j then buffer ∷ rest else rest

-- The producer number `j` writes to the line number `j + 1`.
abbrev pub row : ℕ → List ℕ
row j = print_decimal (suc j)

-- A line, from 0 on; one that is missing is empty.
abbrev pub line_at : ℕ → List (List ℕ) → List ℕ
line_at i ls = get_or ls i []

line_at-append_at_self :
    (k : ℕ) (text : List ℕ) (ls : List (List ℕ))
    → line_at k (append_at k text ls) ≡ line_at k ls ++ text
line_at-append_at_self zero text [] = refl
line_at-append_at_self (suc k) text [] = line_at-append_at_self k text []
line_at-append_at_self zero text (l ∷ ls) = refl
line_at-append_at_self (suc k) text (l ∷ ls) = line_at-append_at_self k text ls

line_at-append_at_ne :
    (i k : ℕ) (text : List ℕ) (ls : List (List ℕ))
    → i ≢ k
    → line_at i (append_at k text ls) ≡ line_at i ls
line_at-append_at_ne zero zero text ls ne = absurd (ne refl)
line_at-append_at_ne zero (suc k) text [] ne = refl
line_at-append_at_ne zero (suc k) text (l ∷ ls) ne = refl
line_at-append_at_ne (suc i) zero text [] ne = refl
line_at-append_at_ne (suc i) zero text (l ∷ ls) ne = refl
line_at-append_at_ne (suc i) (suc k) text [] ne =
    line_at-append_at_ne i k text [] (λ e. ne (ap suc e))
line_at-append_at_ne (suc i) (suc k) text (l ∷ ls) ne =
    line_at-append_at_ne i k text ls (λ e. ne (ap suc e))

-- What the writings are made of: each producer's buffers, with bodies of one size.
pub record Made (n : ℕ) (ws : Writings) (bodies : ℕ → List (List ℕ)) : Type 0 where
  pub own : (j : ℕ) → buffers_of j ws ≡ map (buffer_of (row j)) (bodies j)
  pub sized : (j : ℕ) → AllBodies n (bodies j)
  pub fits : (j : ℕ) → 0 < length (bodies j) → suc j < 2 ^ 31

-- The first buffer is the first one of its producer.
pub record First (n : ℕ) (j : ℕ) (buffer : List ℕ) (ws : Writings) (bodies : ℕ → List (List ℕ))
    : Type 0 where
  pub body : List ℕ
  pub left : List (List ℕ)
  pub all_bodies : bodies j ≡ body ∷ left
  pub is_buffer : buffer ≡ buffer_of (row j) body
  pub is_body : IsBody n body
  pub small : suc j < 2 ^ 31
  pub behind : Made n ws (write_at j left bodies)

own_first :
    (j i : ℕ) (buffer : List ℕ) (ws : Writings)
    → i ≡ j
    → buffers_of i ((j, buffer) ∷ ws) ≡ buffer ∷ buffers_of i ws
own_first j i buffer ws e = ground (arith, e)

own_other :
    (j i : ℕ) (buffer : List ℕ) (ws : Writings)
    → i ≢ j
    → buffers_of i ((j, buffer) ∷ ws) ≡ buffers_of i ws
own_other j i buffer ws e = ground (arith, e)

next_writing :
    (n j : ℕ) (buffer : List ℕ) (ws : Writings) (bodies : ℕ → List (List ℕ))
    → Made n ((j, buffer) ∷ ws) bodies
    → (bs : List (List ℕ)) → bodies j ≡ bs
    → First n j buffer ws bodies
next_writing n j buffer ws bodies made [] e =
    absurd
      (not_empty (sym (own_first j j buffer ws refl) ∙ made.own j ∙ ap (map (buffer_of (row j))) e))
  where
    not_empty : {x : List ℕ} {xs : List (List ℕ)} → x ∷ xs ≡ [] → ⊥
    not_empty h = cc
next_writing n j buffer ws bodies made (b ∷ bs) e = record {
  body = b;
  left = bs;
  all_bodies = e;
  is_buffer = (cons_parts both).0;
  is_body = sized.0;
  small = small;
  behind = record {
    own = λ i.
        write_at_elim (λ k cs. buffers_of k ws ≡ map (buffer_of (row k)) cs) j i bs bodies
          (cons_parts both).1
          (λ ne. sym (own_other j i buffer ws (λ same. ne (sym same))) ∙ made.own i);
    sized = λ i. write_at_elim (λ k cs. AllBodies n cs) j i bs bodies sized.1 (λ ne. made.sized i);
    fits = λ i.
        write_at_elim (λ k cs. 0 < length cs → suc k < 2 ^ 31) j i bs bodies (λ some_left. small)
          (λ ne. made.fits i);
  };
}
  where
    cons_parts : {x y : List ℕ} {xs ys : List (List ℕ)} → x ∷ xs ≡ y ∷ ys → (x ≡ y) × (xs ≡ ys)
    cons_parts h = (cc, cc)

    both : buffer ∷ buffers_of j ws ≡ buffer_of (row j) b ∷ map (buffer_of (row j)) bs
    both = sym (own_first j j buffer ws refl) ∙ made.own j ∙ ap (map (buffer_of (row j))) e

    sized : AllBodies n (b ∷ bs)
    sized = subst (AllBodies n) e (made.sized j)

    small : suc j < 2 ^ 31
    small = made.fits j (subst (λ cs. 0 < length cs) (sym e) (omega arith))

-- What is left in the lines when the consumer has read the FIFO.
abbrev pub Delivered : List (List ℕ) → (ℕ → List (List ℕ)) → Outcome → Type 0
Delivered ls bodies outcome =
    (ends : List (List ℕ)) × (outcome ≡ finished (render ends))
    × ((i : ℕ) → line_at i ends ≡ line_at i ls ++ texts (bodies i))

-- One text is in its line already.
deliver_text :
    (j : ℕ) (text : List ℕ) (left : List (List ℕ)) (ls : List (List ℕ)) (bodies : ℕ → List (List ℕ))
    → text ++ texts left ≡ texts (bodies j)
    → (i : ℕ)
    → line_at i (append_at j text ls) ++ texts (write_at j left bodies i)
      ≡ line_at i ls ++ texts (bodies i)
deliver_text j text left ls bodies e i =
    write_at_elim
      (λ k cs. line_at k (append_at j text ls) ++ texts cs ≡ line_at k ls ++ texts (bodies k)) j i
      left bodies
      (ap (λ l. l ++ texts left) (line_at-append_at_self j text ls)
        ∙ append_assoc (line_at j ls) text (texts left)
        ∙ ap (λ t. line_at j ls ++ t) e)
      (λ ne.
        ap (λ l. l ++ texts (bodies i)) (line_at-append_at_ne i j text ls (λ same. ne (sym same))))

none_left : (i : ℕ) (bs : List (List ℕ)) → [] ≡ map (buffer_of (row i)) bs → texts bs ≡ []
none_left i [] e = refl
none_left i (b ∷ bs) e = absurd cc

read_loop-Delivered :
    (n : ℕ) (ws : Writings) (bodies : ℕ → List (List ℕ)) (ls : List (List ℕ)) (total : ℕ)
    → 0 < n
    → Made n ws bodies
    → AllNoNewline ls
    → length (all_bytes ws) < total
    → Delivered ls bodies (read_loop total n [] (all_bytes ws) (render ls))
unfolding read_loop
read_loop-Delivered n [] bodies ls zero positive made h enough = absurd (omega arith)
read_loop-Delivered n [] bodies ls (suc total) positive made h enough = (
  ls,
  refl,
  λ i.
      sym (append-nil (line_at i ls))
      ∙ ap (λ t. line_at i ls ++ t) (sym (none_left i (bodies i) (made.own i))),
)
read_loop-Delivered n ((j, buffer) ∷ ws) bodies ls total positive made h enough =
    let f = next_writing n j buffer ws bodies made (bodies j) refl in
    let text : List ℕ = c_string f.body in
    let fuel : ℕ = total - length (row j) - 1 in
    let size : length (buffer ++ all_bytes ws)
        ≡ length (row j) + suc (length f.body) + length (all_bytes ws) =
      ap (λ b. length (b ++ all_bytes ws)) f.is_buffer
      ∙ omega (
        arith,
        length-append (buffer_of (row j) f.body) (all_bytes ws),
        length-append (row j) (b' ' ∷ f.body),
      ) in
    let (ends, e, lines) =
      read_loop-Delivered n ws (write_at j f.left bodies) (append_at j text ls) fuel positive
        f.behind (append_at-AllNoNewline j text ls h f.is_body.1) (omega (arith, size)) in
    (
      ends,
      ap (λ b. read_loop total n [] (b ++ all_bytes ws) (render ls)) f.is_buffer
          ∙ read_loop-buffer_of total fuel n j f.body (all_bytes ws) (render ls)
              (omega (arith, size)) f.small positive f.is_body.0
          ∙ ap (read_loop fuel n [] (all_bytes ws)) (add_line-append_at ls j text h)
          ∙ e,
      λ i. lines i ∙ deliver_text j text f.left ls bodies (sym (ap texts f.all_bodies)) i,
    )

row-IsToken : (j : ℕ) → IsToken row_byte (row j)
row-IsToken j = print_decimal-IsToken row_byte (suc j) (λ d lt. ground arith)

some_eq : {x y : List (List ℕ)} → some x ≡ some y → x ≡ y
some_eq h = cc

no_body : (j : ℕ) (bs : List (List ℕ)) → 0 < length bs → [] ≡ map (buffer_of (row j)) bs → ⊥
no_body j [] h e = omega arith
no_body j (b ∷ bs) h e = cc

-- Any number of producers, with a positive number of bytes for each chunk, and a consumer with the
-- same number. The producer number `j` has a file without NULs, which is empty unless `j + 1` fits an
-- `int`, and writes to the line number `j + 1`; the byte behind its buffer is 0. The row, the blank and
-- the bytes of a chunk are PIPE_BUF = 4096 bytes at most, so that the kernel writes a buffer as one
-- piece. The buffers are written to the FIFO in any order in which each producer's buffers stay in order. From a file of
-- lines, each with a newline behind it, the consumer makes a file of lines in which each producer's
-- file stands at the end of its line, with tabs in place of newlines.
pub read_from_fifo-read_to_fifo :
    (m : ℕ) (files : ℕ → List ℕ) (ws : Writings) (ls : List (List ℕ))
    → ((j : ℕ) → NoNul (files j))
    → ((j : ℕ) → 0 < length (files j) → suc j < 2 ^ 31)
    → ((j : ℕ) → 0 < length (files j) → InOnePiece (row j) (suc m))
    → ((j : ℕ) → read_to_fifo 0 (row j) (files j) (suc m) ≡ some (buffers_of j ws))
    → AllNoNewline ls
    → (ends : List (List ℕ)) × (read_from_fifo (suc m) (all_bytes ws) (render ls)
        ≡ finished (render ends))
      × ((i : ℕ) → line_at i ends ≡ line_at i ls ++ map tab (files i))
unfolding read_from_fifo
read_from_fifo-read_to_fifo m files ws ls plain fits whole written h =
    let (ends, e, lines) =
      read_loop-Delivered (suc m) ws bodies ls (suc (length (all_bytes ws))) (omega arith) made h
        (omega arith) in
    (ends, e, λ i. lines i ∙ ap (λ t. line_at i ls ++ t) (writes i).3)
  where
    writes : (j : ℕ) → Writes (row j) (suc m) (files j) (read_to_fifo 0 (row j) (files j) (suc m))
    writes j = read_to_fifo-Writes m (row j) (files j) (row-IsToken j) (plain j) (whole j)

    bodies : ℕ → List (List ℕ)
    bodies j = (writes j).0

    own : (j : ℕ) → buffers_of j ws ≡ map (buffer_of (row j)) (bodies j)
    own j = some_eq (sym (written j) ∙ (writes j).1)

    some_byte :
        (j : ℕ) (file : List ℕ) → files j ≡ file → 0 < length (bodies j) → 0 < length (files j)
    some_byte j (c ∷ file) e some_body = subst (λ f. 0 < length f) (sym e) (omega arith)
    some_byte j [] e some_body = absurd (
        no_body j (bodies j) some_body (
          some_eq (
            sym (read_to_fifo_empty (row j) m)
            ∙ ap (λ f. read_to_fifo 0 (row j) f (suc m)) (sym e)
            ∙ (writes j).1)))

    made : Made (suc m) ws bodies
    made = record {
      own = λ j. own j;
      sized = λ j. (writes j).2;
      fits = λ j some_body. fits j (some_byte j (files j) refl some_body);
    }
