-- ===== src/Image/Files/Lines.antt =====
-- The lines of a file that `save_image` writes: how long they are, and how `read_image` reads them.
use agh_sys_opy.Prelude.{
  ℕ, zero, suc, ◌-◌, ◌<◌, ◌≤◌, ◌≡◌, refl, Bool, false, not, ◌||◌, List, [], ◌∷◌, ◌++◌, append_assoc,
  append-nil, Option, some, length, ◌==◌, arith, ap, ◌∙◌,
}
use agh_sys_opy.Prelude.Int.{ℤ}
use agh_sys_opy.Text.{print_int, tokens, scan, fgets}
use agh_sys_opy.Text.Tokens.{
  Every, IsToken, IsToken-Every, Every-append, Every-weaken, IsToken-weaken, join_words,
  print_int-IsToken, fgets-line, fgets_last, tokens-join_words, Tokens,
}
use agh_sys_opy.Image.Files.{
  max_line, Reading, Outcome, ok, is_delim, read_words, bind, is_comment, read_lines, read_line,
  read_word,
}

-- The values as they are printed: `n` of them from `i` on.
abbrev pub printed : ℕ → ℕ → (ℕ → ℤ) → List (List ℕ)
printed zero i values = []
printed (suc n) i values = print_int (values i) ∷ printed n (suc i) values

-- The bytes of a word: no delimiter, and no mark of a comment.
abbrev pub plain : ℕ → Bool
plain c = not (is_delim c || c == b'#')

abbrev pub Plain : List (List ℕ) → Type 0
Plain [] = Unit
Plain (w ∷ ws) = IsToken plain w × Plain ws

Plain-Tokens : (ws : List (List ℕ)) → Plain ws → Tokens is_delim ws
Plain-Tokens [] h = tt
Plain-Tokens (w ∷ ws) h =
    (IsToken-weaken plain _ w (λ c e. ground (arith, e)) h.0, Plain-Tokens ws h.1)

pub print_int-Plain : (v : ℤ) → IsToken plain (print_int v)
print_int-Plain v = print_int-IsToken plain v (λ d h. ground arith) refl

pub is_comment-Plain : (w : List ℕ) → IsToken plain w → is_comment w ≡ false
is_comment-Plain [] h = refl
is_comment-Plain (c ∷ w) h = ground (arith, h.0)

pub IsToken-one_line : (w : List ℕ) → IsToken plain w → Every (λ c. not (c == 10)) w
IsToken-one_line w h = Every-weaken plain _ w (λ c e. ground (arith, e)) (IsToken-Every plain w h)

join_words_one_line : (ws : List (List ℕ)) → Plain ws → Every (λ c. not (c == 10)) (join_words ws)
join_words_one_line [] h = tt
join_words_one_line (w ∷ []) h = IsToken-one_line w h.0
join_words_one_line (w ∷ v ∷ ws) h =
    Every-append _ w (b' ' ∷ join_words (v ∷ ws)) (IsToken-one_line w h.0)
      (refl, join_words_one_line (v ∷ ws) h.1)

-- One more word on a line.
pub join_words-append :
    (w : List ℕ) (ws : List (List ℕ)) (v : List ℕ)
    → join_words ((w ∷ ws) ++ (v ∷ [])) ≡ join_words (w ∷ ws) ++ (b' ' ∷ v)
join_words-append w [] v = refl
join_words-append w (u ∷ ws) v =
    ap (λ s. w ++ (b' ' ∷ s)) (join_words-append u ws v) ∙ rw append_assoc refl

pub Plain-append :
    (ws : List (List ℕ)) (v : List ℕ) → Plain ws → IsToken plain v → Plain (ws ++ (v ∷ []))
Plain-append [] v h hv = (hv, tt)
Plain-append (w ∷ ws) v h hv = (h.0, Plain-append ws v h.1 hv)

bind_assoc :
    {A B C : Type 0} (o : Outcome A) (f : A → Outcome B) (g : B → Outcome C)
    → bind (bind o f) g ≡ bind o (λ a. bind (f a) g)
bind_assoc (ok a) f g = refl
bind_assoc Outcome.exited f g = refl
bind_assoc Outcome.undefined f g = refl
bind_assoc Outcome.negative_size f g = refl
bind_assoc Outcome.out_of_fuel f g = refl

bind-congr :
    {A B : Type 0} (o : Outcome A) (f g : A → Outcome B)
    → ((a : A) → f a ≡ g a)
    → bind o f ≡ bind o g
bind-congr (ok a) f g h = h a
bind-congr Outcome.exited f g h = refl
bind-congr Outcome.undefined f g h = refl
bind-congr Outcome.negative_size f g h = refl
bind-congr Outcome.out_of_fuel f g h = refl

pub read_words-append :
    (xs ys : List (List ℕ)) (r : Reading)
    → read_words (xs ++ ys) r ≡ bind (read_words xs r) (λ next. read_words ys next)
unfolding read_words
read_words-append [] ys r = refl
read_words-append (x ∷ xs) ys r =
    bind-congr (read_word r.word_num x r) _ _ (λ next. read_words-append xs ys next)
    ∙ rw (bind_assoc (read_word r.word_num x r)) refl

-- A line by its words.
read_line-Plain :
    (w : List ℕ) (ws : List (List ℕ)) (end : List ℕ) (r : Reading)
    → Plain (w ∷ ws)
    → scan is_delim end ≡ ([], [])
    → read_line (tokens is_delim (join_words (w ∷ ws) ++ end)) r
      ≡ bind (read_words (w ∷ ws) r) (λ next. ok (w, next))
unfolding read_line
read_line-Plain w ws end r h e =
    rw
      (
        tokens-join_words is_delim w ws end refl e (Plain-Tokens (w ∷ ws) h),
        read_line,
        is_comment-Plain w h.0,
      )
      refl

read_lines_next :
    (fuel c : ℕ) (file line rest : List ℕ) (stale : Option (List ℕ)) (r : Reading)
    → fgets (max_line - 1) (c ∷ file) ≡ (line, rest)
    → read_lines (suc fuel) (c ∷ file) stale r
      ≡ bind (read_line (tokens is_delim line) r) (λ p. read_lines fuel rest (some p.0) p.1)
unfolding read_lines
read_lines_next fuel c file line rest stale r e = rw (read_lines, e) refl

read_lines_cut :
    (fuel : ℕ) (file line rest : List ℕ) (w : List ℕ) (ws : List (List ℕ)) (stale : Option (List ℕ))
    (r : Reading)
    → IsToken plain w
    → fgets (max_line - 1) ((join_words (w ∷ ws)) ++ file) ≡ (line, rest)
    → read_lines (suc fuel) ((join_words (w ∷ ws)) ++ file) stale r
      ≡ bind (read_line (tokens is_delim line) r) (λ p. read_lines fuel rest (some p.0) p.1)
read_lines_cut fuel file line rest [] ws stale r h e = absurd h
read_lines_cut fuel file line rest (c ∷ w) [] stale r h e =
    read_lines_next fuel c (w ++ file) line rest stale r e
read_lines_cut fuel file line rest (c ∷ w) (v ∷ ws) stale r h e =
    read_lines_next fuel c ((w ++ (b' ' ∷ join_words (v ∷ ws))) ++ file) line rest stale r e

-- A line of the file, and the file behind it.
pub read_lines-line :
    (fuel : ℕ) (w : List ℕ) (ws : List (List ℕ)) (rest : List ℕ) (stale : Option (List ℕ))
    (r : Reading)
    → Plain (w ∷ ws)
    → length (join_words (w ∷ ws)) < max_line - 1
    → read_lines (suc fuel) (join_words (w ∷ ws) ++ (10 ∷ rest)) stale r
      ≡ bind (read_words (w ∷ ws) r) (λ next. read_lines fuel rest (some w) next)
unfolding scan
read_lines-line fuel w ws rest stale r h short =
    read_lines_cut fuel (10 ∷ rest) _ rest w ws stale r h.0
      (fgets-line (max_line - 1) (join_words (w ∷ ws)) rest short (join_words_one_line (w ∷ ws) h))
    ∙ rw (read_line-Plain w ws (10 ∷ []) r h refl) (bind_assoc (read_words (w ∷ ws) r) _ _)

-- The last line, which no newline ends.
pub read_lines_last :
    (fuel : ℕ) (w : List ℕ) (ws : List (List ℕ)) (stale : Option (List ℕ)) (r : Reading)
    → Plain (w ∷ ws)
    → length (join_words (w ∷ ws)) ≤ max_line - 1
    → read_lines (suc fuel) (join_words (w ∷ ws)) stale r
      ≡ bind (read_words (w ∷ ws) r) (λ next. read_lines fuel [] (some w) next)
unfolding scan
read_lines_last fuel w ws stale r h short =
    rw append-nil at (
      read_lines_cut fuel [] (join_words (w ∷ ws)) [] w ws stale r h.0 (
        rw append-nil
          (fgets_last (max_line - 1) (join_words (w ∷ ws)) short (join_words_one_line (w ∷ ws) h))))
    ∙ rw (rw append-nil at (read_line-Plain w ws [] r h refl))
        (bind_assoc (read_words (w ∷ ws) r) _ _)
