-- ===== src/Pipeline/Parse/Words.antt =====
-- Words without spaces, and how the commands made of them are written and parsed.
use agh_sys_opy.Prelude.{
  ℕ, suc, ◌≡◌, refl, Bool, true, false, ◌||◌, not, List, [], ◌∷◌, ◌++◌, map, append_assoc,
  append-nil, some, ◌==◌, ltb, length, arith, ap, ◌∙◌, sym,
}
use agh_sys_opy.Text.{is_space, strip_newline, tokens, scan}
use agh_sys_opy.Text.Words.{strip_newline-append}
use agh_sys_opy.Text.Tokens.{
  Every, IsToken, Tokens, join_words, Every-append, Every-weaken, IsToken-weaken, IsToken-Every,
  tokens-skip, tokens-join_words,
}
use agh_sys_opy.Pipeline.Parse.{count_words, count_words_from, parse_command}

-- The bytes of a word: no space, and neither of the marks of the file.
abbrev pub plain : ℕ → Bool
plain c = not (is_space c || (c == b'=' || c == b'|'))

abbrev pub Plain : List (List ℕ) → Type 0
Plain [] = Unit
Plain (w ∷ ws) = IsToken plain w × Plain ws

-- A command with words.
abbrev pub IsCommand : List (List ℕ) → Type 0
IsCommand [] = ⊥
IsCommand (w ∷ ws) = Plain (w ∷ ws)

pub Plain-Tokens :
    (d : ℕ → Bool) (ws : List (List ℕ))
    → ((c : ℕ) → plain c ≡ true → not (d c) ≡ true)
    → Plain ws
    → Tokens d ws
Plain-Tokens d [] f h = tt
Plain-Tokens d (w ∷ ws) f h = (IsToken-weaken plain _ w f h.0, Plain-Tokens d ws f h.1)

strip_newline_word : (w : List ℕ) → Every plain w → strip_newline w ≡ w
unfolding strip_newline
strip_newline_word [] h = refl
strip_newline_word (c ∷ []) h = ground (arith, h.0)
strip_newline_word (c ∷ d ∷ w) h = ap (λ s. c ∷ s) (strip_newline_word (d ∷ w) h.1)

pub map-strip_newline : (ws : List (List ℕ)) → Plain ws → map strip_newline ws ≡ ws
map-strip_newline [] h = refl
map-strip_newline (w ∷ ws) h =
    rw (strip_newline_word w (IsToken-Every plain w h.0), map-strip_newline ws h.1) refl

-- The last word with the newline of its line.
abbrev pub end_line : List (List ℕ) → List (List ℕ)
end_line [] = []
end_line (w ∷ []) = (w ++ (10 ∷ [])) ∷ []
end_line (w ∷ v ∷ ws) = w ∷ end_line (v ∷ ws)

join_words-end_line :
    (w : List ℕ) (ws : List (List ℕ))
    → join_words (end_line (w ∷ ws)) ≡ join_words (w ∷ ws) ++ (10 ∷ [])
join_words-end_line w [] = refl
join_words-end_line w (v ∷ []) = rw append_assoc refl
join_words-end_line w (v ∷ u ∷ ws) =
    ap (λ s. w ++ (b' ' ∷ s)) (join_words-end_line v (u ∷ ws))
    ∙ sym (append_assoc w (b' ' ∷ join_words (v ∷ u ∷ ws)) (10 ∷ []))

pub map-strip_newline_end : (ws : List (List ℕ)) → Plain ws → map strip_newline (end_line ws) ≡ ws
map-strip_newline_end [] h = refl
map-strip_newline_end (w ∷ []) h = rw (strip_newline-append w) refl
map-strip_newline_end (w ∷ v ∷ ws) h =
    rw (strip_newline_word w (IsToken-Every plain w h.0), map-strip_newline_end (v ∷ ws) h.1) refl

IsToken-append : (p : ℕ → Bool) (w s : List ℕ) → IsToken p w → Every p s → IsToken p (w ++ s)
IsToken-append p [] s h hs = absurd h
IsToken-append p (c ∷ w) s h hs = Every-append p (c ∷ w) s h hs

pub end_line-Tokens :
    (d : ℕ → Bool) (ws : List (List ℕ)) → d 10 ≡ false → Tokens d ws → Tokens d (end_line ws)
end_line-Tokens d [] e h = tt
end_line-Tokens d (w ∷ []) e h = (IsToken-append _ w (10 ∷ []) h.0 (ap not e, tt), tt)
end_line-Tokens d (w ∷ v ∷ ws) e h = (h.0, end_line-Tokens d (v ∷ ws) e h.1)

not_space : (c : ℕ) → plain c ≡ true → is_space c ≡ false
not_space c h = ground (arith, h)

-- The words of a command are counted, whatever space ends it.
count_word :
    (w s : List ℕ) → Every plain w → count_words_from true (w ++ s) ≡ count_words_from true s
unfolding count_words_from
count_word [] s h = refl
count_word (c ∷ w) s h = rw (not_space c h.0) (count_word w s h.1)

count_word_first :
    (w s : List ℕ) → IsToken plain w → count_words_from false (w ++ s) ≡ count_words_from true s
unfolding count_words_from
count_word_first [] s h = absurd h
count_word_first (c ∷ w) s h = rw (not_space c h.0) (count_word w s h.1)

pub count_words-join_words :
    (w : List ℕ) (ws : List (List ℕ)) (d : ℕ)
    → is_space d ≡ true
    → Plain (w ∷ ws)
    → count_words_from false (join_words (w ∷ ws) ++ (d ∷ [])) ≡ length (w ∷ ws)
unfolding count_words_from
count_words-join_words w [] d e h = count_word_first w (d ∷ []) h.0 ∙ rw e refl
count_words-join_words w (v ∷ ws) d e h =
    ap (λ s. count_words_from false s) (append_assoc w (b' ' ∷ join_words (v ∷ ws)) (d ∷ []))
    ∙ count_word_first w _ h.0
    ∙ ap suc (count_words-join_words v ws d e h.1)

pub join_words-Every :
    (p : ℕ → Bool) (ws : List (List ℕ))
    → p b' ' ≡ true
    → ((c : ℕ) → plain c ≡ true → p c ≡ true)
    → Plain ws
    → Every p (join_words ws)
join_words-Every p [] e f h = tt
join_words-Every p (w ∷ []) e f h = Every-weaken plain p w f (IsToken-Every plain w h.0)
join_words-Every p (w ∷ v ∷ ws) e f h =
    Every-append p w (b' ' ∷ join_words (v ∷ ws))
      (Every-weaken plain p w f (IsToken-Every plain w h.0))
      (e, join_words-Every p (v ∷ ws) e f h.1)

-- A command between bars, and at the end of a line.
abbrev pub in_line : List (List ℕ) → List ℕ
in_line ws = b' ' ∷ (join_words ws ++ (b' ' ∷ []))

abbrev pub at_end : List (List ℕ) → List ℕ
at_end ws = b' ' ∷ (join_words ws ++ (10 ∷ []))

end_tokens :
    (ws : List (List ℕ)) → Tokens (λ c. c == b' ') ws → tokens (λ c. c == b' ') (join_words ws) ≡ ws
unfolding tokens scan
end_tokens [] h = refl
end_tokens (w ∷ ws) h = rw append-nil at (tokens-join_words (λ c. c == b' ') w ws [] refl refl h)

parsed :
    (d : ℕ) (w : List ℕ) (ws : List (List ℕ))
    → is_space d ≡ true
    → Plain (w ∷ ws)
    → map strip_newline (tokens (λ c. c == b' ') (join_words (w ∷ ws) ++ (d ∷ []))) ≡ w ∷ ws
    → parse_command (b' ' ∷ (join_words (w ∷ ws) ++ (d ∷ []))) ≡ some (w ∷ ws)
unfolding parse_command count_words count_words_from
parsed d w ws e h t =
    rw
      (
        tokens-skip (λ c. c == b' ') b' ' (join_words (w ∷ ws) ++ (d ∷ [])) refl,
        t,
        count_words-join_words w ws d e h,
        enough (length ws),
      )
      refl
  where
    enough : (n : ℕ) → ltb (suc n) (suc n) ≡ false
    enough n = ground arith

pub parse_command-in_line :
    (ws : List (List ℕ)) → IsCommand ws → parse_command (in_line ws) ≡ some ws
unfolding scan
parse_command-in_line [] h = absurd h
parse_command-in_line (w ∷ ws) h = parsed b' ' w ws refl h (
    ap (map strip_newline) (
      tokens-join_words (λ c. c == b' ') w ws (b' ' ∷ []) refl refl
        (Plain-Tokens (λ c. c == b' ') (w ∷ ws) (λ c e. ground (arith, e)) h))
    ∙ map-strip_newline (w ∷ ws) h)

pub parse_command-at_end : (ws : List (List ℕ)) → IsCommand ws → parse_command (at_end ws) ≡ some ws
unfolding scan
parse_command-at_end [] h = absurd h
parse_command-at_end (w ∷ ws) h = parsed 10 w ws refl h (
    ap (λ s. map strip_newline (tokens (λ c. c == b' ') s)) (sym (join_words-end_line w ws))
    ∙ ap (map strip_newline) (
        end_tokens (end_line (w ∷ ws))
          (end_line-Tokens _ (w ∷ ws) refl (Plain-Tokens _ (w ∷ ws) (λ c e. ground (arith, e)) h)))
    ∙ map-strip_newline_end (w ∷ ws) h)
