-- ===== src/Pipeline/Parse/Counts.antt =====
-- `count_lines` on a file of lines, and the lines that `getline` reads.
use agh_sys_opy.Prelude.{
  ℕ, suc, ◌≡◌, refl, Bool, true, false, not, not-true, List, [], ◌∷◌, ◌++◌, ◌==◌, if◌then◌else◌,
  length, ap, ◌∙◌,
}
use agh_sys_opy.Text.Tokens.{Every, IsToken}
use agh_sys_opy.Pipeline.Parse.{count_lines, count_from}

abbrev pub in_line : ℕ → Bool
in_line c = not (c == 10)

-- Lines with a newline behind each, in front of what follows.
abbrev pub print_lines : List (List ℕ) → List ℕ → List ℕ
print_lines [] rest = rest
print_lines (l ∷ ls) rest = l ++ (10 ∷ print_lines ls rest)

-- Lines that are not empty.
abbrev pub Lines : List (List ℕ) → Type 0
Lines [] = Unit
Lines (l ∷ ls) = IsToken in_line l × Lines ls

abbrev one_more : Bool → ℕ × ℕ → ℕ × ℕ
one_more second (a, b) = if second then (a, suc b) else (suc a, b)

count_line :
    (second was_n : Bool) (l rest : List ℕ)
    → Every in_line l
    → was_n ≡ false
    → count_from second was_n (l ++ (10 ∷ rest)) ≡ one_more second (count_from second true rest)
unfolding count_from
count_line false was_n [] rest h e = rw e refl
count_line true was_n [] rest h e = rw e refl
count_line false was_n (c ∷ l) rest h e =
    rw (not-true (c == 10) h.0) (count_line false false l rest h.1 refl)
count_line true was_n (c ∷ l) rest h e =
    rw (not-true (c == 10) h.0) (count_line true false l rest h.1 refl)

count_token :
    (second was_n : Bool) (l rest : List ℕ)
    → IsToken in_line l
    → count_from second was_n (l ++ (10 ∷ rest)) ≡ one_more second (count_from second true rest)
unfolding count_from
count_token second was_n [] rest h = absurd h
count_token false was_n (c ∷ l) rest h =
    rw (not-true (c == 10) h.0) (count_line false false l rest h.1 refl)
count_token true was_n (c ∷ l) rest h =
    rw (not-true (c == 10) h.0) (count_line true false l rest h.1 refl)

count_second :
    (ls : List (List ℕ)) (was_n : Bool)
    → Lines ls
    → was_n ≡ true
    → count_from true was_n (print_lines ls []) ≡ (0, length ls)
unfolding count_from
count_second [] was_n h e = rw e refl
count_second (l ∷ ls) was_n h e =
    count_token true was_n l (print_lines ls []) h.0
    ∙ ap (one_more true) (count_second ls true h.1 refl)

count_first :
    (ls execs : List (List ℕ)) (was_n : Bool)
    → Lines ls
    → Lines execs
    → was_n ≡ true
    → count_from false was_n (print_lines ls (10 ∷ print_lines execs []))
      ≡ (length ls, length execs)
unfolding count_from
count_first [] execs was_n h he e = rw (e, count_second execs true he refl) refl
count_first (l ∷ ls) execs was_n h he e =
    count_token false was_n l _ h.0 ∙ ap (one_more false) (count_first ls execs true h.1 he refl)

-- The lines in front of the empty line and behind it are counted, where there is one in front.
pub count_lines-print_lines :
    (l : List ℕ) (ls execs : List (List ℕ))
    → Lines (l ∷ ls)
    → Lines execs
    → count_lines (print_lines (l ∷ ls) (10 ∷ print_lines execs []))
      ≡ (length (l ∷ ls), length execs)
unfolding count_lines
count_lines-print_lines l ls execs h he =
    count_token false false l _ h.0 ∙ ap (one_more false) (count_first ls execs true h.1 he refl)
