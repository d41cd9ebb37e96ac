-- ===== src/Pipeline/Parse/Executables.antt =====
-- The lines of the pipelines, and how `parse_executables` reads them.
use agh_sys_opy.Prelude.{
  take-all, ℕ, zero, suc, ◌<◌, ◌≤◌, ◌≡◌, refl, Bool, true, ◌||◌, not, List, [], ◌∷◌, ◌++◌, map,
  append_assoc, some, ◌==◌, length, take, arith, ap, ◌∙◌,
}
use agh_sys_opy.Text.{strip_newline, getline, tokens}
use agh_sys_opy.Text.Tokens.{
  IsToken, IsToken-weaken, IsToken-Every, getline-Every, tokens-cut, tokens-skip, tokens_alone,
}
use agh_sys_opy.Pipeline.{Executable, max_size}
use agh_sys_opy.Pipeline.Parse.{parse_executable, parse_executables}
use agh_sys_opy.Pipeline.Parse.Words.{plain, Plain, map-strip_newline_end, end_line}
use agh_sys_opy.Pipeline.Parse.Counts.{print_lines, Lines}
use agh_sys_opy.Pipeline.Parse.Components.{IsToken-append, plain-one_line, one_line}

-- Names with a bar between them.
abbrev pub executable_line : Executable → List ℕ
executable_line [] = []
executable_line (n ∷ []) = n
executable_line (n ∷ m ∷ ns) = n ++ (b' ' ∷ b'|' ∷ b' ' ∷ executable_line (m ∷ ns))

-- A pipeline of one to ten names.
abbrev pub IsPipeline : Executable → Type 0
IsPipeline names = Plain names × (0 < length names) × (length names ≤ max_size)

-- The names of a pipeline.
abbrev bars : ℕ → Bool
bars c = c == b' ' || c == b'|'

outside_bars : (c : ℕ) → plain c ≡ true → not (bars c) ≡ true
outside_bars c e = ground (arith, e)

tokens-executable_line :
    (n : List ℕ) (ns : Executable)
    → Plain (n ∷ ns)
    → tokens bars (executable_line (n ∷ ns) ++ (10 ∷ [])) ≡ end_line (n ∷ ns)
tokens-executable_line n [] h =
    tokens_alone bars (n ++ (10 ∷ []))
      (IsToken-append _ n (10 ∷ []) (IsToken-weaken plain _ n outside_bars h.0) (refl, tt))
tokens-executable_line n (m ∷ ns) h =
    ap (tokens bars) (append_assoc n (b' ' ∷ b'|' ∷ b' ' ∷ executable_line (m ∷ ns)) (10 ∷ []))
    ∙ tokens-cut bars n b' ' _ (IsToken-weaken plain _ n outside_bars h.0) refl
    ∙ ap (λ ts. n ∷ ts)
        (tokens-skip bars b'|' _ refl
          ∙ tokens-skip bars b' ' _ refl
          ∙ tokens-executable_line m ns h.1)

take-map {ℓ κ} :
    {A : Type ℓ} {B : Type κ} (f : A → B) (n : ℕ) (xs : List A)
    → map f (take n xs) ≡ take n (map f xs)
take-map f zero xs = refl
take-map f (suc n) [] = refl
take-map f (suc n) (x ∷ xs) = ap (λ ys. f x ∷ ys) (take-map f n xs)

parse_executable-line :
    (names : Executable)
    → IsPipeline names
    → parse_executable (executable_line names ++ (10 ∷ [])) ≡ names
unfolding parse_executable
parse_executable-line [] (plain_names, some_name, few) = absurd (omega arith)
parse_executable-line (n ∷ ns) (plain_names, some_name, few) =
    ap (λ ts. map strip_newline (take max_size ts)) (tokens-executable_line n ns plain_names)
    ∙ take-map strip_newline max_size (end_line (n ∷ ns))
    ∙ ap (take max_size) (map-strip_newline_end (n ∷ ns) plain_names)
    ∙ take-all max_size (n ∷ ns) few

executable_line-IsToken :
    (names : Executable) → IsPipeline names → IsToken one_line (executable_line names)
executable_line-IsToken [] (plain_names, some_name, few) = absurd (omega arith)
executable_line-IsToken (n ∷ ns) (plain_names, some_name, few) = go n ns plain_names
  where
    go :
        (n : List ℕ) (ns : Executable)
        → Plain (n ∷ ns)
        → IsToken one_line (executable_line (n ∷ ns))
    go n [] h = IsToken-weaken plain one_line n plain-one_line h.0
    go n (m ∷ ns) h =
        IsToken-append one_line n _ (IsToken-weaken plain one_line n plain-one_line h.0)
          (refl, (refl, (refl, IsToken-Every one_line (executable_line (m ∷ ns)) (go m ns h.1))))

abbrev pub AllPipelines : List Executable → Type 0
AllPipelines [] = Unit
AllPipelines (l ∷ ls) = IsPipeline l × AllPipelines ls

parse_executables_next :
    (fuel room : ℕ) (l rest : List ℕ) (lines : List Executable)
    → IsToken one_line l
    → parse_executables fuel room rest ≡ some lines
    → parse_executables (suc fuel) (suc room) (l ++ (10 ∷ rest))
      ≡ some (parse_executable (l ++ (10 ∷ [])) ∷ lines)
unfolding parse_executables
parse_executables_next fuel room [] rest lines h f = absurd h
parse_executables_next fuel room (c ∷ l) rest lines h f =
    let cut : getline (c ∷ (l ++ (10 ∷ rest))) ≡ (c ∷ (l ++ (10 ∷ [])), rest) =
      getline-Every (c ∷ l) rest h in
    rw (parse_executables, cut, f, cut) refl

pub parse_executables-lines :
    (lines : List Executable) (fuel room : ℕ)
    → AllPipelines lines
    → length lines ≤ fuel
    → length lines ≤ room
    → parse_executables fuel room (print_lines (map executable_line lines) []) ≡ some lines
unfolding parse_executables
parse_executables-lines [] zero room h enough space = refl
parse_executables-lines (l ∷ ls) zero room h enough space = absurd (omega arith)
parse_executables-lines [] (suc fuel) room h enough space = refl
parse_executables-lines (l ∷ ls) (suc fuel) zero h enough space = absurd (omega arith)
parse_executables-lines (l ∷ ls) (suc fuel) (suc room) h enough space =
    parse_executables_next fuel room (executable_line l) _ ls (executable_line-IsToken l h.0)
      (parse_executables-lines ls fuel room h.1 (omega arith) (omega arith))
    ∙ ap (λ line. some (line ∷ ls)) (parse_executable-line l h.0)

pub printed_executables :
    (lines : List Executable) → AllPipelines lines → Lines (map executable_line lines)
printed_executables [] h = tt
printed_executables (l ∷ ls) h = (executable_line-IsToken l h.0, printed_executables ls h.1)
