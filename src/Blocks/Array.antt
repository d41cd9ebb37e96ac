-- ===== src/Blocks/Array.antt =====
-- The block that file_to_memory of cw01/zad1/mylib.c reads, and where it is stored.
use agh_sys_opy.Prelude.{ℕ, ◌≡◌, List, [], ◌∷◌, ◌++◌, some, not, ◌==◌}
use agh_sys_opy.Text.{is_space, strtol, tokens}
use agh_sys_opy.Text.Tokens.{Every}
use agh_sys_opy.Blocks.{FileInfo}

-- A line that `wc` prints, and its four words.
pub record WcLine : Type 0 where
  pub text : List ℕ
  pub line_count : List ℕ
  pub word_count : List ℕ
  pub byte_count : List ℕ
  pub file : List ℕ

abbrev pub IsWcLine : WcLine → Type 0
IsWcLine x =
    Every (λ c. not (c == 10)) x.text
    × (tokens is_space (x.text ++ (10 ∷ []))
        ≡ x.line_count ∷ x.word_count ∷ x.byte_count ∷ x.file ∷ [])

abbrev pub AllWcLines : List WcLine → Type 0
AllWcLines [] = Unit
AllWcLines (x ∷ xs) = IsWcLine x × AllWcLines xs

abbrev pub print_counts : List WcLine → List ℕ → List ℕ
print_counts [] rest = rest
print_counts (x ∷ xs) rest = x.text ++ (10 ∷ print_counts xs rest)

-- The entry of a line, without the name.
abbrev pub entry : WcLine → FileInfo
entry x = record {
  lines = strtol x.line_count;
  words = strtol x.word_count;
  chars = strtol x.byte_count;
  filename = some [];
}
