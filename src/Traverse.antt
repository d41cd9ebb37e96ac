-- ===== src/Traverse.antt =====
-- traverse_dir of cw03/zad3/main.c, which searches a directory for files that contain a string. The
-- files and the answers of libmagic are parameters. Loading libmagic does not fail.
pub mod Found
pub mod Shown
mod Tests
use agh_sys_opy.Prelude.{
  ℕ, zero, suc, Bool, true, false, ◌||◌, List, [], ◌∷◌, ◌++◌, take, Option, none, some, str_eq,
  if◌then◌else◌, ◌==◌,
}
use agh_sys_opy.Text.{c_string}

pub data Kind : Type 0 where
  dt_reg : Kind
  dt_dir : Kind
  dt_other : Kind

pub record Dirent : Type 0 where
  pub d_name : List ℕ
  pub d_type : Kind

-- What a path names: the entries of a directory, the description by libmagic, the lines of a file;
-- `none` where it cannot be opened.
pub record Files : Type 0 where
  pub entries : List ℕ → Option (List Dirent)
  pub magic_file : List ℕ → List ℕ
  pub lines : List ℕ → Option (List (List ℕ))

abbrev pub starts_with : List ℕ → List ℕ → Bool
starts_with s [] = true
starts_with [] (c ∷ t) = false
starts_with (d ∷ s) (c ∷ t) = let rest = starts_with s t in if d == c then rest else false

-- `strstr(s, t) != NULL`
abbrev pub strstr : List ℕ → List ℕ → Bool
strstr [] t = starts_with [] t
strstr (c ∷ s) t = starts_with (c ∷ s) t || strstr s t

-- The array of 512 bytes that `snprintf` fills.
abbrev pub joined : List ℕ → List ℕ → List ℕ
joined path name = take 511 (path ++ (b'/' ∷ name))

abbrev pub file_name : List ℕ → List ℕ → List ℕ
file_name path name = if str_eq path (b'/' ∷ []) then take 511 (path ++ name) else joined path name

abbrev pub is_dots : List ℕ → Bool
is_dots name = str_eq name (b'.' ∷ []) || str_eq name (b'.' ∷ b'.' ∷ [])

-- The loop of `getline`, up to the first line with the string.
abbrev pub any_line : List ℕ → List (List ℕ) → Bool
any_line to_find [] = false
any_line to_find (line ∷ rest) =
    let later = any_line to_find rest in if strstr (c_string line) to_find then true else later

-- Whether a regular file is a text with the string; `none`: the file cannot be opened.
abbrev pub search_file : Files → List ℕ → List ℕ → Option Bool
search_file files to_find path =
    if strstr (files.magic_file path) (b't' ∷ b'e' ∷ b'x' ∷ b't' ∷ [])
    then elim (files.lines path) [ none ↦ none | some ls ↦ some (any_line to_find ls) ]
    else some false

-- The names printed for an entry, with `sub` for the process that a directory is given to; `none`:
-- exit(1).
abbrev pub visit_type :
    Files
    → List ℕ
    → List ℕ
    → List ℕ
    → (List ℕ → List ℕ → List (List ℕ))
    → List ℕ
    → Kind
    → Option (List (List ℕ))
visit_type files to_find path rel_path sub name dt_other = some []
visit_type files to_find path rel_path sub name dt_dir =
    some (sub (file_name path name) (joined rel_path name))
visit_type files to_find path rel_path sub name dt_reg =
    elim (search_file files to_find (file_name path name)) [
      | none ↦ none
      | some hit ↦ some (if hit then (rel_path ++ (b'/' ∷ name)) ∷ [] else [])
    ]

unfoldable pub visit :
    Files
    → List ℕ
    → List ℕ
    → List ℕ
    → (List ℕ → List ℕ → List (List ℕ))
    → Dirent
    → Option (List (List ℕ))
visit files to_find path rel_path sub e =
    if is_dots e.d_name
    then some []
    else visit_type files to_find path rel_path sub e.d_name e.d_type

-- The loop of `readdir`.
unfoldable pub visit_all : (Dirent → Option (List (List ℕ))) → List Dirent → List (List ℕ)
visit_all see [] = []
visit_all see (e ∷ es) = elim (see e) [ none ↦ [] | some names ↦ names ++ visit_all see es ]

-- The names that a call prints, in its own process and in those that it forks.
unfoldable pub traverse_dir : ℕ → Files → List ℕ → List ℕ → List ℕ → List (List ℕ)
unfolding visit visit_all
traverse_dir zero files to_find path rel_path = []
traverse_dir (suc depth) files to_find path rel_path = elim (files.entries path) [
  | none ↦ []
  | some es ↦ visit_all (visit files to_find path rel_path (traverse_dir depth files to_find)) es
]
