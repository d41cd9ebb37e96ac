-- ===== src/Traverse/Tests.antt =====
-- A directory with one file, and a directory in it with another one.
use agh_sys_opy.Prelude.{◌≡◌, refl, ◌↔◌, List, [], ◌∷◌, none, some, str_eq, if◌then◌else◌}
use mathlib.Core.List.{Memᴰ}
use agh_sys_opy.Traverse.{Dirent, Files, dt_reg, dt_dir, visit, visit_all, traverse_dir}
use agh_sys_opy.Traverse.Found.{IsShown}
use agh_sys_opy.Traverse.Shown.{traverse_dir_finds}

abbrev here : List Dirent
here =
    record { d_name = b'.' ∷ []; d_type = dt_dir }
    ∷ record { d_name = b'a' ∷ []; d_type = dt_reg }
    ∷ record { d_name = b's' ∷ []; d_type = dt_dir }
    ∷ []

abbrev inside : List Dirent
inside = record { d_name = b'b' ∷ []; d_type = dt_reg } ∷ []

abbrev disk : Files
disk = record {
  entries = λ path.
      if str_eq path (b'd' ∷ [])
      then some here
      else if str_eq path (b'd' ∷ b'/' ∷ b's' ∷ [])
      then some inside
      else none;
  magic_file = λ path. b't' ∷ b'e' ∷ b'x' ∷ b't' ∷ b'/' ∷ b'c' ∷ [];
  lines = λ path. some ((b'h' ∷ b'i' ∷ 10 ∷ []) ∷ []);
}

both_levels :
    traverse_dir 2 disk (b'i' ∷ []) (b'd' ∷ []) (b'r' ∷ [])
    ≡ (b'r' ∷ b'/' ∷ b'a' ∷ []) ∷ (b'r' ∷ b'/' ∷ b's' ∷ b'/' ∷ b'b' ∷ []) ∷ []
unfolding traverse_dir visit visit_all
both_levels = refl

one_level : traverse_dir 1 disk (b'i' ∷ []) (b'd' ∷ []) (b'r' ∷ []) ≡ (b'r' ∷ b'/' ∷ b'a' ∷ []) ∷ []
unfolding traverse_dir visit visit_all
one_level = refl

traverse_dir_finds_example :
    Memᴰ
      (b'r' ∷ b'/' ∷ b's' ∷ b'/' ∷ b'b' ∷ [])
      (traverse_dir 2 disk (b'i' ∷ []) (b'd' ∷ []) (b'r' ∷ []))
    ↔ IsShown disk (b'i' ∷ []) 2 (b'd' ∷ []) (b'r' ∷ []) (b'r' ∷ b'/' ∷ b's' ∷ b'/' ∷ b'b' ∷ [])
traverse_dir_finds_example =
    traverse_dir_finds 2 disk (b'i' ∷ []) (b'd' ∷ []) (b'r' ∷ [])
      (b'r' ∷ b'/' ∷ b's' ∷ b'/' ∷ b'b' ∷ []) (λ path e. ((b'h' ∷ b'i' ∷ 10 ∷ []) ∷ [], refl))
