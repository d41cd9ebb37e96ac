-- ===== src/Traverse/Shown.antt =====
-- traverse_dir prints every name that it should, and no other.
use agh_sys_opy.Prelude.{
  ℕ, zero, suc, ◌≡◌, refl, sym, subst, inl, inr, ◌↔◌, Bool, Bool-cases, false, List, [], ◌∷◌, ◌++◌,
  Option, Option-cases, some, if◌then◌else◌,
}
use mathlib.Core.List.{Memᴰ}
use mathlib.Core.List.Memᴰ
use agh_sys_opy.Traverse.{
  Kind, dt_reg, dt_dir, dt_other, Dirent, Files, strstr, joined, file_name, is_dots, any_line,
  search_file, visit_type, visit, visit_all, traverse_dir,
}
use agh_sys_opy.Traverse.Found.{
  IsShown, in_directory, below, Readable, Contributes, visit_type-Contributes, HasText-search_file,
}

-- The loop of readdir.
visit_all-Memᴰ :
    (see : Dirent → Option (List (List ℕ))) (shown : List ℕ) (es : List Dirent)
    → Memᴰ shown (visit_all see es)
    → (e : Dirent) × (names : List (List ℕ)) × Memᴰ e es × (see e ≡ some names) × Memᴰ shown names
unfolding visit_all
visit_all-Memᴰ see shown [] m = absurd (Memᴰ.not-nil m)
visit_all-Memᴰ see shown (e ∷ es) m = elim (Option-cases (see e)) [
  | inl f ↦ let empty : Memᴰ shown [] = rw (visit_all, f) at m in absurd (Memᴰ.not-nil empty)
  | inr (names, f) ↦
      let both : Memᴰ shown (names ++ visit_all see es) = rw (visit_all, f) at m in
      elim (Memᴰ.append_cases names both) [
        | inl here ↦ (e, names, Memᴰ.head refl, f, here)
        | inr later ↦
            let (e', names', m', f', there) = visit_all-Memᴰ see shown es later in
            (e', names', Memᴰ.tail m', f', there)
      ]
]

Memᴰ-visit_all :
    (see : Dirent → Option (List (List ℕ))) (shown : List ℕ) (es : List Dirent) (e : Dirent)
    (names : List (List ℕ))
    → ((d : Dirent) → (out : List (List ℕ)) × (see d ≡ some out))
    → Memᴰ e es
    → see e ≡ some names
    → Memᴰ shown names
    → Memᴰ shown (visit_all see es)
unfolding visit_all
Memᴰ-visit_all see shown [] e names goes m f here = absurd (Memᴰ.not-nil m)
Memᴰ-visit_all see shown (d ∷ es) e names goes (Memᴰ.head same) f here =
    let told : see d ≡ some names = subst (λ x. see x ≡ some names) same f in
    rw (visit_all, told) (Memᴰ.append_left (visit_all see es) here)
Memᴰ-visit_all see shown (d ∷ es) e names goes (Memᴰ.tail m) f here =
    let (out, told) = goes d in
    rw (visit_all, told) (Memᴰ.append_right out (Memᴰ-visit_all see shown es e names goes m f here))

search_goes :
    (files : Files) (to_find path : List ℕ)
    → Readable files
    → (hit : Bool) × (search_file files to_find path ≡ some hit)
search_goes files to_find path can =
    elim (Bool-cases (strstr (files.magic_file path) (b't' ∷ b'e' ∷ b'x' ∷ b't' ∷ []))) [
      | inr e ↦ (false, rw (e) refl)
      | inl e ↦ let (ls, f) = can path e in (any_line to_find ls, rw (e, f) refl)
    ]

module _ (files : Files) (to_find path rel_path : List ℕ)
    (sub : List ℕ → List ℕ → List (List ℕ)) where
  visit-Contributes :
      (shown : List ℕ) (e : Dirent) (names : List (List ℕ))
      → visit files to_find path rel_path sub e ≡ some names
      → Memᴰ shown names
      → (is_dots e.d_name ≡ false) × Contributes files to_find path rel_path sub shown e
  unfolding visit
  visit-Contributes shown e names h m = elim (Bool-cases (is_dots e.d_name)) [
    | inl dots ↦
        let told : some [] ≡ some names = rw (visit, dots) at h in
        let empty : [] ≡ names = cc in absurd (Memᴰ.not-nil (subst (Memᴰ shown) (sym empty) m))
    | inr plain ↦
        let told : visit_type files to_find path rel_path sub e.d_name e.d_type ≡ some names =
          rw (visit, plain) at h in
        (
          plain,
          visit_type-Contributes files to_find path rel_path sub shown e.d_name e.d_type names told
              m,
        )
  ]

  visit_type_goes :
      Readable files
      → (name : List ℕ) (k : Kind)
      → (out : List (List ℕ)) × (visit_type files to_find path rel_path sub name k ≡ some out)
  visit_type_goes can name dt_other = ([], refl)
  visit_type_goes can name dt_dir = (_, refl)
  visit_type_goes can name dt_reg =
      let (hit, f) = search_goes files to_find (file_name path name) can in
      ((if hit then (rel_path ++ (b'/' ∷ name)) ∷ [] else []), rw (visit_type, f) refl)

  visit_goes :
      Readable files
      → (e : Dirent) → (out : List (List ℕ)) × (visit files to_find path rel_path sub e ≡ some out)
  unfolding visit
  visit_goes can e = elim (Bool-cases (is_dots e.d_name)) [
    | inl dots ↦ ([], rw (visit, dots) refl)
    | inr plain ↦ let (out, f) = visit_type_goes can e.d_name e.d_type in (out, rw (visit, plain) f)
  ]

-- A name that is printed.
traverse_dir-IsShown :
    (depth : ℕ) (files : Files) (to_find path rel_path shown : List ℕ)
    → Memᴰ shown (traverse_dir depth files to_find path rel_path)
    → IsShown files to_find depth path rel_path shown
unfolding traverse_dir
traverse_dir-IsShown zero files to_find path rel_path shown m = absurd (Memᴰ.not-nil m)
traverse_dir-IsShown (suc depth) files to_find path rel_path shown m =
    elim (Option-cases (files.entries path)) [
      | inl f ↦ let empty : Memᴰ shown [] = rw (traverse_dir, f) at m in absurd (Memᴰ.not-nil empty)
      | inr (es, f) ↦
          let all : Memᴰ shown (
              visit_all (visit files to_find path rel_path (traverse_dir depth files to_find)) es) =
            rw (traverse_dir, f) at m in
          let (e, names, there, told, here) = visit_all-Memᴰ _ shown es all in
          let (plain, what) =
            visit-Contributes files to_find path rel_path (traverse_dir depth files to_find) shown e
              names told here in
          elim what [
            | inl (regular, text, same) ↦
                subst (IsShown files to_find (suc depth) path rel_path) (sym same)
                  (in_directory f there plain regular text)
            | inr (directory, deeper) ↦
                below f there plain directory
                  (traverse_dir-IsShown depth files to_find _ _ shown deeper)
          ]
    ]

IsShown-traverse_dir :
    (depth : ℕ) (files : Files) (to_find path rel_path shown : List ℕ)
    → Readable files
    → IsShown files to_find depth path rel_path shown
    → Memᴰ shown (traverse_dir depth files to_find path rel_path)
unfolding traverse_dir visit
IsShown-traverse_dir zero files to_find path rel_path shown can shows = elim shows [ ]
IsShown-traverse_dir (suc depth) files to_find path rel_path shown can
      (in_directory {es} {e} f there plain regular text) =
    rw (traverse_dir, f)
      (Memᴰ-visit_all _ _ es e ((rel_path ++ (b'/' ∷ e.d_name)) ∷ [])
        (visit_goes files to_find path rel_path (traverse_dir depth files to_find) can) there
        (rw
          (
            visit,
            plain,
            regular,
            visit_type,
            HasText-search_file files to_find (file_name path e.d_name) text,
          )
          refl)
        (Memᴰ.head refl))
IsShown-traverse_dir (suc depth) files to_find path rel_path shown can
      (below {es} {e} f there plain directory deeper) =
    rw (traverse_dir, f)
      (Memᴰ-visit_all _ shown es e
        (traverse_dir depth files to_find (file_name path e.d_name) (joined rel_path e.d_name))
        (visit_goes files to_find path rel_path (traverse_dir depth files to_find) can) there
        (rw (visit, plain, directory) refl)
        (IsShown-traverse_dir depth files to_find _ _ shown can deeper))

-- Where every file that libmagic takes for a text can be opened, `traverse_dir` prints a name exactly
-- if it stands for a text with the string in one of its lines, in the directory of the path or below
-- it, at fewer levels than the depth.
pub traverse_dir_finds :
    (depth : ℕ) (files : Files) (to_find path rel_path shown : List ℕ)
    → Readable files
    → Memᴰ shown (traverse_dir depth files to_find path rel_path)
      ↔ IsShown files to_find depth path rel_path shown
traverse_dir_finds depth files to_find path rel_path shown can = (
  traverse_dir-IsShown depth files to_find path rel_path shown,
  IsShown-traverse_dir depth files to_find path rel_path shown can,
)
