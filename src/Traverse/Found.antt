-- ===== src/Traverse/Found.antt =====
-- What traverse_dir prints, compared with the files that a path leads to.
use agh_sys_opy.Prelude.{
  ℕ, suc, ◌≡◌, refl, ap, sym, subst, ◌⊎◌, inl, inr, Bool, Bool-cases, true, false, List, [], ◌∷◌,
  ◌++◌, Option-cases, none, some, if◌then◌else◌,
}
use mathlib.Core.List.{Memᴰ}
use mathlib.Core.List.Memᴰ
use agh_sys_opy.Text.{c_string}
use agh_sys_opy.Traverse.{
  Kind, dt_reg, dt_dir, dt_other, Dirent, Files, strstr, joined, file_name, is_dots, any_line,
  search_file, visit_type,
}

-- A file that libmagic takes for a text, with the string in one of its lines.
abbrev pub HasText : Files → List ℕ → List ℕ → Type 0
HasText files to_find path =
    (strstr (files.magic_file path) (b't' ∷ b'e' ∷ b'x' ∷ b't' ∷ []) ≡ true)
    × (ls : List (List ℕ)) × (files.lines path ≡ some ls)
    × (line : List ℕ) × Memᴰ line ls
    × (strstr (c_string line) to_find ≡ true)

-- A name for a file with the string, not more than some directories below a path.
pub data IsShown (files : Files) (to_find : List ℕ) : ℕ → List ℕ → List ℕ → List ℕ → Type 0 where
  in_directory :
      {depth : ℕ} {path rel_path : List ℕ} {es : List Dirent} {e : Dirent}
      → files.entries path ≡ some es
      → Memᴰ e es
      → is_dots e.d_name ≡ false
      → e.d_type ≡ dt_reg
      → HasText files to_find (file_name path e.d_name)
      → IsShown files to_find (suc depth) path rel_path (rel_path ++ (b'/' ∷ e.d_name))
  below :
      {depth : ℕ} {path rel_path shown : List ℕ} {es : List Dirent} {e : Dirent}
      → files.entries path ≡ some es
      → Memᴰ e es
      → is_dots e.d_name ≡ false
      → e.d_type ≡ dt_dir
      → IsShown files to_find depth (file_name path e.d_name) (joined rel_path e.d_name) shown
      → IsShown files to_find (suc depth) path rel_path shown

-- Every text can be opened.
abbrev pub Readable : Files → Type 0
Readable files =
    (path : List ℕ)
    → strstr (files.magic_file path) (b't' ∷ b'e' ∷ b'x' ∷ b't' ∷ []) ≡ true
    → (ls : List (List ℕ)) × (files.lines path ≡ some ls)

any_line-true :
    (to_find : List ℕ) (ls : List (List ℕ))
    → any_line to_find ls ≡ true
    → (line : List ℕ) × Memᴰ line ls × (strstr (c_string line) to_find ≡ true)
any_line-true to_find [] h = absurd cc
any_line-true to_find (l ∷ ls) h = elim (Bool-cases (strstr (c_string l) to_find)) [
  | inl e ↦ (l, Memᴰ.head refl, e)
  | inr e ↦ let (line, m, f) = any_line-true to_find ls (rw (e) at h) in (line, Memᴰ.tail m, f)
]

any_line-Memᴰ :
    (to_find line : List ℕ) (ls : List (List ℕ))
    → Memᴰ line ls
    → strstr (c_string line) to_find ≡ true
    → any_line to_find ls ≡ true
any_line-Memᴰ to_find line [] m h = elim m [ ]
any_line-Memᴰ to_find line (l ∷ ls) (Memᴰ.head e) h = rw (sym e, h) refl
any_line-Memᴰ to_find line (l ∷ ls) (Memᴰ.tail m) h =
    elim (Bool-cases (strstr (c_string l) to_find)) [
      | inl e ↦ rw (e) refl
      | inr e ↦ rw (e) (any_line-Memᴰ to_find line ls m h)
    ]

search_file-HasText :
    (files : Files) (to_find path : List ℕ)
    → search_file files to_find path ≡ some true
    → HasText files to_find path
search_file-HasText files to_find path h =
    elim (Bool-cases (strstr (files.magic_file path) (b't' ∷ b'e' ∷ b'x' ∷ b't' ∷ []))) [
      | inr e ↦ let other : some false ≡ some true = rw (e) at h in absurd cc
      | inl e ↦ elim (Option-cases (files.lines path)) [
        | inl f ↦ let failed : none ≡ some true = rw (e, f) at h in absurd cc
        | inr (ls, f) ↦
            let found : some (any_line to_find ls) ≡ some true = rw (e, f) at h in
            let (line, m, hit) = any_line-true to_find ls cc in (e, ls, f, line, m, hit)
      ]
    ]

pub HasText-search_file :
    (files : Files) (to_find path : List ℕ)
    → HasText files to_find path
    → search_file files to_find path ≡ some true
HasText-search_file files to_find path (e, ls, f, line, m, h) =
    rw (e, f) (ap some (any_line-Memᴰ to_find line ls m h))

-- What an entry contributes, with `sub` for the call that is made for a directory.
abbrev pub Contributes :
    Files → List ℕ → List ℕ → List ℕ → (List ℕ → List ℕ → List (List ℕ)) → List ℕ → Dirent → Type 0
Contributes files to_find path rel_path sub shown e =
    ((e.d_type ≡ dt_reg)
      × HasText files to_find (file_name path e.d_name)
      × (shown ≡ rel_path ++ (b'/' ∷ e.d_name)))
    ⊎ ((e.d_type ≡ dt_dir) × Memᴰ shown (sub (file_name path e.d_name) (joined rel_path e.d_name)))

module _ (files : Files) (to_find path rel_path : List ℕ) (sub : List ℕ → List ℕ → List (List ℕ))
    (shown : List ℕ) where
  hit_shown :
      (name : List ℕ) (hit : Bool) (names : List (List ℕ))
      → search_file files to_find (file_name path name) ≡ some hit
      → (if hit then (rel_path ++ (b'/' ∷ name)) ∷ [] else []) ≡ names
      → Memᴰ shown names
      → HasText files to_find (file_name path name) × (shown ≡ rel_path ++ (b'/' ∷ name))
  hit_shown name true names e f m = (
    search_file-HasText files to_find (file_name path name) e,
    Memᴰ.eq_of_singleton (subst (Memᴰ shown) (sym f) m),
  )
  hit_shown name false names e f m = absurd (Memᴰ.not-nil (subst (Memᴰ shown) (sym f) m))

  pub visit_type-Contributes :
      (name : List ℕ) (k : Kind) (names : List (List ℕ))
      → visit_type files to_find path rel_path sub name k ≡ some names
      → Memᴰ shown names
      → Contributes files to_find path rel_path sub shown (record { d_name = name; d_type = k })
  visit_type-Contributes name dt_other names h m =
      let none_there : [] ≡ names = cc in
      absurd (Memᴰ.not-nil (subst (Memᴰ shown) (sym none_there) m))
  visit_type-Contributes name dt_dir names h m =
      let those : sub (file_name path name) (joined rel_path name) ≡ names = cc in
      inr (refl, subst (Memᴰ shown) (sym those) m)
  visit_type-Contributes name dt_reg names h m =
      elim (Option-cases (search_file files to_find (file_name path name))) [
        | inl e ↦ let failed : none ≡ some names = rw (visit_type, e) at h in absurd cc
        | inr (hit, e) ↦
            let told : some (if hit then (rel_path ++ (b'/' ∷ name)) ∷ [] else []) ≡ some names =
              rw (visit_type, e) at h in
            let those : (if hit then (rel_path ++ (b'/' ∷ name)) ∷ [] else []) ≡ names = cc in
            let (text, same) = hit_shown name hit names e those m in inl (refl, text, same)
      ]
