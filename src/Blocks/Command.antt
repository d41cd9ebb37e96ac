-- ===== src/Blocks/Command.antt =====
-- The command that create_command builds for the shell.
use agh_sys_opy.Prelude.{
  ℕ, suc, ◌+◌, ◌<◌, ◌≡◌, refl, ap, sym, append-nil, ◌∙◌, List, [], ◌∷◌, ◌++◌, append_assoc, some,
  true, ltb, length, length-append, arith,
}
use agh_sys_opy.Blocks.{prg, redir, char_quant, strcat, add_files, create_command}

-- The names of the files, each with a blank behind it.
abbrev pub named : List (List ℕ) → List ℕ
named [] = []
named (f ∷ files) = f ++ (b' ' ∷ named files)

char_quant-named :
    (files : List (List ℕ)) (temp : List ℕ)
    → char_quant files temp ≡ length prg + length (named files) + length redir + length temp + 1
unfolding char_quant
char_quant-named [] temp = omega arith
char_quant-named (f ∷ files) temp =
    omega (arith, char_quant-named files temp, length-append f (b' ' ∷ named files))

strcat_fits :
    (size : ℕ) (text s : List ℕ)
    → length text + length s < size
    → strcat size text s ≡ some (text ++ s)
strcat_fits size text s h =
    let t : ltb (length text + length s) size ≡ true = ground (arith, h) in rw t refl

add_files-named :
    (size : ℕ) (text : List ℕ) (files : List (List ℕ))
    → length text + length (named files) < size
    → add_files size text files ≡ some (text ++ named files)
unfolding add_files
add_files-named size text [] h = ap some (sym (append-nil text))
add_files-named size text (f ∷ files) h =
    let len : length (f ++ (b' ' ∷ named files)) ≡ length f + suc (length (named files)) =
      length-append f (b' ' ∷ named files) in
    let text_len = length-append text f in
    let both_len = length-append (text ++ f) (b' ' ∷ []) in
    rw
      (
        add_files,
        strcat_fits size text f (omega (arith, len)),
        strcat_fits size (text ++ f) (b' ' ∷ []) (omega (arith, len, text_len)),
        add_files-named size ((text ++ f) ++ (b' ' ∷ [])) files
            (omega (arith, len, text_len, both_len)),
      )
      (ap some (
        append_assoc (text ++ f) (b' ' ∷ []) (named files)
        ∙ append_assoc text f (b' ' ∷ named files)))

-- `create_command` never writes behind its array: it builds `wc`, the names with a blank behind each
-- of them, `1>>` and the name of the temporary file, and that text with its NUL fills the array.
pub create_command_fits :
    (files : List (List ℕ)) (temp : List ℕ)
    → (text : List ℕ) × (create_command files temp ≡ some text)
      × (text ≡ ((prg ++ named files) ++ redir) ++ temp)
      × (length text + 1 ≡ char_quant files temp)
unfolding create_command
create_command_fits files temp =
    let size = char_quant-named files temp in
    let first = length-append prg (named files) in
    let second = length-append (prg ++ named files) redir in
    let third = length-append ((prg ++ named files) ++ redir) temp in
    (
      ((prg ++ named files) ++ redir) ++ temp,
      rw
          (
            create_command,
            strcat_fits (char_quant files temp) [] prg (omega (arith, size)),
            add_files-named (char_quant files temp) prg files (omega (arith, size)),
            strcat_fits (char_quant files temp) (prg ++ named files) redir
                (omega (arith, size, first)),
            strcat_fits (char_quant files temp) ((prg ++ named files) ++ redir) temp
                (omega (arith, size, first, second)),
          )
          refl,
      refl,
      omega (arith, size, first, second, third),
    )
