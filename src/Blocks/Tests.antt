-- ===== src/Blocks/Tests.antt =====
-- A table of one block, a shell that answers one command, and some runs.
use agh_sys_opy.Prelude.{ℕ, ◌+◌, ◌≡◌, List, [], ◌∷◌, ◌++◌, some, length}
use agh_sys_opy.Blocks.{Block, prg, redir, char_quant, create_command}
use agh_sys_opy.Blocks.Command.{named, create_command_fits}
use agh_sys_opy.Blocks.Array.{WcLine, entry}

abbrev temp : List ℕ
temp = b'/' ∷ b't' ∷ []

abbrev readme : List (List ℕ)
readme = (b'R' ∷ []) ∷ []

create_command_fits_example :
    (text : List ℕ) × (create_command readme temp ≡ some text)
    × (text ≡ ((prg ++ named readme) ++ redir) ++ temp)
    × (length text + 1 ≡ char_quant readme temp)
create_command_fits_example = create_command_fits readme temp

-- ` 3 5 12 R`
abbrev wc_line : WcLine
wc_line = record {
  text = b' ' ∷ b'3' ∷ b' ' ∷ b'5' ∷ b' ' ∷ b'1' ∷ b'2' ∷ b' ' ∷ b'R' ∷ [];
  line_count = b'3' ∷ [];
  word_count = b'5' ∷ [];
  byte_count = b'1' ∷ b'2' ∷ [];
  file = b'R' ∷ [];
}

abbrev shell : List ℕ → List ℕ
shell command = wc_line.text ++ (10 ∷ [])

abbrev used_block : Block
used_block = record { block_length = 1; files = some (entry wc_line ∷ []) }
