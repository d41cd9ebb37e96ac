-- ===== src/Pipeline.antt =====
-- An interpreter of pipelines: cw05/zad1/main.c. A file has lines that name components, an empty
-- line, and lines that join components to pipelines.
pub mod Parse
pub mod Run
pub mod Wiring
pub mod Program
mod Tests
use agh_sys_opy.Prelude.{ℕ, List, Option}

-- `max_size`, the limit of commands, and the sizes of the two structures in bytes.
abbrev pub max_size : ℕ
max_size = 10

abbrev pub component_bytes : ℕ
component_bytes = 24

abbrev pub executable_bytes : ℕ
executable_bytes = 16

-- A component has a command for each `|`; a command is its words, which a NULL follows.
pub record Component : Type 0 where
  pub name : List ℕ
  pub cmds : List (List (List ℕ))

abbrev pub Executable : Type 0
Executable = List (List ℕ)

-- A process that is forked: its command, and the numbers of the pipes that `dup2` gives it for its
-- standard input and output; `none` where it keeps the program's.
pub record Process : Type 0 where
  pub argv : List (List ℕ)
  pub stdin : Option ℕ
  pub stdout : Option ℕ
