-- ===== src/Pipeline/Run.antt =====
-- `exec_commands` of cw05/zad1/main.c: the processes of a pipeline, in the order in which they are
-- forked. Errors of the system calls are not modelled.
use agh_sys_opy.Prelude.{
  ℕ, ◌+◌, ◌%◌, Bool, true, false, ◌||◌, List, [], ◌∷◌, ◌++◌, Option, none, some, if◌then◌else◌,
  str_eq,
}
use agh_sys_opy.Pipeline.{Component, Executable, Process}

-- `while (k < comps_len && strcmp(to_exec.cmds[i], comps[k].name)) ++k`
unfoldable pub find_component : List ℕ → List Component → Option Component
find_component name [] = none
find_component name (c ∷ comps) =
    let later = find_component name comps in if str_eq name c.name then some c else later

abbrev pub is_cons {ℓ} : {A : Type ℓ} → List A → Bool
is_cons [] = false
is_cons (x ∷ xs) = true

abbrev pub other_pipe : ℕ → ℕ
other_pipe mode = (mode + 1) % 2

-- The child of a fork: `started` is `j > 0 || i > 0`, `goes_on` is `i < length - 1 || j < length - 1`.
abbrev pub child : Bool → Bool → ℕ → List (List ℕ) → Process
child started goes_on mode cmd = record {
  argv = cmd;
  stdin = if started then some mode else none;
  stdout = if goes_on then some (other_pipe mode) else none;
}

-- The loop over the commands of a component, and `mode` at its end.
unfoldable pub fork_commands : Bool → Bool → ℕ → List (List (List ℕ)) → List Process × ℕ
fork_commands started more mode [] = ([], mode)
fork_commands started more mode (cmd ∷ cmds) =
    let (rest, last) = fork_commands true more (other_pipe mode) cmds in
    (child started (more || is_cons cmds) mode cmd ∷ rest, last)

-- The whole run, or the processes that are forked when an unknown name ends the program.
pub data Run : Type 0 where
  waited : List Process → Run
  exited : List Process → Run

abbrev pub after : List Process → Run → Run
after ps (waited qs) = waited (ps ++ qs)
after ps (exited qs) = exited (ps ++ qs)

-- The loop over the names of a pipeline.
unfoldable pub fork_components : Bool → ℕ → List Component → Executable → Run
unfolding find_component fork_commands
fork_components started mode comps [] = waited []
fork_components started mode comps (name ∷ names) = elim (find_component name comps) [
  | none ↦ exited []
  | some c ↦
      let (ps, next) = fork_commands started (is_cons names) mode c.cmds in
      after ps (fork_components true next comps names)
]

unfoldable pub exec_commands : List Component → Executable → Run
unfolding fork_components
exec_commands comps to_exec = fork_components false 0 comps to_exec
