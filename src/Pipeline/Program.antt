-- ===== src/Pipeline/Program.antt =====
-- `main` of cw05/zad1/main.c, from the bytes of the file to the processes of all pipelines.
use agh_sys_opy.Prelude.{
  ℕ, zero, suc, Bool, true, false, ◌+◌, ◌≡◌, refl, List, [], ◌∷◌, ◌++◌, Option, none, some, ltb,
  if◌then◌else◌, length, get_elem?, arith, ap, subst,
}
use agh_sys_opy.Pipeline.{Component, Executable, Process}
use agh_sys_opy.Pipeline.Run.{waited, exited, exec_commands}
use agh_sys_opy.Pipeline.Parse.{count_lines, parse_file, executables_room}

-- The processes of each pipeline that was run: all of them, or up to one that ends the program.
pub data Outcome : Type 0 where
  finished : List (List Process) → Outcome
  stopped : List (List Process) → Outcome
  undefined : Outcome

abbrev pub put : List Process → Outcome → Outcome
put ps (finished rest) = finished (ps ∷ rest)
put ps (stopped rest) = stopped (ps ∷ rest)
put ps undefined = undefined

-- `to_exec[i]`: a line of the file, or, behind them, a structure that `calloc` has cleared.
abbrev pub to_exec : List Executable → ℕ → ℕ → Option Executable
to_exec lines room i = elim (get_elem? lines i) [
  | some line ↦ some line
  | none ↦ if ltb i room then some [] else none
]

-- The loop of `main`, with `n` rounds left.
unfoldable pub exec_lines : ℕ → ℕ → List Component → List Executable → ℕ → Outcome
unfolding exec_commands
exec_lines zero i comps lines room = finished []
exec_lines (suc n) i comps lines room = elim (to_exec lines room i) [
  | none ↦ undefined
  | some line ↦ elim (exec_commands comps line) [
    | exited ps ↦ stopped (ps ∷ [])
    | waited ps ↦ put ps (exec_lines n (suc i) comps lines room)
  ]
]

-- Where a structure behind the components was only cleared, its name is NULL: a name that none of
-- them has is compared with it.
abbrev pub null_name : Bool → Outcome → Outcome
null_name true (stopped runs) = undefined
null_name true (finished runs) = finished runs
null_name true undefined = undefined
null_name false outcome = outcome

unfoldable pub main : List ℕ → Outcome
unfolding exec_lines parse_file
main file = elim (parse_file file) [
  | none ↦ undefined
  | some (comps, lines) ↦
      let count = count_lines file in
      null_name (ltb (length comps) count.0)
        (exec_lines count.0 0 comps lines (executables_room count.1))
]

null_name_finished :
    (b : Bool) (runs : List (List Process)) → null_name b (finished runs) ≡ finished runs
null_name_finished true runs = refl
null_name_finished false runs = refl

-- The pipelines of the first lines, each of which runs to its end.
pub data AllRun (comps : List Component) : List Executable → List (List Process) → Type 0 where
  done : AllRun comps [] []
  next :
      {line : Executable} {lines : List Executable} {ps : List Process} {rest : List (List Process)}
      → exec_commands comps line ≡ waited ps
      → AllRun comps lines rest
      → AllRun comps (line ∷ lines) (ps ∷ rest)

exec_lines-first :
    (comps : List Component) (all first others : List Executable) (runs : List (List Process))
    (room i : ℕ)
    → ((j : ℕ) → get_elem? all (i + j) ≡ get_elem? (first ++ others) j)
    → AllRun comps first runs
    → exec_lines (length first) i comps all room ≡ finished runs
unfolding exec_lines
exec_lines-first comps all _ others _ room i agree done = refl
exec_lines-first comps all _ others _ room i agree (next {line} {lines} e rest) =
    rw (exec_lines, here, e, exec_lines-first comps all lines others _ room (suc i) later rest) refl
  where
    here : get_elem? all i ≡ some line
    here = subst (λ k. get_elem? all k ≡ some line) (omega arith) (agree 0)

    later : (j : ℕ) → get_elem? all (suc i + j) ≡ get_elem? (lines ++ others) j
    later j =
        subst (λ k. get_elem? all k ≡ get_elem? (lines ++ others) j) (omega arith) (agree (suc j))

-- Where the file is parsed, and the pipelines of its first lines, as many as `count_lines` counts
-- components, each run to their end: `main` runs these and no other, however many lines are left.
pub main_first :
    (file : List ℕ) (comps : List Component) (first others : List Executable)
    (runs : List (List Process))
    → parse_file file ≡ some (comps, first ++ others)
    → (count_lines file).0 ≡ length first
    → AllRun comps first runs
    → main file ≡ finished runs
unfolding main
main_first file comps first others runs parsed count all_run =
    rw
      (
        main,
        parsed,
        count,
        exec_lines-first comps (first ++ others) first others runs _ 0
            (λ j. ap (λ k. get_elem? (first ++ others) k) (omega arith)) all_run,
      )
      (null_name_finished _ runs)
