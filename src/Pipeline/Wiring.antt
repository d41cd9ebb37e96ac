-- ===== src/Pipeline/Wiring.antt =====
-- How the processes of a pipeline are joined.
use agh_sys_opy.Prelude.{
  if◌then◌else◌, none, ℕ, zero, suc, ◌+◌, ◌%◌, ◌<◌, ◌≤◌, ◌≡◌, refl, Bool, true, false, ◌||◌, not,
  List, [], ◌∷◌, ◌++◌, some, ◌==◌, length, get_elem?, arith, ap, ◌∙◌,
}
use agh_sys_opy.Pipeline.{Component, Executable, Process}
use agh_sys_opy.Pipeline.Run.{
  find_component, is_cons, other_pipe, child, fork_commands, waited, fork_components, exec_commands,
}

-- The chain that a pipeline stands for: the process number `q` reads the pipe q % 2, but for the
-- first, and writes the other pipe, but for the last.
abbrev pub chain : ℕ → List (List (List ℕ)) → List Process
chain q [] = []
chain q (cmd ∷ cmds) =
    record {
      argv = cmd;
      stdin = if not (q == 0) then some (q % 2) else none;
      stdout = if is_cons cmds then some (suc q % 2) else none;
    }
    ∷ chain (suc q) cmds

-- Each name of a pipeline names a component that has a command; the commands in order.
pub data Names (comps : List Component) : Executable → List (List (List ℕ)) → Type 0 where
  done : Names comps [] []
  next :
      {name : List ℕ} {names : Executable} {c : Component} {cmd : List (List ℕ)}
      {cmds rest : List (List (List ℕ))}
      → find_component name comps ≡ some c
      → c.cmds ≡ cmd ∷ cmds
      → Names comps names rest
      → Names comps (name ∷ names) (cmd ∷ (cmds ++ rest))

-- The same chain, with the two numbers that the loops carry.
wired : Bool → ℕ → List (List (List ℕ)) → List Process
wired started mode [] = []
wired started mode (cmd ∷ cmds) =
    child started (is_cons cmds) mode cmd ∷ wired true (other_pipe mode) cmds

wired-chain :
    (cmds : List (List (List ℕ))) (q : ℕ) → wired true (suc q % 2) cmds ≡ chain (suc q) cmds
unfolding wired
wired-chain [] q = refl
wired-chain (cmd ∷ cmds) q = rw (even, toggles, ← wired-chain cmds (suc q)) refl
  where
    even : (suc q == 0) ≡ false
    even = ground arith

    toggles : (suc q % 2 + 1) % 2 ≡ suc (suc q) % 2
    toggles = omega arith

is_cons-append :
    (cmds rest : List (List (List ℕ))) → is_cons (cmds ++ rest) ≡ (is_cons rest || is_cons cmds)
is_cons-append [] [] = refl
is_cons-append [] (r ∷ rest) = refl
is_cons-append (c ∷ cmds) [] = refl
is_cons-append (c ∷ cmds) (r ∷ rest) = refl

-- The processes of one component, with `rest` for the others.
fork_commands-wired :
    (cmds rest : List (List (List ℕ))) (mode : ℕ)
    → wired true mode (cmds ++ rest)
      ≡ (fork_commands true (is_cons rest) mode cmds).0
        ++ wired true (fork_commands true (is_cons rest) mode cmds).1 rest
unfolding fork_commands wired
fork_commands-wired [] rest mode = refl
fork_commands-wired (cmd ∷ cmds) rest mode =
    rw (is_cons-append cmds rest, fork_commands-wired cmds rest (other_pipe mode)) refl

fork_commands_first :
    (started : Bool) (cmd : List (List ℕ)) (cmds rest : List (List (List ℕ))) (mode : ℕ)
    → wired started mode (cmd ∷ (cmds ++ rest))
      ≡ (fork_commands started (is_cons rest) mode (cmd ∷ cmds)).0
        ++ wired true (fork_commands started (is_cons rest) mode (cmd ∷ cmds)).1 rest
unfolding fork_commands wired
fork_commands_first started cmd cmds rest mode =
    rw (is_cons-append cmds rest, fork_commands-wired cmds rest (other_pipe mode)) refl

-- A name more means a command more.
is_cons-Names :
    (comps : List Component) (names : Executable) (cmds : List (List (List ℕ)))
    → Names comps names cmds
    → is_cons names ≡ is_cons cmds
is_cons-Names comps _ _ done = refl
is_cons-Names comps _ _ (next e f rest) = refl

fork_components-wired :
    (comps : List Component) (names : Executable) (cmds : List (List (List ℕ))) (started : Bool)
    (mode : ℕ)
    → Names comps names cmds
    → fork_components started mode comps names ≡ waited (wired started mode cmds)
unfolding fork_components wired
fork_components-wired comps _ _ started mode done = refl
fork_components-wired comps _ _ started mode (next {names} {cmd} {cmds = own} {rest} e f others) =
    rw
      (
        fork_components,
        e,
        f,
        is_cons-Names comps names rest others,
        fork_components-wired comps names rest true _ others,
        fork_commands_first started cmd own rest mode,
      )
      refl

-- Where each name of a pipeline names a component with a command, the commands of the components
-- run in order as one chain: the process number `q` reads the pipe q % 2, but for the first, and
-- writes the other pipe, but for the last.
pub exec_commands-chain :
    (comps : List Component) (names : Executable) (cmds : List (List (List ℕ)))
    → Names comps names cmds
    → exec_commands comps names ≡ waited (chain 0 cmds)
unfolding exec_commands wired
exec_commands-chain comps names [] h = fork_components-wired comps names [] false 0 h
exec_commands-chain comps names (cmd ∷ cmds) h =
    fork_components-wired comps names (cmd ∷ cmds) false 0 h
    ∙ ap (λ ps. waited (child false (is_cons cmds) 0 cmd ∷ ps)) (wired-chain cmds 0)

-- The process number `i` writes, or reads, the pipe `p`.
abbrev pub Writes : List Process → ℕ → ℕ → Type 0
Writes ps i p = (x : Process) × (get_elem? ps i ≡ some x) × (x.stdout ≡ some p)

abbrev pub Reads : List Process → ℕ → ℕ → Type 0
Reads ps i p = (x : Process) × (get_elem? ps i ≡ some x) × (x.stdin ≡ some p)

chain_numbers :
    (cmds : List (List (List ℕ))) (q i p : ℕ) (x : Process)
    → get_elem? (chain q cmds) i ≡ some x
    → (x.stdout ≡ some p → (p ≡ suc (q + i) % 2) × (i + 1 < length cmds))
      × (x.stdin ≡ some p → (p ≡ (q + i) % 2) × (0 < q + i) × (i < length cmds))
chain_numbers [] q i p x e = absurd (cc e)
chain_numbers (cmd ∷ []) q zero p x e = (λ w. ground (arith, e, w), λ w. ground (arith, e, w))
chain_numbers (cmd ∷ d ∷ cmds) q zero p x e = (λ w. ground (arith, e, w), λ w. ground (arith, e, w))
chain_numbers (cmd ∷ cmds) q (suc i) p x e =
    let later = chain_numbers cmds (suc q) i p x e in
    (λ w. omega (arith, later.0 w), λ w. omega (arith, later.1 w))

chain_exclusive :
    (cmds : List (List (List ℕ))) (i j p : ℕ)
    → length cmds ≤ 3
    → (Writes (chain 0 cmds) i p → Writes (chain 0 cmds) j p → i ≡ j)
      × (Reads (chain 0 cmds) i p → Reads (chain 0 cmds) j p → i ≡ j)
chain_exclusive cmds i j p h = (
  λ (x, ex, wx) (y, ey, wy).
      omega (arith, (chain_numbers cmds 0 i p x ex).0 wx, (chain_numbers cmds 0 j p y ey).0 wy),
  λ (x, ex, wx) (y, ey, wy).
      omega (arith, (chain_numbers cmds 0 i p x ex).1 wx, (chain_numbers cmds 0 j p y ey).1 wy),
)

-- In a pipeline of three commands at most, where each name names a component with a command, no two
-- processes write, or read, the same pipe.
pub exec_commands_exclusive :
    (comps : List Component) (names : Executable) (cmds : List (List (List ℕ)))
    → Names comps names cmds
    → length cmds ≤ 3
    → (ps : List Process) × (exec_commands comps names ≡ waited ps)
      × ((i j p : ℕ)
          → (Writes ps i p → Writes ps j p → i ≡ j) × (Reads ps i p → Reads ps j p → i ≡ j))
exec_commands_exclusive comps names cmds named few = (
  chain 0 cmds,
  exec_commands-chain comps names cmds named,
  λ i j p. chain_exclusive cmds i j p few,
)

-- In a pipeline of four commands or more, where each name names a component with a command, the
-- first and the third process write the same pipe, and the second and the fourth read it.
pub exec_commands_shared :
    (comps : List Component) (names : Executable) (a b c d : List (List ℕ))
    (rest : List (List (List ℕ)))
    → Names comps names (a ∷ b ∷ c ∷ d ∷ rest)
    → (ps : List Process) × (exec_commands comps names ≡ waited ps)
      × Writes ps 0 1
      × Writes ps 2 1
      × Reads ps 1 1
      × Reads ps 3 1
exec_commands_shared comps names a b c d rest h = (
  chain 0 (a ∷ b ∷ c ∷ d ∷ rest),
  exec_commands-chain comps names (a ∷ b ∷ c ∷ d ∷ rest) h,
  (_, refl, refl),
  (_, refl, refl),
  (_, refl, refl),
  (_, refl, refl),
)
