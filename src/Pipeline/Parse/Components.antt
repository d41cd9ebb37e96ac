-- ===== src/Pipeline/Parse/Components.antt =====
-- The first lines of a file, one for each component, and how `parse_components` reads them.
use agh_sys_opy.Prelude.{
  take-all, ℕ, zero, suc, ◌<◌, ◌≤◌, ◌≡◌, refl, Bool, true, not, not-true, List, [], ◌∷◌, ◌++◌, map,
  append_assoc, some, ◌==◌, length, arith, ap, ◌∙◌,
}
use agh_sys_opy.Text.{getline, tokens}
use agh_sys_opy.Text.Tokens.{
  Every, IsToken, Every-append, IsToken-weaken, join_words, getline-Every, strtok_at-Every,
  tokens-cut, tokens_alone,
}
use agh_sys_opy.Pipeline.{Component, max_size}
use agh_sys_opy.Pipeline.Parse.{trim_name, parse_commands, parse_component, parse_components}
use agh_sys_opy.Pipeline.Parse.Words.{
  plain, Plain, IsCommand, join_words-Every, in_line, at_end, parse_command-in_line,
  parse_command-at_end,
}
use agh_sys_opy.Pipeline.Parse.Counts.{print_lines, Lines}

-- The commands of a component, with a bar between them, up to the end of the line.
abbrev pub commands_line : List (List (List ℕ)) → List ℕ
commands_line [] = []
commands_line (c ∷ []) = b' ' ∷ join_words c
commands_line (c ∷ d ∷ cs) = in_line c ++ (b'|' ∷ commands_line (d ∷ cs))

abbrev pub component_line : Component → List ℕ
component_line comp = (comp.name ++ (b' ' ∷ [])) ++ (b'=' ∷ commands_line comp.cmds)

abbrev pub AllCommands : List (List (List ℕ)) → Type 0
AllCommands [] = Unit
AllCommands (c ∷ cs) = IsCommand c × AllCommands cs

-- A component with a name and one to ten commands.
abbrev pub IsComponent : Component → Type 0
IsComponent comp =
    IsToken plain comp.name
    × AllCommands comp.cmds
    × (0 < length comp.cmds)
    × (length comp.cmds ≤ max_size)

-- What the bars leave.
pieces : List (List (List ℕ)) → List (List ℕ)
pieces [] = []
pieces (c ∷ []) = at_end c ∷ []
pieces (c ∷ d ∷ cs) = in_line c ∷ pieces (d ∷ cs)

length-pieces : (cs : List (List (List ℕ))) → length (pieces cs) ≡ length cs
unfolding pieces
length-pieces [] = refl
length-pieces (c ∷ []) = refl
length-pieces (c ∷ d ∷ cs) = ap suc (length-pieces (d ∷ cs))

IsCommand-Plain : (c : List (List ℕ)) → IsCommand c → Plain c
IsCommand-Plain [] h = absurd h
IsCommand-Plain (w ∷ ws) h = h

not_bar : (c : ℕ) → plain c ≡ true → not (c == b'|') ≡ true
not_bar c e = ground (arith, e)

tokens-commands_line :
    (c : List (List ℕ)) (cs : List (List (List ℕ)))
    → AllCommands (c ∷ cs)
    → tokens (λ b. b == b'|') (commands_line (c ∷ cs) ++ (10 ∷ [])) ≡ pieces (c ∷ cs)
unfolding pieces
tokens-commands_line c [] h =
    tokens_alone (λ b. b == b'|') (at_end c)
      (
        refl,
        Every-append _ (join_words c) (10 ∷ [])
            (join_words-Every _ c refl not_bar (IsCommand-Plain c h.0)) (refl, tt),
      )
tokens-commands_line c (d ∷ cs) h =
    ap (tokens (λ b. b == b'|'))
      (append_assoc (in_line c) (b'|' ∷ commands_line (d ∷ cs)) (10 ∷ []))
    ∙ tokens-cut (λ b. b == b'|') (in_line c) b'|' (commands_line (d ∷ cs) ++ (10 ∷ []))
        (
          refl,
          Every-append _ (join_words c) (b' ' ∷ [])
              (join_words-Every _ c refl not_bar (IsCommand-Plain c h.0)) (refl, tt),
        )
        refl
    ∙ ap (λ ts. in_line c ∷ ts) (tokens-commands_line d cs h.1)

parse_commands-pieces :
    (cs : List (List (List ℕ))) → AllCommands cs → parse_commands (pieces cs) ≡ some cs
unfolding parse_commands pieces
parse_commands-pieces [] h = refl
parse_commands-pieces (c ∷ []) h = rw (parse_commands, parse_command-at_end c h.0) refl
parse_commands-pieces (c ∷ d ∷ cs) h =
    rw (parse_commands, parse_command-in_line c h.0, parse_commands-pieces (d ∷ cs) h.1) refl

trim_name_space : (name : List ℕ) → trim_name (name ++ (b' ' ∷ [])) ≡ name
unfolding trim_name
trim_name_space [] = refl
trim_name_space (c ∷ []) = refl
trim_name_space (c ∷ d ∷ rest) = ap (λ s. c ∷ s) (trim_name_space (d ∷ rest))

pub IsToken-append : (p : ℕ → Bool) (w s : List ℕ) → IsToken p w → Every p s → IsToken p (w ++ s)
IsToken-append p [] s h hs = absurd h
IsToken-append p (c ∷ w) s h hs = Every-append p (c ∷ w) s h hs

tokens-commands :
    (cs : List (List (List ℕ)))
    → AllCommands cs
    → 0 < length cs
    → tokens (λ b. b == b'|') (commands_line cs ++ (10 ∷ [])) ≡ pieces cs
tokens-commands [] h p = absurd (omega arith)
tokens-commands (c ∷ cs) h p = tokens-commands_line c cs h

parse_component-line :
    (comp : Component)
    → IsComponent comp
    → parse_component (component_line comp ++ (10 ∷ [])) ≡ some comp
unfolding parse_component
parse_component-line comp (name, commands, some_command, few) =
    rw
      (
        append_assoc,
        parse_component,
        strtok_at-Every b'=' (comp.name ++ (b' ' ∷ [])) (commands_line comp.cmds ++ (10 ∷ []))
            (IsToken-append _ comp.name (b' ' ∷ [])
              (IsToken-weaken plain _ comp.name (λ c e. ground (arith, e)) name) (refl, tt))
            refl,
        tokens-commands comp.cmds commands some_command,
        take-all max_size (pieces comp.cmds) (omega (arith, length-pieces comp.cmds)),
        parse_commands-pieces comp.cmds commands,
        trim_name_space comp.name,
      )
      refl

-- A line of the file that is not empty, and the file behind it.
abbrev pub one_line : ℕ → Bool
one_line c = not (c == 10)

parse_components_next :
    (fuel room : ℕ) (l rest : List ℕ) (comp : Component) (comps : List Component) (behind : List ℕ)
    → IsToken one_line l
    → parse_component (l ++ (10 ∷ [])) ≡ some comp
    → parse_components fuel room rest ≡ some (comps, behind)
    → parse_components (suc fuel) (suc room) (l ++ (10 ∷ rest)) ≡ some (comp ∷ comps, behind)
unfolding parse_components
parse_components_next fuel room [] rest comp comps behind h e f = absurd h
parse_components_next fuel room (c ∷ l) rest comp comps behind h e f =
    let cut : getline (c ∷ (l ++ (10 ∷ rest))) ≡ (c ∷ (l ++ (10 ∷ [])), rest) =
      getline-Every (c ∷ l) rest h in
    let line : parse_component (c ∷ (l ++ (10 ∷ []))) ≡ some comp = e in
    rw (parse_components, cut, not-true (c == 10) h.0, cut, line, cut, f) refl

commands_line-Every :
    (p : ℕ → Bool) (cs : List (List (List ℕ)))
    → p b' ' ≡ true
    → p b'|' ≡ true
    → ((c : ℕ) → plain c ≡ true → p c ≡ true)
    → AllCommands cs
    → Every p (commands_line cs)
commands_line-Every p [] blank bar f h = tt
commands_line-Every p (c ∷ []) blank bar f h =
    (blank, join_words-Every p c blank f (IsCommand-Plain c h.0))
commands_line-Every p (c ∷ d ∷ cs) blank bar f h =
    Every-append p (in_line c) (b'|' ∷ commands_line (d ∷ cs))
      (
        blank,
        Every-append p (join_words c) (b' ' ∷ [])
            (join_words-Every p c blank f (IsCommand-Plain c h.0)) (blank, tt),
      )
      (bar, commands_line-Every p (d ∷ cs) blank bar f h.1)

pub plain-one_line : (c : ℕ) → plain c ≡ true → one_line c ≡ true
plain-one_line c e = ground (arith, e)

pub component_line-IsToken :
    (comp : Component) → IsComponent comp → IsToken one_line (component_line comp)
component_line-IsToken comp (name, commands, some_command, few) =
    IsToken-append one_line (comp.name ++ (b' ' ∷ [])) (b'=' ∷ commands_line comp.cmds)
      (IsToken-append one_line comp.name (b' ' ∷ [])
        (IsToken-weaken plain one_line comp.name plain-one_line name) (refl, tt))
      (refl, commands_line-Every one_line comp.cmds refl refl plain-one_line commands)

abbrev pub AllComponents : List Component → Type 0
AllComponents [] = Unit
AllComponents (c ∷ cs) = IsComponent c × AllComponents cs

pub parse_components-lines :
    (comps : List Component) (fuel room : ℕ) (rest : List ℕ)
    → AllComponents comps
    → length comps < fuel
    → length comps ≤ room
    → parse_components fuel room (print_lines (map component_line comps) (10 ∷ rest))
      ≡ some (comps, rest)
unfolding parse_components getline
parse_components-lines comps zero room rest h enough space = absurd (omega arith)
parse_components-lines [] (suc fuel) room rest h enough space = refl
parse_components-lines (c ∷ cs) (suc fuel) zero rest h enough space = absurd (omega arith)
parse_components-lines (c ∷ cs) (suc fuel) (suc room) rest h enough space =
    parse_components_next fuel room (component_line c) _ c cs rest (component_line-IsToken c h.0)
      (parse_component-line c h.0)
      (parse_components-lines cs fuel room rest h.1 (omega arith) (omega arith))

pub printed_components :
    (comps : List Component) → AllComponents comps → Lines (map component_line comps)
printed_components [] h = tt
printed_components (c ∷ cs) h = (component_line-IsToken c h.0, printed_components cs h.1)
