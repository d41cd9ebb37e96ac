-- ===== src/Pipeline/Parse/RoundTrip.antt =====
-- A file as it is written: components, an empty line, pipelines. `parse_file` reads it back.
use agh_sys_opy.Prelude.{
  ℕ, suc, ◌+◌, ◌<◌, ◌≤◌, ◌≡◌, List, [], ◌∷◌, map, some, length, length-append, arith, ap, ap₂, ◌∙◌,
  length-map,
}
use agh_sys_opy.Pipeline.{Component, Executable}
use agh_sys_opy.Pipeline.Parse.{
  count_lines, parse_components, executables_room, with_executables, parse_file,
}
use agh_sys_opy.Pipeline.Parse.Counts.{print_lines, count_lines-print_lines}
use agh_sys_opy.Pipeline.Parse.Components.{
  component_line, printed_components, AllComponents, parse_components-lines,
}
use agh_sys_opy.Pipeline.Parse.Executables.{
  executable_line, printed_executables, AllPipelines, parse_executables-lines,
}

-- A file: components, an empty line, pipelines.
abbrev pub print_file : List Component → List Executable → List ℕ
print_file comps lines =
    print_lines (map component_line comps) (10 ∷ print_lines (map executable_line lines) [])

-- Each line has a byte and a newline.
length-print_lines :
    (ls : List (List ℕ)) (rest : List ℕ) → length ls + length rest ≤ length (print_lines ls rest)
length-print_lines [] rest = omega arith
length-print_lines (l ∷ ls) rest =
    omega (arith, length-append l (10 ∷ print_lines ls rest), length-print_lines ls rest)

count_lines-print_file :
    (comps : List Component) (lines : List Executable)
    → AllComponents comps
    → AllPipelines lines
    → 0 < length comps
    → count_lines (print_file comps lines) ≡ (length comps, length lines)
count_lines-print_file [] lines h hl p = absurd (omega arith)
count_lines-print_file (c ∷ cs) lines h hl p =
    count_lines-print_lines (component_line c) (map component_line cs) (map executable_line lines)
      (printed_components (c ∷ cs) h) (printed_executables lines hl)
    ∙ ap₂ (λ a b. (suc a, b)) (length-map cs component_line) (length-map lines executable_line)

-- A file that is written from components with a name and one to ten commands, an empty line, and
-- pipelines of one to ten names, is parsed back into the same components and pipelines, where there
-- is a component and the words hold no spaces, `=` or `|`.
pub parse_file-print_file :
    (comps : List Component) (lines : List Executable)
    → AllComponents comps
    → AllPipelines lines
    → 0 < length comps
    → parse_file (print_file comps lines) ≡ some (comps, lines)
unfolding parse_file
parse_file-print_file comps lines h hl p =
    rw (parse_file, counted, components_parsed, counted)
      (ap (with_executables comps) (
        parse_executables-lines lines (length lines_part) (executables_room (length lines)) hl
          (omega (
            arith,
            length-print_lines (map executable_line lines) [],
            length-map lines executable_line,
          ))
          (omega arith)))
  where
    counted : count_lines (print_file comps lines) ≡ (length comps, length lines)
    counted = count_lines-print_file comps lines h hl p

    lines_part : List ℕ
    lines_part = print_lines (map executable_line lines) []

    components_parsed :
        parse_components (length (print_file comps lines)) (length comps) (print_file comps lines)
        ≡ some (comps, lines_part)
    components_parsed =
        parse_components-lines comps (length (print_file comps lines)) (length comps) lines_part h
          (omega (
            arith,
            length-print_lines (map component_line comps) (10 ∷ lines_part),
            length-map comps component_line,
          ))
          (omega arith)
