-- ===== src/Shell/Options/Tests.antt =====
-- Command lines, with a `stoi` that knows one numeral.
use akkon.Base.{◌≡◌, true, false, Option, none, some, List, [], ◌∷◌, if◌then◌else◌}
use akkon.Base.Int.{ℤ, pos}
use akkon.Base.Text.{Text, codes, text_eq}
use akkon.Shell.ArgumentRegistry.{parse}
use akkon.Shell.ArgumentRegistry.Grammar.{Accepts, accepted, parse_exact}
use akkon.Shell.Options.{register_all_arguments, run}
use akkon.Shell.Options.CommandLine.{
  Setting, count, debug, short_port, print_all, expected, run-print_all,
}

abbrev stoi : Text → Option ℤ
stoi t = if text_eq t (codes "3") then some (pos 3) else none

abbrev settings : List Setting
settings = count (codes "3") ∷ short_port (codes "--help") ∷ debug ∷ []

parse_exact_example :
    (Accepts (register_all_arguments []) (print_all settings)
      → parse (register_all_arguments []) false (print_all settings)
        ≡ accepted (print_all settings))
    × ((parse (register_all_arguments []) false (print_all settings)).success ≡ true
        → Accepts (register_all_arguments []) (print_all settings))
parse_exact_example = parse_exact (register_all_arguments []) (print_all settings)

run-print_all_example : run stoi [] false (print_all settings) ≡ expected stoi settings
run-print_all_example = run-print_all stoi settings
