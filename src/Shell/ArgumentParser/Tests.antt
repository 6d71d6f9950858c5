-- ===== src/Shell/ArgumentParser/Tests.antt =====
-- A command line with a count.
use akkon.Base.{◌≡◌, ◌↔◌, Option, some, [], ◌∷◌, List}
use akkon.Base.Int.{ℤ, pos}
use akkon.Base.Text.{Text, codes}
use akkon.Shell.ArgumentParser.{ShellOptions, defaults, accepted, parse}
use akkon.Shell.ArgumentParser.Accepts.{Accepts, parse-Accepts}

abbrev always_two : Text → Option ℤ
always_two text = some (pos 2)

abbrev two : ShellOptions
two = record defaults { count = pos 2 }

abbrev command_line : List Text
command_line = codes "-c" ∷ codes "2" ∷ []

parse-Accepts_example :
    (parse always_two command_line ≡ accepted two) ↔ Accepts always_two command_line defaults two
parse-Accepts_example = parse-Accepts always_two command_line two
