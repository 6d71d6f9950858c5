-- ===== src/Shell/ArgumentParser.antt =====
-- `ArgumentParser` of src/shell/ArgumentParser.cpp with the options of src/shell/ShellOptions.h.
-- `std::stoi` is a parameter; `none` is its exception.
pub mod Accepts
mod Tests
use akkon.Base.{
  Bool, true, false, Option, none, some, List, [], ◌∷◌, ◌++◌, if◌then◌else◌, ◌||◌, ◌==◌,
}
use akkon.Base.Int.{ℤ, pos, negsuc}
use akkon.Base.Text.{Text, codes, text_eq}

pub record ShellOptions : Type 0 where
  pub count : ℤ
  pub no_import : Bool
  pub help : Bool

abbrev pub defaults : ShellOptions
defaults = record { count = pos 1; no_import = false; help = false }

-- `parse` returns true with the options, or false with the error.
pub data Parsed : Type 0 where
  accepted : ShellOptions → Parsed
  refused : Text → Parsed

abbrev pub is_positive : ℤ → Bool
is_positive (pos n) = if n == 0 then false else true
is_positive (negsuc n) = false

-- After the loop.
abbrev pub check_count : ShellOptions → Parsed
check_count options =
    if is_positive options.count
    then accepted options
    else refused (codes "Number of databases must be positive")

module _ (stoi : Text → Option ℤ) where
  -- The loop, on the arguments from the second on.
  pub parse_from : List Text → ShellOptions → Parsed
  parse_from [] options = check_count options
  parse_from (arg ∷ []) options =
      if text_eq arg (codes "-h") || text_eq arg (codes "--help")
      then accepted (record options { help = true })
      else if text_eq arg (codes "--no-import")
      then check_count (record options { no_import = true })
      else if text_eq arg (codes "-c")
      then refused (codes "Missing value for -c")
      else refused (codes "Unknown argument: " ++ arg)
  parse_from (arg ∷ value ∷ args) options =
      let import_off = parse_from (value ∷ args) (record options { no_import = true }) in
      let counted : Parsed = elim (stoi value) [
        | none ↦ refused (codes "Invalid numeric value for -c")
        | some n ↦ parse_from args (record options { count = n })
      ] in
      if text_eq arg (codes "-h") || text_eq arg (codes "--help")
      then accepted (record options { help = true })
      else if text_eq arg (codes "--no-import")
      then import_off
      else if text_eq arg (codes "-c")
      then counted
      else refused (codes "Unknown argument: " ++ arg)

  pub parse : List Text → Parsed
  parse args = parse_from args defaults
