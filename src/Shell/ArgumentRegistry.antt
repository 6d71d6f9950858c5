-- ===== src/Shell/ArgumentRegistry.antt =====
-- `ArgumentRegistry` of src/shell/ArgumentRegistry.{h,cpp}.
pub mod Grammar
use akkon.Base.{Bool, true, false, ◌||◌, Option, none, some, List, [], ◌∷◌, ◌++◌, if◌then◌else◌}
use akkon.Base.Text.{Text, codes, text_eq}
use akkon.Memory.Manager.{RuntimeDomain}

pub record ArgumentMetadata : Type 0 where
  pub name : Text
  pub takes_arg : Bool
  pub format : Text
  pub help : Text
  pub domain : RuntimeDomain

pub record ParseResult : Type 0 where
  pub success : Bool
  pub parsed_args : List Text
  pub unregistered : List Text
  pub warnings : List Text
  pub error : Text

abbrev pub find_argument : Text → List ArgumentMetadata → Option ArgumentMetadata
find_argument arg [] = none
find_argument arg (meta ∷ registry) =
    let rest = find_argument arg registry in if text_eq meta.name arg then some meta else rest

abbrev pub is_registered : Text → List ArgumentMetadata → Bool
is_registered name [] = false
is_registered name (m ∷ registry) = text_eq m.name name || is_registered name registry

-- `registerArgument`; a name that is there already is refused with a warning.
unfoldable pub register_argument : ArgumentMetadata → List ArgumentMetadata → List ArgumentMetadata
register_argument meta registry =
    if is_registered meta.name registry then registry else registry ++ meta ∷ []

-- How a round of the loop of `parse` ends: it returns, goes on, or goes on after the value too.
pub data Progress : Type 0 where
  returns goes_on skips_value : ParseResult → Progress

abbrev pub fail : Text → ParseResult → ParseResult
fail message result = record result { success = false; error = message }

abbrev pub unknown : Bool → Text → ParseResult → Progress
unknown true arg result = goes_on (record result {
  warnings = result.warnings ++ (codes "Unregistered argument: " ++ arg) ∷ [];
  unregistered = result.unregistered ++ arg ∷ [];
})
unknown false arg result = returns (fail (codes "Unknown argument: " ++ arg) result)

abbrev pub with_value : Text → Option Text → ParseResult → Progress
with_value arg none result =
    returns (fail (codes "Argument " ++ arg ++ codes " requires a value") result)
with_value arg (some value) result =
    skips_value (record result { parsed_args = result.parsed_args ++ arg ∷ value ∷ [] })

abbrev pub parse_found :
    Bool → Option ArgumentMetadata → Text → Option Text → ParseResult → Progress
parse_found debug_mode none arg following result = unknown debug_mode arg result
parse_found debug_mode (some meta) arg following result =
    if meta.takes_arg
    then with_value arg following result
    else goes_on (record result { parsed_args = result.parsed_args ++ arg ∷ [] })

module _ (registry : List ArgumentMetadata) (debug_mode : Bool) where
  -- One round: the argument, and the one after it where there is one.
  pub parse_arg : Text → Option Text → ParseResult → Progress
  parse_arg arg following result =
      parse_found debug_mode (find_argument arg registry) arg following result

  pub parse_loop : List Text → ParseResult → ParseResult
  parse_loop [] result = result
  parse_loop (arg ∷ []) result = elim (parse_arg arg none result) [
    | returns r ↦ r
    | goes_on r ↦ r
    | skips_value r ↦ r
  ]
  parse_loop (arg ∷ value ∷ args) result = elim (parse_arg arg (some value) result) [
    | returns r ↦ r
    | goes_on r ↦ parse_loop (value ∷ args) r
    | skips_value r ↦ parse_loop args r
  ]

  -- `parse`, on the arguments after the name of the program.
  pub parse : List Text → ParseResult
  parse args =
      parse_loop args
        (record { success = true; parsed_args = []; unregistered = []; warnings = []; error = [] })
