-- ===== src/Shell/Options.antt =====
-- `Shell::run` of src/shell/Shell.cpp up to the databases: the registered arguments, the loop over
-- the parsed ones, and the exit codes. `std::stoi` is a parameter; `none` is its exception.
pub mod CommandLine
mod Tests
use akkon.Base.{ℕ, Bool, true, false, ◌||◌, ◌&&◌, Option, none, some, List, [], ◌∷◌, if◌then◌else◌}
use akkon.Base.Int.{ℤ, pos}
use akkon.Base.Text.{Text, codes, text_eq}
use akkon.Memory.Manager.{runtime}
use akkon.Shell.ArgumentRegistry.{ArgumentMetadata, register_argument, ParseResult, parse}

abbrev argument : Text → Bool → Text → Text → ArgumentMetadata
argument name takes_arg format help = record {
  name = name;
  takes_arg = takes_arg;
  format = format;
  help = help;
  domain = runtime;
}

-- `registerAllArguments`, on a registry that may hold arguments already.
pub register_all_arguments : List ArgumentMetadata → List ArgumentMetadata
register_all_arguments registry =
    let a =
      register_argument (argument (codes "--help") false (codes "flag") (codes "Show help"))
        registry in
    let b =
      register_argument (argument (codes "-c") true (codes "integer") (codes "Number of databases"))
        a in
    let c =
      register_argument
        (argument (codes "--no-import") false (codes "flag") (codes "Skip importing unmapped DBs"))
        b in
    let d =
      register_argument
        (argument (codes "--debug") false (codes "flag") (codes "Enable debug mode")) c in
    let e =
      register_argument (argument (codes "--port") true (codes "integer") (codes "Server port"))
        d in
    register_argument (argument (codes "-p") true (codes "integer") (codes "Server port")) e

-- The local variables of `run`, and `m_debug`.
pub record Options : Type 0 where
  pub num_databases : ℤ
  pub no_import : Bool
  pub show_help : Bool
  pub debug : Bool

abbrev pub initial : Bool → Options
initial m_debug = record {
  num_databases = pos 1;
  no_import = false;
  show_help = false;
  debug = m_debug;
}

-- How a round of the loop over the parsed arguments ends.
pub data Reading : Type 0 where
  invalid : Reading
  next_arg after_value : Options → Reading

-- What `run` does before it opens the databases: it returns a code, or goes on.
pub data Outcome : Type 0 where
  exits : ℕ → Outcome
  opens : Options → Outcome

abbrev pub decide : Option Options → Outcome
decide none = exits 1
decide (some o) = if o.show_help then exits 0 else opens o

module _ (stoi : Text → Option ℤ) where
  abbrev pub read_count : Option ℤ → Options → Reading
  read_count none o = invalid
  read_count (some n) o = after_value (record o { num_databases = n })

  abbrev pub has_value : Option Text → Bool
  has_value none = false
  has_value (some value) = true

  abbrev pub count_of : Option Text → Options → Reading
  count_of none o = next_arg o
  count_of (some value) o = read_count (stoi value) o

  -- The chain of tests; an argument that takes a value and has none falls through it.
  pub read_arg : Text → Option Text → Options → Reading
  read_arg arg following o =
      if text_eq arg (codes "--help")
      then next_arg (record o { show_help = true })
      else if text_eq arg (codes "-c") && has_value following
      then count_of following o
      else if text_eq arg (codes "--no-import")
      then next_arg (record o { no_import = true })
      else if text_eq arg (codes "--debug")
      then next_arg (record o { debug = true })
      else if (text_eq arg (codes "-p") || text_eq arg (codes "--port")) && has_value following
      then after_value o
      else next_arg o

  pub read_args : List Text → Options → Option Options
  read_args [] o = some o
  read_args (arg ∷ []) o = elim (read_arg arg none o) [
    | invalid ↦ none
    | next_arg p ↦ some p
    | after_value p ↦ some p
  ]
  read_args (arg ∷ value ∷ args) o = elim (read_arg arg (some value) o) [
    | invalid ↦ none
    | next_arg p ↦ read_args (value ∷ args) p
    | after_value p ↦ read_args args p
  ]

  pub run : List ArgumentMetadata → Bool → List Text → Outcome
  run registry m_debug args =
      let result = parse (register_all_arguments registry) m_debug args in
      if result.success then decide (read_args result.parsed_args (initial m_debug)) else exits 1
