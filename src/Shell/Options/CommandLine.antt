-- ===== src/Shell/Options/CommandLine.antt =====
-- Command lines as the usage text of `printUsage` describes them, and what `run` makes of them.
use akkon.Base.{
  Bool, true, false, ◌||◌, arith, if◌then◌else◌, ◌≡◌, refl, ap, ◌∙◌, Option-cases, Bool-cases, inl,
  inr, Option, none, some, List, [], ◌∷◌, ◌++◌,
}
use akkon.Base.Int.{ℤ, pos}
use akkon.Base.Text.{Text, codes}
use akkon.Shell.ArgumentRegistry.{register_argument, ArgumentMetadata, find_argument, parse}
use akkon.Shell.ArgumentRegistry.Grammar.{
  Accepts, done, flag, valued, parse_exact, Accepts-suffix, Accepts-unregistered,
}
use akkon.Shell.Options.{
  register_all_arguments, Options, initial, Outcome, exits, opens, next_arg, read_arg, read_args,
  decide, run,
}

pub data Setting : Type 0 where
  help no_import debug : Setting
  count port short_port : Text → Setting

abbrev pub print : Setting → List Text
print help = codes "--help" ∷ []
print no_import = codes "--no-import" ∷ []
print debug = codes "--debug" ∷ []
print (count n) = codes "-c" ∷ n ∷ []
print (port n) = codes "--port" ∷ n ∷ []
print (short_port n) = codes "-p" ∷ n ∷ []

abbrev pub print_all : List Setting → List Text
print_all [] = []
print_all (s ∷ settings) = print s ++ print_all settings

print_all-Accepts :
    (settings : List Setting) → Accepts (register_all_arguments []) (print_all settings)
unfolding register_all_arguments register_argument
print_all-Accepts [] = done
print_all-Accepts (help ∷ settings) = flag _ _ refl refl (print_all-Accepts settings)
print_all-Accepts (no_import ∷ settings) = flag _ _ refl refl (print_all-Accepts settings)
print_all-Accepts (debug ∷ settings) = flag _ _ refl refl (print_all-Accepts settings)
print_all-Accepts (count n ∷ settings) = valued _ _ _ refl refl (print_all-Accepts settings)
print_all-Accepts (port n ∷ settings) = valued _ _ _ refl refl (print_all-Accepts settings)
print_all-Accepts (short_port n ∷ settings) = valued _ _ _ refl refl (print_all-Accepts settings)

module _ (stoi : Text → Option ℤ) where
  -- What a setting means, without a look at its spelling.
  abbrev pub set_count : Option ℤ → Options → Option Options
  set_count none o = none
  set_count (some n) o = some (record o { num_databases = n })

  abbrev pub apply : Setting → Options → Option Options
  apply help o = some (record o { show_help = true })
  apply no_import o = some (record o { no_import = true })
  apply debug o = some (record o { debug = true })
  apply (count n) o = set_count (stoi n) o
  apply (port n) o = some o
  apply (short_port n) o = some o

  abbrev pub then_apply : (Options → Option Options) → Option Options → Option Options
  then_apply f none = none
  then_apply f (some o) = f o

  abbrev pub apply_all : List Setting → Options → Option Options
  apply_all [] o = some o
  apply_all (s ∷ settings) o = then_apply (apply_all settings) (apply s o)

  read_args-flag :
      (arg : Text) (args : List Text) (o p : Options)
      → ((following : Option Text) → read_arg stoi arg following o ≡ next_arg p)
      → read_args stoi (arg ∷ args) o ≡ read_args stoi args p
  unfolding read_args
  read_args-flag arg [] o p h = rw (read_args, h none) refl
  read_args-flag arg (v ∷ args) o p h = rw (read_args, h (some v)) refl

  read_args-count :
      (n : Text) (args : List Text) (o : Options)
      → read_args stoi (codes "-c" ∷ n ∷ args) o
        ≡ then_apply (read_args stoi args) (set_count (stoi n) o)
  unfolding read_args read_arg
  read_args-count n args o = elim (Option-cases (stoi n)) [
    | inl e ↦ rw (read_args, e) refl
    | inr (k, e) ↦ rw (read_args, e) refl
  ]

  read_args-print_all :
      (settings : List Setting) (o : Options)
      → read_args stoi (print_all settings) o ≡ apply_all settings o
  unfolding read_args read_arg
  read_args-print_all [] o = refl
  read_args-print_all (help ∷ settings) o =
      read_args-flag (codes "--help") (print_all settings) o (record o { show_help = true })
        (λ following. refl)
      ∙ read_args-print_all settings (record o { show_help = true })
  read_args-print_all (no_import ∷ settings) o =
      read_args-flag (codes "--no-import") (print_all settings) o (record o { no_import = true })
        (λ following. refl)
      ∙ read_args-print_all settings (record o { no_import = true })
  read_args-print_all (debug ∷ settings) o =
      read_args-flag (codes "--debug") (print_all settings) o (record o { debug = true })
        (λ following. refl)
      ∙ read_args-print_all settings (record o { debug = true })
  read_args-print_all (count n ∷ settings) o = elim (Option-cases (stoi n)) [
    | inl e ↦ read_args-count n (print_all settings) o ∙ rw e refl
    | inr (k, e) ↦
        read_args-count n (print_all settings) o
        ∙ rw e (read_args-print_all settings (record o { num_databases = k }))
  ]
  read_args-print_all (port n ∷ settings) o = read_args-print_all settings o
  read_args-print_all (short_port n ∷ settings) o = read_args-print_all settings o

  abbrev is_bad : Option ℤ → Bool
  is_bad none = true
  is_bad (some n) = false

  -- What the settings ask for, read off them: whether a count is no number, the last count, and
  -- whether each flag is there.
  abbrev pub any_bad : List Setting → Bool
  any_bad [] = false
  any_bad (count n ∷ settings) = is_bad (stoi n) || any_bad settings
  any_bad (_ ∷ settings) = any_bad settings

  abbrev number_or : Option ℤ → ℤ → ℤ
  number_or none before = before
  number_or (some n) before = n

  abbrev pub last_count : ℤ → List Setting → ℤ
  last_count before [] = before
  last_count before (count n ∷ settings) = last_count (number_or (stoi n) before) settings
  last_count before (_ ∷ settings) = last_count before settings

  abbrev pub has_help : List Setting → Bool
  has_help [] = false
  has_help (help ∷ settings) = true
  has_help (_ ∷ settings) = has_help settings

  abbrev pub has_no_import : List Setting → Bool
  has_no_import [] = false
  has_no_import (no_import ∷ settings) = true
  has_no_import (_ ∷ settings) = has_no_import settings

  abbrev pub has_debug : List Setting → Bool
  has_debug [] = false
  has_debug (debug ∷ settings) = true
  has_debug (_ ∷ settings) = has_debug settings

  abbrev asked_from : Options → List Setting → Option Options
  asked_from o settings =
      if any_bad settings
      then none
      else some (record {
        num_databases = last_count o.num_databases settings;
        no_import = o.no_import || has_no_import settings;
        show_help = o.show_help || has_help settings;
        debug = o.debug || has_debug settings;
      })

  or_true : (b : Bool) → (b || true) ≡ true
  or_true b = ground arith

  or_nothing : (b : Bool) → (b || false) ≡ b
  or_nothing b = ground arith

  apply_all-asked_from :
      (settings : List Setting) (o : Options) → apply_all settings o ≡ asked_from o settings
  apply_all-asked_from [] o =
      rw (or_nothing o.no_import, or_nothing o.show_help, or_nothing o.debug) refl
  apply_all-asked_from (help ∷ settings) o =
      rw (or_true o.show_help) (apply_all-asked_from settings (record o { show_help = true }))
  apply_all-asked_from (no_import ∷ settings) o =
      rw (or_true o.no_import) (apply_all-asked_from settings (record o { no_import = true }))
  apply_all-asked_from (debug ∷ settings) o =
      rw (or_true o.debug) (apply_all-asked_from settings (record o { debug = true }))
  apply_all-asked_from (count n ∷ settings) o = elim (Option-cases (stoi n)) [
    | inl e ↦ rw e refl
    | inr (k, e) ↦ rw e (apply_all-asked_from settings (record o { num_databases = k }))
  ]
  apply_all-asked_from (port n ∷ settings) o = apply_all-asked_from settings o
  apply_all-asked_from (short_port n ∷ settings) o = apply_all-asked_from settings o

  -- What `run` does on settings: code 1 for a count that is no number, or else code 0 for `--help`, or
  -- else it opens the databases with the last count and the flags.
  abbrev pub expected : List Setting → Outcome
  expected settings =
      if any_bad settings
      then exits 1
      else if has_help settings
      then exits 0
      else opens (record {
        num_databases = last_count (pos 1) settings;
        no_import = has_no_import settings;
        show_help = false;
        debug = has_debug settings;
      })

  -- On a command line that is printed from settings, in any order and number, `run` returns 1 if a count
  -- is no number for `stoi`, and otherwise returns 0 if `--help` is among the settings; else it goes
  -- on with the last count, or 1 without any, and with each flag set exactly if it is there.
  pub run-print_all :
      (settings : List Setting) → run stoi [] false (print_all settings) ≡ expected settings
  unfolding run
  run-print_all settings =
      rw
        ((parse_exact (register_all_arguments []) (print_all settings)).0
          (print_all-Accepts settings))
        (ap decide (
            read_args-print_all settings (initial false)
            ∙ apply_all-asked_from settings (initial false))
          ∙ by_tests (any_bad settings) (has_help settings))
    where
      by_tests :
          (bad helped : Bool)
          → decide (
              if bad
              then none
              else some (record {
                num_databases = last_count (pos 1) settings;
                no_import = has_no_import settings;
                show_help = helped;
                debug = has_debug settings;
              }))
            ≡ (if bad
                then exits 1
                else if helped
                then exits 0
                else opens (record {
                  num_databases = last_count (pos 1) settings;
                  no_import = has_no_import settings;
                  show_help = false;
                  debug = has_debug settings;
                }))
      by_tests true helped = refl
      by_tests false true = refl
      by_tests false false = refl

  -- An argument that is not registered ends `run` with code 1, whatever settings come before it, also
  -- `--debug`, and whatever follows.
  pub run-unregistered :
      (settings : List Setting) (name : Text) (rest : List Text)
      → find_argument name (register_all_arguments []) ≡ none
      → run stoi [] false (print_all settings ++ name ∷ rest) ≡ exits 1
  unfolding run
  run-unregistered settings name rest h =
      elim (Bool-cases (parse registry false (print_all settings ++ name ∷ rest)).success) [
        | inl ok ↦
            let line = (parse_exact registry (print_all settings ++ name ∷ rest)).1 ok in
            absurd (
              Accepts-unregistered h (
                Accepts-suffix (print_all settings) (name ∷ rest) (print_all-Accepts settings)
                  line))
        | inr failed ↦ rw failed refl
      ]
    where
      registry : List ArgumentMetadata
      registry = register_all_arguments []
