-- ===== src/Shell/ArgumentParser/Accepts.antt =====
-- The command lines that `ArgumentParser::parse` accepts.
use akkon.Base.{
  ◌≡◌, refl, sym, ap, ◌∙◌, ◌↔◌, Bool, true, false, ◌||◌, Bool-cases, inl, inr, Option, none, some,
  List, [], ◌∷◌, ◌++◌, if◌then◌else◌,
}
use mathlib.Core.Path.{subst}
use akkon.Base.Int.{ℤ}
use akkon.Base.Text.{Text, codes, text_eq, eq_of_text_eq}
use akkon.Shell.ArgumentParser.{
  ShellOptions, defaults, Parsed, accepted, refused, is_positive, check_count, parse_from, parse,
}

abbrev pub is_help : Text → Bool
is_help arg = text_eq arg (codes "-h") || text_eq arg (codes "--help")

-- A command line, the options before it, and those after it: an argument for help ends the reading.
pub data Accepts (stoi : Text → Option ℤ) : List Text → ShellOptions → ShellOptions → Type 0 where
  done : {o : ShellOptions} → is_positive o.count ≡ true → Accepts stoi [] o o
  help :
      {arg : Text} {args : List Text} {o : ShellOptions}
      → is_help arg ≡ true
      → Accepts stoi (arg ∷ args) o (record o { help = true })
  no_import :
      {args : List Text} {o p : ShellOptions}
      → Accepts stoi args (record o { no_import = true }) p
      → Accepts stoi (codes "--no-import" ∷ args) o p
  count :
      {value : Text} {n : ℤ} {args : List Text} {o p : ShellOptions}
      → stoi value ≡ some n
      → Accepts stoi args (record o { count = n }) p
      → Accepts stoi (codes "-c" ∷ value ∷ args) o p

abbrev options_of : Parsed → ShellOptions
options_of (accepted o) = o
options_of (refused message) = defaults

abbrev is_accepted : Parsed → Bool
is_accepted (accepted o) = true
is_accepted (refused message) = false

refused-accepted : {message : Text} {o : ShellOptions} → ¬ (refused message ≡ accepted o)
refused-accepted e = absurd (false-true (ap is_accepted e))
  where
    false-true : ¬ (false ≡ true)
    false-true h = cc

module _ (stoi : Text → Option ℤ) where
  accepted-help :
      (arg : Text) (args : List Text) (o : ShellOptions)
      → is_help arg ≡ true
      → parse_from stoi (arg ∷ args) o ≡ accepted (record o { help = true })
  unfolding parse_from
  accepted-help arg [] o h = rw (parse_from, h) refl
  accepted-help arg (value ∷ args) o h = rw (parse_from, h) refl

  accepted-Accepts :
      {args : List Text} {o p : ShellOptions}
      → Accepts stoi args o p
      → parse_from stoi args o ≡ accepted p
  unfolding parse_from
  accepted-Accepts (done h) = rw (parse_from, h) refl
  accepted-Accepts (help {arg} {args} {o} h) = accepted-help arg args o h
  accepted-Accepts (no_import {args} {o} h) = by_rest args (accepted-Accepts h)
    where
      by_rest :
          {p : ShellOptions} (rest : List Text)
          → parse_from stoi rest (record o { no_import = true }) ≡ accepted p
          → parse_from stoi (codes "--no-import" ∷ rest) o ≡ accepted p
      by_rest [] e = e
      by_rest (arg ∷ rest) e = e
  accepted-Accepts (count value_is h) = rw (parse_from, value_is) (accepted-Accepts h)

  check_count-Accepts : (o p : ShellOptions) → check_count o ≡ accepted p → Accepts stoi [] o p
  check_count-Accepts o p h = by_sign (is_positive o.count) refl h
    where
      by_sign :
          (b : Bool)
          → is_positive o.count ≡ b
          → (if b then accepted o else refused (codes "Number of databases must be positive"))
            ≡ accepted p
          → Accepts stoi [] o p
      by_sign true e k = subst (Accepts stoi [] o) (ap options_of k) (done e)
      by_sign false e k = absurd (refused-accepted k)

  refused_arg :
      (arg : Text) (args : List Text) (o : ShellOptions)
      → is_help arg ≡ false
      → text_eq arg (codes "--no-import") ≡ false
      → text_eq arg (codes "-c") ≡ false
      → parse_from stoi (arg ∷ args) o ≡ refused (codes "Unknown argument: " ++ arg)
  unfolding parse_from
  refused_arg arg [] o h n c = rw (parse_from, h, n, c) refl
  refused_arg arg (value ∷ args) o h n c = rw (parse_from, h, n, c) refl

  import_arg :
      (args : List Text) (o : ShellOptions)
      → parse_from stoi (codes "--no-import" ∷ args) o
        ≡ parse_from stoi args (record o { no_import = true })
  unfolding parse_from
  import_arg [] o = refl
  import_arg (value ∷ args) o = refl

  -- The value of `-c`, where the rest of the line is understood.
  count_arg :
      (value : Text) (args : List Text) (o p : ShellOptions)
      → ((n : ℤ)
          → parse_from stoi args (record o { count = n }) ≡ accepted p
          → Accepts stoi args (record o { count = n }) p)
      → parse_from stoi (codes "-c" ∷ value ∷ args) o ≡ accepted p
      → Accepts stoi (codes "-c" ∷ value ∷ args) o p
  unfolding parse_from
  count_arg value args o p rest h = by_value (stoi value) refl h
    where
      by_value :
          (r : Option ℤ)
          → stoi value ≡ r
          → elim r as (λ _. Parsed) [
            | none ↦ refused (codes "Invalid numeric value for -c")
            | some n ↦ parse_from stoi args (record o { count = n })
          ]
            ≡ accepted p
          → Accepts stoi (codes "-c" ∷ value ∷ args) o p
      by_value none e k = absurd (refused-accepted k)
      by_value (some n) e k = count e (rest n k)

  count_alone : (o p : ShellOptions) → ¬ (parse_from stoi (codes "-c" ∷ []) o ≡ accepted p)
  unfolding parse_from
  count_alone o p h = refused-accepted h

  by_word :
      (arg : Text) (args : List Text) (o p : ShellOptions)
      → (parse_from stoi args (record o { no_import = true }) ≡ accepted p
          → Accepts stoi args (record o { no_import = true }) p)
      → (parse_from stoi (codes "-c" ∷ args) o ≡ accepted p → Accepts stoi (codes "-c" ∷ args) o p)
      → parse_from stoi (arg ∷ args) o ≡ accepted p
      → Accepts stoi (arg ∷ args) o p
  by_word arg args o p rest counted h = elim (Bool-cases (is_help arg)) [
    | inl e ↦
        subst (Accepts stoi (arg ∷ args) o) (ap options_of (sym (accepted-help arg args o e) ∙ h))
          (help e)
    | inr e ↦ elim (Bool-cases (text_eq arg (codes "--no-import"))) [
      | inl f ↦
          subst (λ a. parse_from stoi (a ∷ args) o ≡ accepted p → Accepts stoi (a ∷ args) o p)
            (sym (eq_of_text_eq arg (codes "--no-import") f))
            (λ k. no_import (rest (sym (import_arg args o) ∙ k))) h
      | inr f ↦ elim (Bool-cases (text_eq arg (codes "-c"))) [
        | inl c ↦
            subst (λ a. parse_from stoi (a ∷ args) o ≡ accepted p → Accepts stoi (a ∷ args) o p)
              (sym (eq_of_text_eq arg (codes "-c") c)) counted h
        | inr c ↦ absurd (refused-accepted (sym (refused_arg arg args o e f c) ∙ h))
      ]
    ]
  ]

  Accepts-accepted :
      (args : List Text) (o p : ShellOptions)
      → parse_from stoi args o ≡ accepted p
      → Accepts stoi args o p
  Accepts-accepted [] o p h = check_count-Accepts o p (unfold parse_from in h)
  Accepts-accepted (arg ∷ []) o p h =
      by_word arg [] o p (Accepts-accepted [] (record o { no_import = true }) p)
        (λ k. absurd (count_alone o p k)) h
  Accepts-accepted (arg ∷ value ∷ args) o p h =
      by_word arg (value ∷ args) o p
        (Accepts-accepted (value ∷ args) (record o { no_import = true }) p)
        (count_arg value args o p (λ n. Accepts-accepted args (record o { count = n }) p)) h

  -- `parse` accepts a command line with some options exactly when it is made of `--no-import` and
  -- `-c` with a number, read from left to right, up to its end, where the number must be positive,
  -- or up to `-h` or `--help`; the options are the ones so spelled.
  pub parse-Accepts :
      (args : List Text) (p : ShellOptions)
      → (parse stoi args ≡ accepted p) ↔ Accepts stoi args defaults p
  unfolding parse
  parse-Accepts args p = (Accepts-accepted args defaults p, accepted-Accepts)
