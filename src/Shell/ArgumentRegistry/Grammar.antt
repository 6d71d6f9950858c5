-- ===== src/Shell/ArgumentRegistry/Grammar.antt =====
-- The command lines that `parse` accepts, as a grammar over the registered arguments.
use akkon.Base.{
  Bool, true, false, ◌≡◌, refl, sym, ap, ◌∙◌, Option, none, some, List, [], ◌∷◌, ◌++◌, arith,
  Option-cases, Bool-cases, inl, inr,
}
use mathlib.Core.Option.{some-injective}
use mathlib.Core.List.{append_assoc, append-nil}
use akkon.Base.Text.{Text}
use akkon.Shell.ArgumentRegistry.{
  ArgumentMetadata, ParseResult, find_argument, parse_arg, parse_loop, parse,
}

pub data Accepts (registry : List ArgumentMetadata) : List Text → Type 0 where
  done : Accepts registry []
  flag :
      (arg : Text) (args : List Text) {meta : ArgumentMetadata}
      → find_argument arg registry ≡ some meta
      → meta.takes_arg ≡ false
      → Accepts registry args
      → Accepts registry (arg ∷ args)
  valued :
      (arg value : Text) (args : List Text) {meta : ArgumentMetadata}
      → find_argument arg registry ≡ some meta
      → meta.takes_arg ≡ true
      → Accepts registry args
      → Accepts registry (arg ∷ value ∷ args)

abbrev pub taken : List Text → ParseResult → ParseResult
taken args r = record r { parsed_args = r.parsed_args ++ args }

-- The result of a command line that is handed on whole.
abbrev pub accepted : List Text → ParseResult
accepted args = record {
  success = true;
  parsed_args = args;
  unregistered = [];
  warnings = [];
  error = [];
}

module _ (registry : List ArgumentMetadata) where
  parse_loop-Accepts :
      (debug_mode : Bool) {args : List Text}
      → Accepts registry args
      → (r : ParseResult) → parse_loop registry debug_mode args r ≡ taken args r
  unfolding parse_loop parse_arg
  parse_loop-Accepts debug_mode done r =
      ap (λ xs. record r { parsed_args = xs }) (sym (append-nil r.parsed_args))
  parse_loop-Accepts debug_mode (flag arg [] found bare rest) r = rw (parse_loop, found, bare) refl
  parse_loop-Accepts debug_mode (flag arg (v ∷ args) found bare rest) r =
      rw (parse_loop, found, bare)
        (parse_loop-Accepts debug_mode rest (record r { parsed_args = r.parsed_args ++ arg ∷ [] })
          ∙ ap (λ xs. record r { parsed_args = xs })
              (append_assoc r.parsed_args (arg ∷ []) (v ∷ args)))
  parse_loop-Accepts debug_mode (valued arg v args found takes rest) r =
      rw (parse_loop, found, takes)
        (parse_loop-Accepts debug_mode rest
            (record r { parsed_args = r.parsed_args ++ arg ∷ v ∷ [] })
          ∙ ap (λ xs. record r { parsed_args = xs })
              (append_assoc r.parsed_args (arg ∷ v ∷ []) args))

  Accepts-parse_loop :
      (args : List Text) (r : ParseResult)
      → (parse_loop registry false args r).success ≡ true
      → Accepts registry args
  unfolding parse_loop parse_arg
  Accepts-parse_loop [] r h = done
  Accepts-parse_loop (arg ∷ []) r h = elim (Option-cases (find_argument arg registry)) [
    | inl e ↦ absurd (ground (arith, rw (parse_loop, e) at h))
    | inr (meta, e) ↦ elim (Bool-cases meta.takes_arg) [
      | inl t ↦ absurd (ground (arith, rw (parse_loop, e, t) at h))
      | inr t ↦ flag arg [] e t done
    ]
  ]
  Accepts-parse_loop (arg ∷ v ∷ args) r h = elim (Option-cases (find_argument arg registry)) [
    | inl e ↦ absurd (ground (arith, rw (parse_loop, e) at h))
    | inr (meta, e) ↦ elim (Bool-cases meta.takes_arg) [
      | inl t ↦ valued arg v args e t (Accepts-parse_loop args _ (rw (parse_loop, e, t) at h))
      | inr t ↦
          flag arg (v ∷ args) e t (Accepts-parse_loop (v ∷ args) _ (rw (parse_loop, e, t) at h))
    ]
  ]

-- `parse` outside debug mode succeeds exactly on the command lines of the grammar (registered
-- arguments, each with its value where it takes one), and then it hands all of them on in order,
-- with no warning, no error and nothing unregistered.
pub parse_exact :
    (registry : List ArgumentMetadata) (args : List Text)
    → (Accepts registry args → parse registry false args ≡ accepted args)
      × ((parse registry false args).success ≡ true → Accepts registry args)
unfolding parse
parse_exact registry args = (
  λ a. parse_loop-Accepts registry false a (accepted []),
  λ h. Accepts-parse_loop registry args (accepted []) h,
)

takes_unique :
    (o : Option ArgumentMetadata) {m n : ArgumentMetadata}
    → o ≡ some m
    → o ≡ some n
    → m.takes_arg ≡ n.takes_arg
takes_unique o {m} {n} f g = ap (λ x. x.takes_arg) (some-injective m n (sym f ∙ g))

module _ {registry : List ArgumentMetadata} where
  after_flag :
      {arg : Text} {args : List Text} {m : ArgumentMetadata}
      → find_argument arg registry ≡ some m
      → m.takes_arg ≡ false
      → Accepts registry (arg ∷ args)
      → Accepts registry args
  after_flag f b (flag arg args g c rest) = rest
  after_flag f b (valued arg value args g t rest) =
      absurd (cc (takes_unique (find_argument arg registry) f g, b, t))

  after_valued :
      {arg value : Text} {args : List Text} {m : ArgumentMetadata}
      → find_argument arg registry ≡ some m
      → m.takes_arg ≡ true
      → Accepts registry (arg ∷ value ∷ args)
      → Accepts registry args
  after_valued f t (flag arg args g c rest) =
      absurd (cc (takes_unique (find_argument arg registry) f g, c, t))
  after_valued f t (valued arg value args g u rest) = rest

  -- What follows an accepted line in an accepted line is accepted by itself.
  pub Accepts-suffix :
      (front back : List Text)
      → Accepts registry front
      → Accepts registry (front ++ back)
      → Accepts registry back
  Accepts-suffix _ back done a = a
  Accepts-suffix _ back (flag arg front f b rest) a =
      Accepts-suffix front back rest (after_flag f b a)
  Accepts-suffix _ back (valued arg value front f t rest) a =
      Accepts-suffix front back rest (after_valued f t a)

  pub Accepts-unregistered :
      {name : Text} {rest : List Text}
      → find_argument name registry ≡ none
      → ¬ (Accepts registry (name ∷ rest))
  Accepts-unregistered h (flag arg args g c rest) = cc (h, g)
  Accepts-unregistered h (valued arg value args g t rest) = cc (h, g)
