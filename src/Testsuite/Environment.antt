-- ===== src/Testsuite/Environment.antt =====
-- The environment that `runtime` prepares: what tells a container, and what of the caller's is kept.
use akkon.Base.{
  ℕ, ◌+◌, ◌≡◌, refl, ap, ◌∙◌, Bool, true, false, ◌||◌, inl, inr, if_cases, Option-cases, Option,
  none, some, List, [], ◌∷◌, drop, if◌then◌else◌, arith,
}
use akkon.Base.Text.{Text, codes, text_eq, starts_with}
use akkon.Base.Find.{find, find_from}
use akkon.Base.TextMap.{lookup, insert, lookup-insert, lookup-insert_ne}
use akkon.Testsuite.{Os}
use akkon.Testsuite.Instances.{get_binary_path}
use akkon.Testsuite.Runtime.{
  is_found, contains, has_slashed_name, has_name, any_line, cgroup, is_containerized,
  detect_container_engine, set_default, set_engine, setup_environment,
}

-- A text that begins a text is found there.
find_from-starts_with :
    (needle text : Text) (at : ℕ)
    → starts_with text needle ≡ true
    → is_found (find_from needle at text) ≡ true
unfolding find_from
find_from-starts_with needle [] at h = rw h refl
find_from-starts_with needle (c ∷ text) at h = ground (arith, h)

-- What is found with a first character is found without it.
find_from-tail :
    (c : ℕ) (needle text : Text) (at later : ℕ)
    → is_found (find_from (c ∷ needle) at text) ≡ true
    → is_found (find_from needle later text) ≡ true
unfolding find_from
find_from-tail c needle [] at later h = absurd (ground (arith, h))
find_from-tail c needle (d ∷ text) at later h = ground (
  arith,
  h,
  find_from-starts_with needle text (later + 1),
  find_from-tail c needle text (at + 1) (later + 1),
)

contains-tail :
    (c : ℕ) (needle line : Text) → contains line (c ∷ needle) ≡ true → contains line needle ≡ true
unfolding find
contains-tail c needle line h = ground (arith, h, find_from-tail c needle (drop 0 line) 0 0)

has_slashed_name-has_name : (line : Text) → has_slashed_name line ≡ true → has_name line ≡ true
has_slashed_name-has_name line h =
    by_names (contains line (codes "/docker")) (contains line (codes "/podman"))
      (contains line (codes "/lxc")) (contains line (codes "/kubepods"))
      (contains-tail 47 (codes "docker") line) (contains-tail 47 (codes "podman") line)
      (contains-tail 47 (codes "lxc") line) (contains-tail 47 (codes "kubepods") line) h
  where
    by_names :
        {x y z w : Bool} (a b c d : Bool)
        → (a ≡ true → x ≡ true)
        → (b ≡ true → y ≡ true)
        → (c ≡ true → z ≡ true)
        → (d ≡ true → w ≡ true)
        → ((a || b) || (c || d)) ≡ true
        → ((x || y) || (z || w)) ≡ true
    by_names a b c d p q r s e = ground (arith, p, q, r, s, e)

any_line-has_slashed_name :
    (lines : Option (List Text))
    → any_line has_slashed_name lines ≡ true
    → any_line has_name lines ≡ true
any_line-has_slashed_name none h = h
any_line-has_slashed_name (some []) h = h
any_line-has_slashed_name (some (line ∷ lines)) h =
    ground (arith, h, has_slashed_name-has_name line, any_line-has_slashed_name (some lines))

-- What a map gives for a key, or else the default.
abbrev pub value_or : Option Text → Text → Option Text
value_or none default = some default
value_or (some value) default = some value

lookup-set_default :
    (key value : Text) (env : List (Text × Text))
    → lookup key (set_default key value env) ≡ value_or (lookup key env) value
lookup-set_default key value env = elim (Option-cases (lookup key env)) [
  | inl unset ↦ rw unset (lookup-insert key value env)
  | inr (given, e) ↦ rw e e
]

lookup-set_default_ne :
    (name key value : Text) (env : List (Text × Text))
    → text_eq name key ≡ false
    → lookup name (set_default key value env) ≡ lookup name env
lookup-set_default_ne name key value env h =
    if_cases (λ m. lookup name m ≡ lookup name env) _ env (insert key value env) (λ _. refl)
      (λ _. lookup-insert_ne name key value env h)

abbrev binary : Text
binary = codes "AKKON_BINARY"

abbrev directory : Text
directory = codes "AKKON_CWD"

abbrev mode : Text
mode = codes "AKKON_TEST_MODE"

abbrev one : Text
one = codes "1"

module _ {W : Type 0} (os : Os W) where
  -- `isContainerized` is true exactly if there is `/.dockerenv` or a line of `/proc/self/cgroup` has one
  -- of the four names, with a slash before it or without.
  pub is_containerized_lem :
      (w : W)
      → is_containerized os w
        ≡ (os.exists w (codes "/.dockerenv") || any_line has_name (cgroup os w))
  unfolding is_containerized
  is_containerized_lem w = ground (arith, any_line-has_slashed_name (cgroup os w))

  abbrev contained : W → List (Text × Text) → List (Text × Text)
  contained w env =
      if is_containerized os w
      then set_engine (detect_container_engine os w) (insert (codes "AKKON_IN_CONTAINER") one env)
      else env

  abbrev with_binary : W → List (Text × Text) → List (Text × Text)
  with_binary w env = set_default binary (get_binary_path os w) (contained w env)

  abbrev with_mode : W → List (Text × Text) → List (Text × Text)
  with_mode w env = insert mode one (with_binary w env)

  lookup-contained :
      (w : W) (env : List (Text × Text)) (name : Text)
      → text_eq name (codes "AKKON_IN_CONTAINER") ≡ false
      → text_eq name (codes "AKKON_CONTAINER_ENGINE") ≡ false
      → lookup name (contained w env) ≡ lookup name env
  lookup-contained w env name c e =
      if_cases Same (is_containerized os w) _ env
        (λ _.
          if_cases Same _
            (insert (codes "AKKON_CONTAINER_ENGINE") (detect_container_engine os w) marked) marked
            (λ _.
              lookup-insert_ne name (codes "AKKON_CONTAINER_ENGINE") (detect_container_engine os w)
                marked e
              ∙ lookup-insert_ne name (codes "AKKON_IN_CONTAINER") one env c)
            (λ _. lookup-insert_ne name (codes "AKKON_IN_CONTAINER") one env c))
        (λ _. refl)
    where
      Same : List (Text × Text) → Type 0
      Same m = lookup name m ≡ lookup name env

      marked : List (Text × Text)
      marked = insert (codes "AKKON_IN_CONTAINER") one env

  -- `setupEnvironment` keeps the binary and the directory that the caller gives, and else sets those
  -- that it finds; it marks the test mode; and of all other names but the two of the container each
  -- is as the caller gave it.
  pub setup_environment_lem :
      (w : W) (env : List (Text × Text))
      → (lookup (codes "AKKON_BINARY") (setup_environment os w env)
          ≡ value_or (lookup (codes "AKKON_BINARY") env) (get_binary_path os w))
        × (lookup (codes "AKKON_CWD") (setup_environment os w env)
            ≡ value_or (lookup (codes "AKKON_CWD") env) (os.current_path w))
        × (lookup (codes "AKKON_TEST_MODE") (setup_environment os w env) ≡ some (codes "1"))
        × ((name : Text)
            → text_eq name (codes "AKKON_BINARY") ≡ false
            → text_eq name (codes "AKKON_CWD") ≡ false
            → text_eq name (codes "AKKON_TEST_MODE") ≡ false
            → text_eq name (codes "AKKON_IN_CONTAINER") ≡ false
            → text_eq name (codes "AKKON_CONTAINER_ENGINE") ≡ false
            → lookup name (setup_environment os w env) ≡ lookup name env)
  unfolding setup_environment
  setup_environment_lem w env = (
    lookup-set_default_ne binary directory (os.current_path w) (with_mode w env) refl
        ∙ lookup-insert_ne binary mode one (with_binary w env) refl
        ∙ lookup-set_default binary (get_binary_path os w) (contained w env)
        ∙ ap (λ o. value_or o (get_binary_path os w)) (lookup-contained w env binary refl refl),
    lookup-set_default directory (os.current_path w) (with_mode w env)
        ∙ ap (λ o. value_or o (os.current_path w))
            (lookup-insert_ne directory mode one (with_binary w env) refl
              ∙ lookup-set_default_ne directory binary (get_binary_path os w) (contained w env) refl
              ∙ lookup-contained w env directory refl refl),
    lookup-set_default_ne mode directory (os.current_path w) (with_mode w env) refl
        ∙ lookup-insert mode one (with_binary w env),
    λ name b d m c e.
        lookup-set_default_ne name directory (os.current_path w) (with_mode w env) d
        ∙ lookup-insert_ne name mode one (with_binary w env) m
        ∙ lookup-set_default_ne name binary (get_binary_path os w) (contained w env) b
        ∙ lookup-contained w env name c e,
  )
