-- ===== src/Testsuite/Runtime.antt =====
-- `runtime` of src/testsuite/TestFramework.cpp and the environment that it prepares, without what it
-- prints.
use akkon.Base.{
  ℕ, Bool, true, false, ◌&&◌, ◌||◌, not, Option, none, some, List, [], ◌∷◌, if◌then◌else◌,
}
use akkon.Base.Int.{ℤ, pos, negsuc}
use akkon.Base.Text.{Text, codes, text_eq}
use akkon.Base.Find.{find}
use akkon.Base.TextMap.{lookup, insert}
use akkon.Construction.MasterDb.{is_empty}
use akkon.Testsuite.{Os, Framework}
use akkon.Testsuite.Instances.{get_binary_path, create_instance}
use akkon.Testsuite.Status.{get_exit_code, wait_for_instance, kill_instance, stop_instance}

abbrev pub is_found : Option ℕ → Bool
is_found none = false
is_found (some at) = true

abbrev pub contains : Text → Text → Bool
contains text needle = is_found (find text needle 0)

abbrev pub has_slashed_name : Text → Bool
has_slashed_name line =
    (contains line (codes "/docker") || contains line (codes "/podman"))
    || (contains line (codes "/lxc") || contains line (codes "/kubepods"))

abbrev pub has_name : Text → Bool
has_name line =
    (contains line (codes "docker") || contains line (codes "podman"))
    || (contains line (codes "lxc") || contains line (codes "kubepods"))

abbrev pub any_line : (Text → Bool) → Option (List Text) → Bool
any_line test none = false
any_line test (some []) = false
any_line test (some (line ∷ lines)) = test line || any_line test (some lines)

abbrev is_set : Option Text → Bool
is_set none = false
is_set (some value) = true

abbrev pub set_default : Text → Text → List (Text × Text) → List (Text × Text)
set_default key value env = if is_set (lookup key env) then env else insert key value env

abbrev pub set_engine : Text → List (Text × Text) → List (Text × Text)
set_engine engine env =
    if not (is_empty engine) && not (text_eq engine (codes "none"))
    then insert (codes "AKKON_CONTAINER_ENGINE") engine env
    else env

module _ {W : Type 0} (os : Os W) where
  abbrev pub cgroup : W → Option (List Text)
  cgroup w = os.read_lines w (codes "/proc/self/cgroup")

  unfoldable pub is_containerized : W → Bool
  is_containerized w =
      if os.exists w (codes "/.dockerenv")
      then true
      else if any_line has_slashed_name (cgroup w)
      then true
      else any_line has_name (cgroup w)

  unfoldable pub detect_container_engine : W → Text
  detect_container_engine w =
      if os.exists w (codes "/var/run/docker.sock") || is_set (os.getenv w (codes "DOCKER_HOST"))
      then codes "docker"
      else if os.exists w (codes "/var/run/podman/podman.sock")
          || is_set (os.getenv w (codes "PODMAN_HOST"))
      then codes "podman"
      else if os.exists w (codes "/var/run/containerd/containerd.sock")
      then codes "containerd"
      else if os.exists w (codes "/var/lib/lxc") || os.exists w (codes "/var/snap/lxd/common/lxd")
      then codes "lxc"
      else codes "none"

  unfoldable pub setup_environment : W → List (Text × Text) → List (Text × Text)
  setup_environment w env = set_default (codes "AKKON_CWD") (os.current_path w) (
      insert (codes "AKKON_TEST_MODE") (codes "1") (
        set_default (codes "AKKON_BINARY") (get_binary_path os w) (
          if is_containerized w
          then set_engine (detect_container_engine w)
              (insert (codes "AKKON_IN_CONTAINER") (codes "1") env)
          else env)))

  abbrev pub set_all : List (Text × Text) → W → W
  set_all [] w = w
  set_all (entry ∷ env) w = set_all env (os.setenv w entry.0 entry.1)

  -- After `waitForInstance`.
  abbrev pub after_waiting : Text → Option (Bool × Framework W) → Option (ℤ × Framework W)
  after_waiting key none = none
  after_waiting key (some (false, f)) = some (negsuc 0, (kill_instance os key f).1)
  after_waiting key (some (true, f)) =
      let ended = get_exit_code os key f in some (ended.0, (stop_instance os key ended.1).1)

  -- With the identifier that `createInstance` returns.
  abbrev pub run_created : ℕ → Text × Framework W → Option (ℤ × Framework W)
  run_created rounds (key, f) =
      if is_empty key
      then some (negsuc 0, f)
      else after_waiting key (wait_for_instance os rounds key (pos 300000) f)

  -- The rounds bound the wait of `waitForInstance`; `none` is out of rounds.
  unfoldable pub runtime :
      ℕ → List Text → List (Text × Text) → Framework W → Option (ℤ × Framework W)
  runtime rounds args env f = run_created rounds (
      create_instance os args (codes "test_logs")
        (record f { system = set_all (setup_environment f.system env) f.system }))
