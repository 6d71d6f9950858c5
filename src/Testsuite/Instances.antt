-- ===== src/Testsuite/Instances.antt =====
-- The operations of `TestFramework` of src/testsuite/TestFramework.cpp on the instances that it tracks,
-- without what they print.
use akkon.Base.{
  ℕ, zero, suc, Bool, true, false, Option, none, some, List, [], ◌∷◌, ◌++◌, if◌then◌else◌,
}
use akkon.Base.Int.{pos, negsuc}
use akkon.Base.Text.{Text, codes}
use akkon.Base.Decimal.{to_string}
use akkon.Base.TextMap.{lookup, insert}
use akkon.Construction.MasterDb.{is_empty}
use akkon.Crypto.Hex.{hex_digit}
use akkon.Testsuite.{InstanceInfo, Os, Framework, running}

abbrev pub empty_info : InstanceInfo
empty_info = record {
  pid = negsuc 0;
  tracker_id = [];
  log_file = [];
  start_time = 0;
  status = [];
  binary_path = [];
  args = [];
}

abbrev info_or_empty : Option InstanceInfo → InstanceInfo
info_or_empty none = empty_info
info_or_empty (some info) = info

module _ {W : Type 0} where
  -- `m_instances[key] = info`.
  abbrev pub track : Text → InstanceInfo → Framework W → Framework W
  track key info f = record f { m_instances = insert key info f.m_instances }

  abbrev pub set_status : Text → Text → InstanceInfo → Framework W → Framework W
  set_status status key info f = track key (record info { status = status }) f

  abbrev pub in_system : W → Framework W → Framework W
  in_system w f = record f { system = w }

  unfoldable pub get_tracking : Text → Framework W → InstanceInfo
  get_tracking key f = info_or_empty (lookup key f.m_instances)

module _ {W : Type 0} (os : Os W) where
  -- `n` draws from 0 to 15.
  unfoldable pub draws : ℕ → W → Text × W
  draws zero w = ([], w)
  draws (suc n) w =
      let drawn = os.draw w in let rest = draws n drawn.1 in (hex_digit drawn.0 ∷ rest.0, rest.1)

  abbrev pub generate_tracker_id : W → Text × W
  generate_tracker_id w = draws 8 w

  abbrev first_existing : W → List Text → Text
  first_existing w [] = codes "Akkon"
  first_existing w (path ∷ paths) =
      let rest = first_existing w paths in if os.exists w path then os.absolute w path else rest

  abbrev possible_paths : List Text
  possible_paths =
      codes "./Akkon"
      ∷ codes "./cmake-build-debug/Akkon"
      ∷ codes "../cmake-build-debug/Akkon"
      ∷ codes "../../cmake-build-debug/Akkon"
      ∷ codes "../../../cmake-build-debug/Akkon"
      ∷ []

  abbrev binary_from : W → Option Text → Text
  binary_from w none = first_existing w possible_paths
  binary_from w (some path) = if os.exists w path then path else first_existing w possible_paths

  unfoldable pub get_binary_path : W → Text
  get_binary_path w = binary_from w (os.getenv w (codes "AKKON_BINARY"))

  abbrev log_front : Text → Text
  log_front key = codes "[" ++ (key ++ codes "] ")

  abbrev arg_lines : List Text → Text
  arg_lines [] = []
  arg_lines (arg ∷ args) = codes "  arg: " ++ (arg ++ (codes "\n" ++ arg_lines args))

  abbrev pid_line : Text → ℕ → Text
  pid_line key pid =
      log_front key ++ (codes "Process started with PID " ++ (to_string pid ++ codes "\n"))

  -- After `fork`, in the parent; the child runs the binary with the arguments and writes to the log.
  abbrev pub after_spawn : Text → InstanceInfo → Option ℕ × W → Framework W → Bool × Framework W
  after_spawn key info (none, w) f = (false, record f { system = w })
  after_spawn key info (some pid, w) f = (
    true,
    track key (record info { pid = pos pid })
        (record f { system = os.append w info.log_file (pid_line key pid) }),
  )

  abbrev pub after_open :
      Text → InstanceInfo → List Text → Option W → Framework W → Bool × Framework W
  after_open key info args none f = (false, f)
  after_open key info args (some w) f =
      if os.exists w info.binary_path
      then after_spawn key info
          (os.spawn
            (os.append w info.log_file (
              log_front key
              ++ (codes "Starting process: "
                  ++ (info.binary_path ++ (codes "\n" ++ arg_lines args)))))
            info.binary_path (info.binary_path ∷ args) info.log_file)
          f
      else (
        false,
        record f {
          system =
              os.append w info.log_file
                (codes "[ERROR] Binary not found: " ++ (info.binary_path ++ codes "\n"));
        },
      )

  abbrev pub start_tracked :
      Text → List Text → Option InstanceInfo → Framework W → Bool × Framework W
  start_tracked key args none f = (false, f)
  start_tracked key args (some info) f =
      after_open key info args (os.open_append f.system info.log_file) f

  unfoldable pub start_process : Text → List Text → Framework W → Bool × Framework W
  start_process key args f = start_tracked key args (lookup key f.m_instances) f

  -- The end of `createInstance`, with its local `info`.
  abbrev pub after_start : Text → InstanceInfo → Bool × Framework W → Text × Framework W
  after_start key info (false, f) = ([], set_status (codes "error") key info f)
  after_start key info (true, f) = (key, set_status running key (get_tracking key f) f)

  abbrev pub instance_info : Text → List Text → Text → W → InstanceInfo
  instance_info key args logs_dir w = record empty_info {
    tracker_id = key;
    log_file = os.join logs_dir (key ++ codes ".log");
    start_time = os.system_now w;
    status = codes "starting";
    binary_path = get_binary_path w;
    args = args;
  }

  abbrev pub start_new : Text → List Text → InstanceInfo → Framework W → Text × Framework W
  start_new key args info f = after_start key info (start_process key args (track key info f))

  abbrev pub in_directory : Text → List Text → Text → Option W → Framework W → Text × Framework W
  in_directory key args logs_dir none f = ([], f)
  in_directory key args logs_dir (some w) f =
      start_new key args (instance_info key args logs_dir w) (record f { system = w })

  unfoldable pub create_instance : List Text → Text → Framework W → Text × Framework W
  create_instance args log_dir f =
      let drawn = generate_tracker_id f.system in
      let logs_dir = if is_empty log_dir then codes "test_logs" else log_dir in
      in_directory drawn.0 args logs_dir (os.create_directories drawn.1 logs_dir)
        (record f { system = drawn.1 })
