-- ===== src/Api/Start.antt =====
-- The start of `main` of src/main.cpp, as it is compiled for POSIX, up to the server: the shell, the
-- master database, the data storage with the query engine, and the port. `std::stoi`, SQLite and what is
-- drawn for new databases are parameters.
use akkon.Base.{
  ℕ, ◌-◌, ◌*◌, ◌%◌, ◌^◌, ◌≡◌, ◌≢◌, refl, Bool, true, false, ◌||◌, if_cases, Option, none, some,
  List, [], ◌∷◌, ◌++◌, map, length, if◌then◌else◌, ◌==◌, arith,
}
use akkon.Base.Int.{ℤ, pos, negsuc}
use akkon.Base.Text.{Text, codes, text_eq}
use akkon.Index.QueryEngine.{QueryEngine, make_engine}
use akkon.Memory.Arena.{allocate}
use akkon.Memory.Manager.{RuntimeDomain, runtime, make_manager, with_domain}
use akkon.Db.DataStorage.{DataStorage, initialize, load_all_identifiers}
use akkon.Construction.MasterDb.{DatabaseInfo, Env, MasterDb, Entry}
use akkon.Construction.MasterDb.Operations.{ensure_open, get_last_total_queries, load_existing}
use akkon.Shell.Options.{Outcome, exits, opens, run}
use akkon.Shell.Databases.{Finished, run_databases}
use akkon.Api.App.{App}

-- An argument is there.
abbrev pub has_argument : Text → List Text → Bool
has_argument name [] = false
has_argument name (arg ∷ args) = text_eq arg name || has_argument name args

abbrev pub is_port_name : Text → Bool
is_port_name arg = text_eq arg (codes "--port") || text_eq arg (codes "-p")

abbrev pub or_port : Option ℤ → ℤ → ℤ
or_port none port = port
or_port (some n) port = n

-- `uint16_t port` of the constructor of the server.
abbrev pub narrowed : ℤ → ℕ
narrowed (pos n) = n % 2 ^ 16
narrowed (negsuc n) = (2 ^ 16 - 1 - n % 2 ^ 16) % 2 ^ 16

abbrev pub has_port : List Text → Bool
has_port [] = false
has_port (arg ∷ args) = is_port_name arg || has_port args

-- What the server starts with.
pub record Started (Db : Type 0) : Type 0 where
  pub port : ℕ
  pub queries_lifetime_init : ℕ
  pub app : App Db

-- `main` returns, an exception ends it, or the server starts.
pub data Start (Db : Type 0) : Type 0 where
  ends : ℕ → Start Db
  throws : Start Db
  listens : Started Db → Start Db

or_false : (a b : Bool) → (a || b) ≡ false → (a ≡ false) × (b ≡ false)
or_false a b h = (ground (arith, h), ground (arith, h))

module _ (stoi : Text → Option ℤ) where
  -- The loop over the arguments, with the port so far.
  unfoldable pub port_of : ℤ → List Text → ℤ
  port_of port [] = port
  port_of port (arg ∷ []) = port
  port_of port (arg ∷ value ∷ args) =
      port_of (if is_port_name arg then or_port (stoi value) port else port) (value ∷ args)

  -- Without the names the port stays.
  port_of-none : (port : ℤ) (args : List Text) → has_port args ≡ false → port_of port args ≡ port
  unfolding port_of
  port_of-none port [] h = refl
  port_of-none port (arg ∷ []) h = refl
  port_of-none port (arg ∷ value ∷ args) h =
      let (here, later) = or_false (is_port_name arg) (has_port (value ∷ args)) h in
      rw here (port_of-none port (value ∷ args) later)

  -- The port is the value behind the last `--port` or `-p` where that value is a number.
  pub port_of-append :
      (front rest : List Text) (name value : Text) (n port : ℤ)
      → is_port_name name ≡ true
      → stoi value ≡ some n
      → has_port (value ∷ rest) ≡ false
      → port_of port (front ++ name ∷ value ∷ rest) ≡ n
  unfolding port_of
  port_of-append [] rest name value n port h e none_left =
      rw (h, e) (port_of-none n (value ∷ rest) none_left)
  port_of-append (arg ∷ []) rest name value n port h e none_left =
      rw (h, e) (port_of-none n (value ∷ rest) none_left)
  port_of-append (arg ∷ next ∷ front) rest name value n port h e none_left =
      port_of-append (next ∷ front) rest name value n
        (if is_port_name arg then or_port (stoi next) port else port) h e none_left

-- What is asked of the system at the start: the databases' files, and the addresses of the arenas.
pub record System (Db : Type 0) : Type 0 where
  pub open_db : (Text → Option Db) → Text → Option Db
  pub identifiers : Db → List Text
  pub bases : RuntimeDomain → ℕ
  pub draws : ℕ → Text × Text
  pub entries : List Entry

module _ {Db : Type 0} (env : Env Db) (stoi : Text → Option ℤ) (sys : System Db) where
  abbrev pub start_app : ℕ → DataStorage Db → QueryEngine → App Db
  start_app count storage engine = record {
    query_engine = engine;
    data_storage = storage;
    mem_manager =
        with_domain (λ a. (allocate a (count * (512 * 1024) % 2 ^ 64)).1) (make_manager sys.bases)
          runtime;
    ws_clients = [];
    queries_since_reboot = 0;
    effects = [];
  }

  abbrev pub with_engine : List Text → ℕ → ℕ → DataStorage Db → Option QueryEngine → Start Db
  with_engine args total count storage none = throws
  with_engine args total count storage (some engine) = listens (record {
    port = narrowed (port_of stoi (pos 2409) args);
    queries_lifetime_init = total;
    app = start_app count storage engine;
  })

  abbrev pub with_existing : List Text → ℕ → Option (List DatabaseInfo) × MasterDb Db → Start Db
  with_existing args total (none, m) = throws
  with_existing args total (some existing, m) =
      let storage =
        initialize (sys.open_db m.files) (map (λ info. info.file_pos) existing)
          (record { data_dbs = []; round_robin_idx = 0 }) in
      with_engine args total (length existing) storage
        (load_all_identifiers sys.identifiers storage (make_engine 1000000))

  -- From the second `MasterDB` on; the shell has closed the first.
  abbrev pub serve : List Text → MasterDb Db → Start Db
  serve args m =
      let reopened = record env { open_master = m.m_db } in
      let total =
        get_last_total_queries reopened (ensure_open reopened (record m { m_db = none })) in
      with_existing args total.0 (load_existing reopened total.1)

  abbrev pub unless_help : List Text → MasterDb Db → Start Db
  unless_help args m = if has_argument (codes "--help") args then ends 0 else serve args m

  abbrev pub after_databases : List Text → Option (Finished Db) → Start Db
  after_databases args none = throws
  after_databases args (some finished) =
      if finished.exit_code == 0 then unless_help args finished.master else ends finished.exit_code

  abbrev pub after_shell : List Text → (Text → Option Db) → Outcome → Start Db
  after_shell args files (exits code) =
      if code == 0
      then unless_help args (record { m_db = env.open_master; files = files })
      else ends code
  after_shell args files (opens options) =
      after_databases args
        (run_databases env sys.draws options sys.entries (record { m_db = none; files = files }))

  -- The arguments without the name of the program, and the files on the disk.
  unfoldable pub start : List Text → (Text → Option Db) → Start Db
  start args files = after_shell args files (run stoi [] false args)

  unless_help-ends :
      (args : List Text) (m : MasterDb Db)
      → has_argument (codes "--help") args ≡ true
      → unless_help args m ≡ ends 0
  unless_help-ends args m h = rw h refl

  -- With `--help` among the arguments, wherever it stands and whatever the shell makes of it, the
  -- server does not start.
  pub start_help :
      (args : List Text) (files : Text → Option Db) (started : Started Db)
      → has_argument (codes "--help") args ≡ true
      → start args files ≢ listens started
  unfolding start
  start_help args files started h = by_shell (run stoi [] false args)
    where
      Refuses : Start Db → Type 0
      Refuses result = result ≢ listens started

      no_server : (m : MasterDb Db) → Refuses (unless_help args m)
      no_server m e = absurd (ground (arith, e, unless_help-ends args m h))

      by_databases : (finished : Option (Finished Db)) → Refuses (after_databases args finished)
      by_databases none = λ e. absurd (ground (arith, e))
      by_databases (some finished) =
          if_cases Refuses (finished.exit_code == 0) _ _ (λ _. no_server finished.master)
            (λ _ e. absurd (ground (arith, e)))

      by_shell : (outcome : Outcome) → Refuses (after_shell args files outcome)
      by_shell (exits code) =
          if_cases Refuses (code == 0) _ _
            (λ _. no_server (record { m_db = env.open_master; files = files }))
            (λ _ e. absurd (ground (arith, e)))
      by_shell (opens options) =
          by_databases (
            run_databases env sys.draws options sys.entries (record { m_db = none; files = files }))
