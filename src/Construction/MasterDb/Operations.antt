-- ===== src/Construction/MasterDb/Operations.antt =====
-- The operations of `MasterDB` of src/construction/MasterDB.cpp.
use akkon.Base.{
  ℕ, Bool, true, false, ◌&&◌, not, Option, none, some, List, [], ◌∷◌, ◌++◌, if◌then◌else◌,
}
use akkon.Base.Text.{Text, codes, text_eq}
use akkon.Db.DataStorage.{c_str}
use akkon.Base.Decimal.{decimal_value}
use akkon.Construction.Metrics.{Metrics}
use akkon.Construction.Sqlite.{column}
use akkon.Construction.MasterDb.{
  DatabaseInfo, Env, MasterDb, Entry, is_empty, databases_sql, metrics_sql, migration_sql,
  metadata_sql, information_sql, register_sql, import_sql, metadata_row, load_sql, paths_sql,
  metadata_query, total_sql, insert_metrics_sql, infos_of, exists_file, is_db_file, stem,
  contains_path,
}

module _ {Db : Type 0} (env : Env Db) where
  -- A statement is passed as `c_str()`, which ends at its first zero byte.
  abbrev run_sql : Text → Db → Bool × Db
  run_sql sql db = env.sqlite.exec db (c_str sql)

  abbrev pub path_of : Text → Text
  path_of name = env.db_dir ++ (codes "/" ++ name)

  abbrev pub uuid_path : DatabaseInfo → Text
  uuid_path info = path_of (info.uuid ++ codes ".db")

  -- After `sqlite3_open` of master.db: `none` is a database that is closed again. The last statement
  -- may fail.
  abbrev pub after_metrics : Bool × Db → Option Db
  after_metrics (false, db) = none
  after_metrics (true, db) = some (run_sql migration_sql db).1

  abbrev pub after_databases : Bool × Db → Option Db
  after_databases (false, db) = none
  after_databases (true, db) = after_metrics (run_sql metrics_sql db)

  pub prepare_master : Db → Option Db
  prepare_master db =
      let journal = (run_sql (codes "PRAGMA journal_mode=WAL;") db).1 in
      let synchronous = (run_sql (codes "PRAGMA synchronous=NORMAL;") journal).1 in
      after_databases (run_sql databases_sql synchronous)

  abbrev pub opened : Option Db → Option Db
  opened none = none
  opened (some db) = prepare_master db

  abbrev pub ensure_from : Option Db → MasterDb Db → MasterDb Db
  ensure_from none m = record m { m_db = opened env.open_master }
  ensure_from (some db) m = m

  -- `ensureOpen`: `m_db` afterwards, which is null where it returns false.
  unfoldable pub ensure_open : MasterDb Db → MasterDb Db
  ensure_open m = ensure_from m.m_db m

  abbrev pub exec_on : Text → Option Db → MasterDb Db → Bool × MasterDb Db
  exec_on sql none m = (false, m)
  exec_on sql (some db) m =
      let result = run_sql sql db in (result.0, record m { m_db = some result.1 })

  abbrev pub exec_master : Text → MasterDb Db → Bool × MasterDb Db
  exec_master sql m = exec_on sql m.m_db m

  unfoldable pub register_database : DatabaseInfo → MasterDb Db → Bool × MasterDb Db
  register_database info m = exec_master (register_sql info) (ensure_open m)

  unfoldable pub insert_metrics : Metrics → MasterDb Db → Bool × MasterDb Db
  insert_metrics row m = exec_master (insert_metrics_sql row) (ensure_open m)

  -- The rows of a SELECT; there are none where it cannot be prepared.
  abbrev rows_or_none : Option (List (List (Option Text))) → List (List (Option Text))
  rows_or_none none = []
  rows_or_none (some rows) = rows

  abbrev pub rows_of : Text → Option Db → List (List (Option Text))
  rows_of sql none = []
  rows_of sql (some db) = rows_or_none (env.sqlite.select db sql)

  -- `loadExisting`, with the map as the list of its values: the keys are 1, 2 and so on.
  unfoldable pub load_existing : MasterDb Db → Option (List DatabaseInfo) × MasterDb Db
  load_existing m = let o = ensure_open m in (infos_of (rows_of load_sql o.m_db), o)

  abbrev first_total : List (List (Option Text)) → ℕ
  first_total [] = 0
  first_total (row ∷ rows) = elim (column row 0) [ none ↦ 0 | some n ↦ decimal_value 0 n ]

  unfoldable pub get_last_total_queries : MasterDb Db → ℕ × MasterDb Db
  get_last_total_queries m = let o = ensure_open m in (first_total (rows_of total_sql o.m_db), o)

  unfoldable pub get_missing : List DatabaseInfo → MasterDb Db → List DatabaseInfo
  get_missing [] m = []
  get_missing (info ∷ existing) m =
      let rest = get_missing existing m in
      if exists_file (m.files info.file_pos) then rest else info ∷ rest

  abbrev pub or_new : Option Db → Db
  or_new none = env.sqlite.new_db
  or_new (some db) = db

  abbrev pub set_file : Text → Db → (Text → Option Db) → Text → Option Db
  set_file path db files p = if text_eq path p then some db else files p

  -- The tables of a database file and its own row; statements that fail are passed over.
  abbrev pub fill : Text → DatabaseInfo → Text → Db → Db
  fill verb info path db =
      (run_sql (metadata_row verb info path)
        (run_sql information_sql (run_sql metadata_sql db).1).1).1

  abbrev pub write_file : Text → DatabaseInfo → Text → MasterDb Db → MasterDb Db
  write_file verb info path m = record m {
    files = set_file path (fill verb info path (or_new (m.files path))) m.files;
  }

  unfoldable pub recreate_missing : List DatabaseInfo → MasterDb Db → MasterDb Db
  recreate_missing [] m = m
  recreate_missing (info ∷ missing) m = recreate_missing missing (
      if env.can_open (uuid_path info)
      then write_file (codes "INSERT OR REPLACE") info (uuid_path info) m
      else m)

  -- `createNewDatabase`, with the identifier and the time that it draws.
  abbrev pub new_info : Text → Text → DatabaseInfo
  new_info uuid date = record { uuid = uuid; creation_date = date; file_pos = []; status = [] }

  abbrev pub created_info : Text → Text → DatabaseInfo
  created_info uuid date = record {
    uuid = uuid;
    creation_date = date;
    file_pos = uuid_path (new_info uuid date);
    status = codes "active";
  }

  unfoldable pub create_new_database : Text → Text → MasterDb Db → DatabaseInfo × MasterDb Db
  create_new_database uuid date m =
      let info = new_info uuid date in
      if env.can_open (uuid_path info)
      then (
        created_info uuid date,
        (register_database (created_info uuid date)
            (write_file (codes "INSERT") info (uuid_path info) m)).1,
      )
      else (record info { file_pos = codes "ERROR" }, m)

  abbrev pub or_else_text : Text → Text → Text
  or_else_text text other = if is_empty text then other else text

  abbrev pub text_or_empty : Option Text → Text
  text_or_empty none = []
  text_or_empty (some text) = text

  -- The first row of the file's own table, where the file opens.
  abbrev pub metadata_of : List (List (Option Text)) → Text × Text
  metadata_of [] = ([], [])
  metadata_of (row ∷ rows) = (text_or_empty (column row 0), text_or_empty (column row 1))

  abbrev pub metadata_in : Text → MasterDb Db → Text × Text
  metadata_in path m =
      if env.can_open path
      then metadata_of (rows_of metadata_query (some (or_new (m.files path))))
      else ([], [])

  abbrev pub import_info : Entry → Text × Text → DatabaseInfo
  import_info entry found = record {
    uuid = or_else_text found.0 (stem entry.name);
    creation_date = or_else_text found.1 entry.written;
    file_pos = path_of entry.name;
    status = [];
  }

  -- The three `continue`s before a file is looked into.
  abbrev pub is_candidate : List Text → Entry → Bool
  is_candidate mapped_paths entry =
      (entry.is_regular_file && not (text_eq entry.name (codes "master.db")))
      && (is_db_file entry.name && not (contains_path mapped_paths (path_of entry.name)))

  unfoldable pub import_entries : List Text → List Entry → MasterDb Db → MasterDb Db
  import_entries mapped_paths [] m = m
  import_entries mapped_paths (entry ∷ entries) m = import_entries mapped_paths entries (
      if is_candidate mapped_paths entry
      then (exec_master (import_sql (import_info entry (metadata_in (path_of entry.name) m))) m).1
      else m)

  abbrev pub first_texts : List (List (Option Text)) → List Text
  first_texts [] = []
  first_texts (row ∷ rows) = elim (column row 0) [
    | none ↦ first_texts rows
    | some text ↦ text ∷ first_texts rows
  ]

  -- `scanAndImportUnmapped`, with the entries of the directory.
  abbrev pub scan_open : List Entry → Option Db → MasterDb Db → MasterDb Db
  scan_open entries none m = m
  scan_open entries (some db) m =
      import_entries (first_texts (rows_of paths_sql (some db))) entries m

  unfoldable pub scan_and_import_unmapped : List Entry → MasterDb Db → MasterDb Db
  scan_and_import_unmapped entries m = let o = ensure_open m in scan_open entries o.m_db o
