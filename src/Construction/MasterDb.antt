-- ===== src/Construction/MasterDb.antt =====
-- `MasterDB` of src/construction/MasterDB.{h,cpp} with `DatabaseInfo` of
-- src/construction/DatabaseInfo.h, without what it prints.
pub mod Operations
pub mod Laws
pub mod Engine
mod Tests
pub mod Registry
pub mod Files
pub mod Creation
pub mod Import
pub mod Scan
use akkon.Base.{
  ℕ, ◌-◌, Bool, true, false, ◌&&◌, ◌||◌, not, Option, none, some, List, [], ◌∷◌, ◌++◌, length, take,
  drop, if◌then◌else◌, ltb,
}
use akkon.Base.Text.{Text, codes, text_eq}
use akkon.Base.Decimal.{to_string, decimal_value}
use akkon.Construction.SqlText.{escape_sql_string}
use akkon.Construction.Metrics.{Metrics, int_text}
use akkon.Construction.Sqlite.{Sqlite, column, values}

pub record DatabaseInfo : Type 0 where
  pub uuid : Text
  pub creation_date : Text
  pub file_pos : Text
  pub status : Text

-- The directory, the database in master.db where it opens, whether a path opens, and SQLite.
pub record Env (Db : Type 0) : Type 0 where
  pub db_dir : Text
  pub open_master : Option Db
  pub can_open : Text → Bool
  pub sqlite : Sqlite Db

-- `m_db`, and the files on the disk besides master.db.
pub record MasterDb (Db : Type 0) : Type 0 where
  pub m_db : Option Db
  pub files : Text → Option Db

abbrev pub is_empty : Text → Bool
is_empty [] = true
is_empty (c ∷ cs) = false

abbrev pub databases_sql : Text
databases_sql =
    codes
      "CREATE TABLE IF NOT EXISTS databases (id INTEGER PRIMARY KEY AUTOINCREMENT,uuid TEXT UNIQUE NOT NULL,creation_date TEXT NOT NULL,file_path TEXT NOT NULL,status TEXT DEFAULT 'active');"

abbrev pub metrics_sql : Text
metrics_sql =
    codes
      "CREATE TABLE IF NOT EXISTS metrics (id INTEGER PRIMARY KEY AUTOINCREMENT,timestamp TEXT NOT NULL,ram_allocated INTEGER NOT NULL,ram_runtime INTEGER NOT NULL,ram_request INTEGER NOT NULL,ram_capacity INTEGER NOT NULL,disk_space INTEGER NOT NULL,reliability INTEGER NOT NULL,total_queries INTEGER NOT NULL);"

abbrev pub migration_sql : Text
migration_sql = codes "UPDATE databases SET status='unmapped' WHERE status='external';"

abbrev pub metadata_sql : Text
metadata_sql =
    codes
      "CREATE TABLE IF NOT EXISTS metadata (uuid TEXT PRIMARY KEY, creation_date TEXT, file_path TEXT);"

abbrev pub information_sql : Text
information_sql =
    codes "CREATE TABLE IF NOT EXISTS information (uuid TEXT, identifier TEXT, pwk TEXT);"

abbrev pub status_or_active : Text → Text
status_or_active status = if is_empty status then codes "active" else status

-- The statement of `registerDatabase`: only the path is escaped.
unfoldable pub register_sql : DatabaseInfo → Text
register_sql info =
    codes "INSERT OR IGNORE INTO databases (uuid, creation_date, file_path, status) VALUES ('"
    ++ values info.uuid info.creation_date (escape_sql_string info.file_pos)
        (status_or_active info.status)

-- The statement of `scanAndImportUnmapped`.
unfoldable pub import_sql : DatabaseInfo → Text
import_sql info =
    codes "INSERT INTO databases (uuid, creation_date, file_path, status) VALUES ('"
    ++ values (escape_sql_string info.uuid) (escape_sql_string info.creation_date)
        (escape_sql_string info.file_pos) (codes "unmapped")

-- The row of a new file's own table.
abbrev pub metadata_row : Text → DatabaseInfo → Text → Text
metadata_row verb info path =
    verb
    ++ (codes " INTO metadata VALUES ('"
        ++ (info.uuid
            ++ (codes "', '"
                ++ (info.creation_date
                    ++ (codes "', '" ++ (escape_sql_string path ++ codes "');"))))))

abbrev pub load_sql : Text
load_sql = codes "SELECT id, uuid, creation_date, file_path, status FROM databases ORDER BY id;"

abbrev pub paths_sql : Text
paths_sql = codes "SELECT file_path FROM databases;"

abbrev pub metadata_query : Text
metadata_query = codes "SELECT uuid, creation_date FROM metadata LIMIT 1;"

abbrev pub total_sql : Text
total_sql = codes "SELECT total_queries FROM metrics ORDER BY id DESC LIMIT 1;"

unfoldable pub insert_metrics_sql : Metrics → Text
insert_metrics_sql row =
    codes
      "INSERT INTO metrics (timestamp, ram_allocated, ram_runtime, ram_request, ram_capacity, disk_space, reliability, total_queries) VALUES ('"
    ++ (escape_sql_string row.timestamp
        ++ (codes "', "
            ++ (to_string row.ram_allocated
                ++ (codes ", "
                    ++ (to_string row.ram_runtime
                        ++ (codes ", "
                            ++ (to_string row.ram_request
                                ++ (codes ", "
                                    ++ (to_string row.ram_capacity
                                        ++ (codes ", "
                                            ++ (to_string row.disk_space
                                                ++ (codes ", "
                                                    ++ (int_text row.reliability
                                                        ++ (codes ", "
                                                            ++ (to_string row.total_queries
                                                            ++ codes ");")))))))))))))))

-- A row of the registry; `none` is the exception of a `std::string` made from NULL.
abbrev pub info_of : Option Text → Option Text → Option Text → Option Text → Option DatabaseInfo
info_of (some uuid) (some date) (some path) (some status) =
    some (record { uuid = uuid; creation_date = date; file_pos = path; status = status })
info_of (some uuid) (some date) (some path) none = none
info_of (some uuid) (some date) none status = none
info_of (some uuid) none path status = none
info_of none date path status = none

abbrev pub add_info : Option DatabaseInfo → Option (List DatabaseInfo) → Option (List DatabaseInfo)
add_info none infos = none
add_info (some info) none = none
add_info (some info) (some infos) = some (info ∷ infos)

unfoldable pub infos_of : List (List (Option Text)) → Option (List DatabaseInfo)
infos_of [] = some []
infos_of (row ∷ rows) =
    add_info (info_of (column row 1) (column row 2) (column row 3) (column row 4)) (infos_of rows)

abbrev pub exists_file {ℓ} : {A : Type ℓ} → Option A → Bool
exists_file none = false
exists_file (some db) = true

-- The last component, of which the extension is `.db`, and what is left of it without.
abbrev pub is_db_file : Text → Bool
is_db_file name = ltb 3 (length name) && text_eq (drop (length name - 3) name) (codes ".db")

abbrev pub stem : Text → Text
stem name = take (length name - 3) name

abbrev pub contains_path : List Text → Text → Bool
contains_path [] path = false
contains_path (p ∷ paths) path = text_eq p path || contains_path paths path

-- An entry of the directory, with the text of the time when it was last written.
pub record Entry : Type 0 where
  pub name : Text
  pub is_regular_file : Bool
  pub written : Text
