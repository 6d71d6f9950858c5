-- ===== src/Construction/MasterDb/Registry.antt =====
-- The registry: what is registered is loaded again, with its text unharmed.
use akkon.Base.{
  ap, ◌∙◌, ℕ, ◌≡◌, refl, true, false, Option, some, List, [], ◌∷◌, ◌++◌, map, map-append,
}
use akkon.Base.Text.{Text}
use akkon.Construction.SqlText.{escape_sql_string}
use akkon.Construction.MasterDb.{
  DatabaseInfo, Env, MasterDb, status_or_active, register_sql, contains_path,
}
use akkon.Construction.MasterDb.Operations.{
  ensure_open, exec_master, register_database, load_existing,
}
use akkon.Construction.MasterDb.Laws.{
  Row, row_info, uuids, Behaves, IsPlain, IsPlain-IsLiteral, escape_sql_string-IsLiteral, IsText,
  c_str-IsText, IsText-escape_sql_string, IsText-values, register_front, infos_of-load_columns,
}

-- An open `MasterDB`, its database and the files.
abbrev pub at : {Db : Type 0} → Db → (Text → Option Db) → MasterDb Db
at db files = record { m_db = some db; files = files }

-- The row that an information becomes.
abbrev pub row_of : ℕ → DatabaseInfo → Row
row_of id info = record {
  id = id;
  uuid = info.uuid;
  creation_date = info.creation_date;
  file_path = info.file_pos;
  status = status_or_active info.status;
}

-- An information of texts without zero bytes, whose uuid, date and status have no quote, and whose
-- uuid is new.
pub record IsNew (info : DatabaseInfo) (known : List Text) : Type 0 where
  pub uuid_plain : IsPlain info.uuid
  pub date_plain : IsPlain info.creation_date
  pub status_plain : IsPlain (status_or_active info.status)
  pub uuid_text : IsText info.uuid
  pub date_text : IsText info.creation_date
  pub path_text : IsText info.file_pos
  pub status_text : IsText (status_or_active info.status)
  pub fresh : contains_path known info.uuid ≡ false

-- A statement without zero bytes reaches SQLite as it stands.
pub exec_master-IsText :
    {Db : Type 0} (env : Env Db) (sql : Text) (db : Db) (files : Text → Option Db)
    → IsText sql
    → exec_master env sql (at db files)
      ≡ ((env.sqlite.exec db sql).0, at (env.sqlite.exec db sql).1 files)
exec_master-IsText env sql db files h =
    ap (λ t. ((env.sqlite.exec db t).0, at (env.sqlite.exec db t).1 files)) (c_str-IsText sql h)

module _ {Db : Type 0} (env : Env Db) (HasTable : Db → Type 0) (table : Db → List Row)
    (next_id : Db → ℕ) (laws : Behaves env.sqlite HasTable table next_id) where
  pub load_existing_lem :
      (db : Db) (files : Text → Option Db)
      → HasTable db
      → load_existing env (at db files) ≡ (some (map row_info (table db)), at db files)
  unfolding load_existing ensure_open
  load_existing_lem db files has = rw (laws.loads db has, infos_of-load_columns (table db)) refl

  register_sql-IsText :
      (info : DatabaseInfo) (known : List Text) → IsNew info known → IsText (register_sql info)
  unfolding register_sql
  register_sql-IsText info known new =
      IsText-values register_front info.uuid info.creation_date (escape_sql_string info.file_pos)
        (status_or_active info.status) refl new.uuid_text new.date_text
        (IsText-escape_sql_string info.file_pos new.path_text) new.status_text

  pub register_database_lem :
      (info : DatabaseInfo) (db : Db) (files : Text → Option Db)
      → HasTable db
      → IsNew info (uuids (table db))
      → (db' : Db) × (register_database env info (at db files) ≡ (true, at db' files))
        × HasTable db'
        × (table db' ≡ table db ++ row_of (next_id db) info ∷ [])
  unfolding register_database register_sql ensure_open
  register_database_lem info db files has new =
      let (db', done, has', grown) =
        laws.registers db info.uuid info.creation_date (escape_sql_string info.file_pos)
          (status_or_active info.status) (row_of (next_id db) info) has
          (register_sql-IsText info (uuids (table db)) new)
          (IsPlain-IsLiteral info.uuid new.uuid_plain)
          (IsPlain-IsLiteral info.creation_date new.date_plain)
          (escape_sql_string-IsLiteral info.file_pos)
          (IsPlain-IsLiteral (status_or_active info.status) new.status_plain) refl new.fresh in
      (
        db',
        exec_master-IsText env (register_sql info) db files
              (register_sql-IsText info (uuids (table db)) new)
            ∙ ap (λ r. (r.0, at r.1 files)) done,
        has',
        grown,
      )

  -- The row that is read again is the information.
  pub row_info-row_of :
      (id : ℕ) (info : DatabaseInfo) (known : List Text)
      → IsNew info known
      → row_info (row_of id info) ≡ record info { status = status_or_active info.status }
  row_info-row_of id info known new =
      rw
        (
          c_str-IsText info.uuid new.uuid_text,
          c_str-IsText info.creation_date new.date_text,
          c_str-IsText info.file_pos new.path_text,
          c_str-IsText (status_or_active info.status) new.status_text,
        )
        refl

  -- On an open registry with its table, for an information of texts without zero bytes, whose uuid is
  -- new and, like its date and its status, has no quote, while its path may have any other
  -- characters: `registerDatabase` returns true, and `loadExisting` then returns what it returned
  -- before and, last, the information, with the status active where it had none.
  pub load_existing-register_database :
      (info : DatabaseInfo) (db : Db) (files : Text → Option Db)
      → HasTable db
      → IsNew info (uuids (table db))
      → (infos : List DatabaseInfo) × ((load_existing env (at db files)).0 ≡ some infos)
        × ((register_database env info (at db files)).0 ≡ true)
        × ((load_existing env (register_database env info (at db files)).1).0
            ≡ some (infos ++ record info { status = status_or_active info.status } ∷ []))
  load_existing-register_database info db files has new =
      let (db', done, has', grown) = register_database_lem info db files has new in
      (
        map row_info (table db),
        rw (load_existing_lem db files has) refl,
        rw done refl,
        rw
            (
              done,
              load_existing_lem db' files has',
              grown,
              map-append row_info (table db) (row_of (next_id db) info ∷ []),
              row_info-row_of (next_id db) info (uuids (table db)) new,
            )
            refl,
      )
