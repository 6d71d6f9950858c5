-- ===== src/Db/DataStorage.antt =====
-- `DataStorage` of src/db/DataStorage.{h,cpp} and `DbEntity` of src/db/Entity.h.
-- SQLite is a parameter: a database, opening one, one INSERT, and the identifiers it holds.
pub mod Reload
pub mod Turns
pub mod Failure
mod Tests
use akkon.Base.{
  ℕ, zero, suc, ◌+◌, ◌*◌, ◌%◌, Bool, true, false, ◌&&◌, not, Option, none, some, List, [], ◌∷◌,
  ◌++◌, length, get_elem?, set, if◌then◌else◌, ltb, ◌==◌,
}
use akkon.Base.Text.{Text, codes}
use akkon.Index.QueryEngine.{QueryEngine, insert_all}

pub record DbEntity : Type 0 where
  pub uuid : Text
  pub identifyer : Text
  pub pwk : Text

abbrev pub is_empty : Text → Bool
is_empty [] = true
is_empty (c ∷ cs) = false

-- `c_str()` with the length -1 of `sqlite3_bind_text`: the text up to its first zero byte.
unfoldable pub c_str : Text → Text
c_str [] = []
c_str (c ∷ cs) = let rest = c_str cs in if c == 0 then [] else c ∷ rest

-- The row that the three bindings make.
abbrev pub row_of : DbEntity → DbEntity
row_of e = record { uuid = c_str e.uuid; identifyer = c_str e.identifyer; pwk = c_str e.pwk }

-- The limit of 100 MB; `none` where there is no directory or the check throws.
abbrev pub low_space : Option ℕ → Bool
low_space none = false
low_space (some available) = ltb available (100 * 1024 * 1024)

abbrev pub rejected : Option ℕ → DbEntity → Bool
rejected available e =
    if not (is_empty e.uuid) && is_empty e.identifyer then true else low_space available

pub record DataStorage (Db : Type 0) : Type 0 where
  pub data_dbs : List Db
  pub round_robin_idx : ℕ

module _ {Db : Type 0} where
  -- `initialize`, with the paths in the order of the map; `open_db` is `sqlite3_open` and the
  -- statements that follow it.
  pub initialize : (Text → Option Db) → List Text → DataStorage Db → DataStorage Db
  initialize open_db [] s = s
  initialize open_db (path ∷ paths) s =
      initialize open_db paths
        (elim (open_db path) [ none ↦ s | some db ↦ record s { data_dbs = s.data_dbs ++ db ∷ [] } ])

  -- The statement has run; `none` is one that cannot be prepared or does not end with
  -- `SQLITE_DONE`. The index has moved on in both cases.
  abbrev pub finish_write : Option Db → DataStorage Db → Bool × DataStorage Db
  finish_write none s =
      (false, record s { round_robin_idx = (s.round_robin_idx + 1) % length s.data_dbs })
  finish_write (some db') s = (
    true,
    record s {
      data_dbs = set s.data_dbs s.round_robin_idx db';
      round_robin_idx = (s.round_robin_idx + 1) % length s.data_dbs;
    },
  )

  abbrev pub write_to :
      (Db → DbEntity → Option Db) → Option Db → DbEntity → DataStorage Db → Bool × DataStorage Db
  write_to insert_row none e s = (false, s)
  write_to insert_row (some db) e s = finish_write (insert_row db (row_of e)) s

  -- `insertEntity`; an index out of range, undefined behaviour there, is a failed write here.
  unfoldable pub insert_entity :
      (Db → DbEntity → Option Db) → Option ℕ → DbEntity → DataStorage Db → Bool × DataStorage Db
  insert_entity insert_row available e s =
      if length s.data_dbs == 0
      then (false, s)
      else if rejected available e
      then (false, s)
      else write_to insert_row (get_elem? s.data_dbs s.round_robin_idx) e s

  abbrev pub write_error : (Db → DbEntity → Option Db) → Text → Option Db → DbEntity → Option Text
  write_error insert_row failure none e = none
  write_error insert_row failure (some db) e = elim (insert_row db (row_of e)) [
    | none ↦ some failure
    | some db' ↦ none
  ]

  -- The message that `insertEntity` logs as an ERROR; `failure` is the one about a statement that
  -- cannot be prepared or does not end with `SQLITE_DONE`.
  unfoldable pub error_message :
      (Db → DbEntity → Option Db) → Text → Option ℕ → DbEntity → DataStorage Db → Option Text
  error_message insert_row failure available e s =
      if length s.data_dbs == 0
      then none
      else if not (is_empty e.uuid) && is_empty e.identifyer
      then some (codes "Write rejected: UUID cannot exist without an identifier.")
      else if low_space available
      then some (codes "Write rejected: Disk space below 100MB guardrail.")
      else write_error insert_row failure (get_elem? s.data_dbs s.round_robin_idx) e

  -- `loadAllIdentifiers`; `identifiers` are the rows of the SELECT that are not NULL.
  pub load_dbs : (Db → List Text) → List Db → QueryEngine → Option QueryEngine
  load_dbs identifiers [] engine = some engine
  load_dbs identifiers (db ∷ dbs) engine = elim (insert_all engine (identifiers db)) [
    | none ↦ none
    | some engine' ↦ load_dbs identifiers dbs engine'
  ]

  pub load_all_identifiers : (Db → List Text) → DataStorage Db → QueryEngine → Option QueryEngine
  load_all_identifiers identifiers s engine = load_dbs identifiers s.data_dbs engine
