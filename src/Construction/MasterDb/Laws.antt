-- ===== src/Construction/MasterDb/Laws.antt =====
-- What SQLite documents of the statements of `MasterDB`: an INSERT stores the texts that its literals
-- stand for, the column `uuid` is UNIQUE, and a SELECT with ORDER BY id shows the rows in that order.
use akkon.Base.{
  ℕ, ◌≡◌, refl, true, false, ◌||◌, Option, some, List, [], ◌∷◌, ◌++◌, map, All, ◌==◌, arith,
}
use akkon.Base.Text.{Text, codes}
use akkon.Base.Find.{lacks, lacks-append}
use akkon.Db.DataStorage.{c_str}
use akkon.Base.Decimal.{to_string}
use akkon.Construction.SqlText.{
  quote, escape_sql_string, read_literal, push, NoQuote, read_literal-escape_sql_string,
}
use akkon.Construction.Sqlite.{Sqlite, values}
use akkon.Construction.MasterDb.{DatabaseInfo, load_sql, paths_sql, infos_of, contains_path}

-- A row of the table `databases`.
pub record Row : Type 0 where
  pub id : ℕ
  pub uuid : Text
  pub creation_date : Text
  pub file_path : Text
  pub status : Text

-- What `loadExisting` reads of a row.
abbrev pub row_info : Row → DatabaseInfo
row_info row = record {
  uuid = c_str row.uuid;
  creation_date = c_str row.creation_date;
  file_pos = c_str row.file_path;
  status = c_str row.status;
}

abbrev pub load_columns : Row → List (Option Text)
load_columns row =
    some (to_string row.id)
    ∷ some row.uuid
    ∷ some row.creation_date
    ∷ some row.file_path
    ∷ some row.status
    ∷ []

abbrev pub path_columns : Row → List (Option Text)
path_columns row = some row.file_path ∷ []

abbrev pub uuids : List Row → List Text
uuids = map (λ row. row.uuid)

abbrev pub paths : List Row → List Text
paths = map (λ row. c_str row.file_path)

-- A text between quotes is a literal for a value, whatever follows but a quote.
abbrev pub IsLiteral : Text → Text → Type 0
IsLiteral body value =
    (rest : Text) → NoQuote rest → read_literal false (body ++ quote ∷ rest) ≡ some (value, rest)

abbrev pub register_front : Text
register_front =
    codes "INSERT OR IGNORE INTO databases (uuid, creation_date, file_path, status) VALUES ('"

abbrev pub import_front : Text
import_front = codes "INSERT INTO databases (uuid, creation_date, file_path, status) VALUES ('"

-- How the statements act on a database that has the table `databases`, without NULLs, and room to
-- write: `table` are its rows in the order of their ids, and `next_id` is the id that the next one gets.
-- A text without zero bytes is a statement as it stands. A SELECT without ORDER BY shows the rows in
-- some order.
pub record Behaves {Db : Type 0} (sq : Sqlite Db) (HasTable : Db → Type 0) (table : Db → List Row)
    (next_id : Db → ℕ) : Type 0 where
  pub registers :
      (db : Db) (a b c d : Text) (row : Row)
      → HasTable db
      → lacks 0 (register_front ++ values a b c d) ≡ true
      → IsLiteral a row.uuid
      → IsLiteral b row.creation_date
      → IsLiteral c row.file_path
      → IsLiteral d row.status
      → row.id ≡ next_id db
      → contains_path (uuids (table db)) row.uuid ≡ false
      → (db' : Db) × (sq.exec db (register_front ++ values a b c d) ≡ (true, db'))
        × HasTable db'
        × (table db' ≡ table db ++ row ∷ [])
  pub imports :
      (db : Db) (a b c d : Text) (row : Row)
      → HasTable db
      → lacks 0 (import_front ++ values a b c d) ≡ true
      → IsLiteral a row.uuid
      → IsLiteral b row.creation_date
      → IsLiteral c row.file_path
      → IsLiteral d row.status
      → row.id ≡ next_id db
      → contains_path (uuids (table db)) row.uuid ≡ false
      → (db' : Db) × (sq.exec db (import_front ++ values a b c d) ≡ (true, db'))
        × HasTable db'
        × (table db' ≡ table db ++ row ∷ [])
  pub refuses :
      (db : Db) (a b c d : Text) (row : Row)
      → HasTable db
      → lacks 0 (import_front ++ values a b c d) ≡ true
      → IsLiteral a row.uuid
      → IsLiteral b row.creation_date
      → IsLiteral c row.file_path
      → IsLiteral d row.status
      → contains_path (uuids (table db)) row.uuid ≡ true
      → sq.exec db (import_front ++ values a b c d) ≡ (false, db)
  pub loads : (db : Db) → HasTable db → sq.select db load_sql ≡ some (map load_columns (table db))
  pub shows_paths :
      (db : Db)
      → HasTable db
      → (shown : List Row) × (sq.select db paths_sql ≡ some (map path_columns shown))
        × ((path : Text) → contains_path (paths shown) path ≡ contains_path (paths (table db)) path)

-- A text without zero bytes, and the statements made of such texts.
abbrev pub IsText : Text → Type 0
IsText text = lacks 0 text ≡ true

pub c_str-IsText : (text : Text) → IsText text → c_str text ≡ text
unfolding c_str
c_str-IsText [] h = refl
c_str-IsText (c ∷ text) h = ground (arith, h, c_str-IsText text (ground (arith, h)))

pub IsText-c_str : (text : Text) → IsText (c_str text)
unfolding c_str
IsText-c_str [] = refl
IsText-c_str (c ∷ text) = ground (arith, IsText-c_str text)

pub IsText-escape_sql_string : (text : Text) → IsText text → IsText (escape_sql_string text)
unfolding escape_sql_string
IsText-escape_sql_string [] h = refl
IsText-escape_sql_string (c ∷ text) h =
    ground (arith, h, IsText-escape_sql_string text (ground (arith, h)))

pub IsText-values :
    (front a b c d : Text)
    → IsText front
    → IsText a
    → IsText b
    → IsText c
    → IsText d
    → IsText (front ++ values a b c d)
IsText-values front a b c d f p q r s =
    let sep = codes "', '" in
    let last = lacks-append 0 d (codes "');") s refl in
    let third = lacks-append 0 c (sep ++ (d ++ codes "');")) r last in
    let second = lacks-append 0 b (sep ++ (c ++ (sep ++ (d ++ codes "');")))) q third in
    lacks-append 0 front (values a b c d) f
      (lacks-append 0 a (sep ++ (b ++ (sep ++ (c ++ (sep ++ (d ++ codes "');")))))) p second)

pub escape_sql_string-IsLiteral : (text : Text) → IsLiteral (escape_sql_string text) text
escape_sql_string-IsLiteral text rest h = read_literal-escape_sql_string text rest h

-- A text without quotes is a literal for itself.
abbrev pub IsPlain : Text → Type 0
IsPlain = All (λ c. (c == quote) ≡ false)

pub IsPlain-IsLiteral : (text : Text) → IsPlain text → IsLiteral text text
unfolding read_literal push
IsPlain-IsLiteral [] h [] k = refl
IsPlain-IsLiteral [] h (c ∷ rest) k = rw k refl
IsPlain-IsLiteral (c ∷ text) h rest k = rw (h.0, IsPlain-IsLiteral text h.1 rest k) refl

pub infos_of-load_columns :
    (rows : List Row) → infos_of (map load_columns rows) ≡ some (map row_info rows)
unfolding infos_of
infos_of-load_columns [] = refl
infos_of-load_columns (row ∷ rows) = rw (infos_of, infos_of-load_columns rows) refl

pub contains_path-append :
    (xs ys : List Text) (path : Text)
    → contains_path (xs ++ ys) path ≡ (contains_path xs path || contains_path ys path)
contains_path-append [] ys path = refl
contains_path-append (x ∷ xs) ys path = ground (arith, contains_path-append xs ys path)

pub unmapped-IsPlain : IsPlain (codes "unmapped")
unmapped-IsPlain = (refl, (refl, (refl, (refl, (refl, (refl, (refl, (refl, tt))))))))
