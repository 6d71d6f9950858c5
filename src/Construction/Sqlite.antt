-- ===== src/Construction/Sqlite.antt =====
-- What src/construction/MasterDB.cpp asks of SQLite, which is a parameter: statements as text.
use akkon.Base.{ℕ, Bool, Option, none, some, List, ◌++◌, get_elem?}
use akkon.Base.Text.{Text, codes}
use akkon.Db.DataStorage.{c_str}

-- `sqlite3_exec` with whether it returns `SQLITE_OK`; a SELECT that is prepared and stepped to its
-- end, where a column is `none` for NULL, and `none` is a statement that cannot be prepared; and the
-- database in a new file.
pub record Sqlite (Db : Type 0) : Type 0 where
  pub exec : Db → Text → Bool × Db
  pub select : Db → Text → Option (List (List (Option Text)))
  pub new_db : Db

-- A `std::string` from the pointer of `sqlite3_column_text`: the text up to its first zero byte.
abbrev pub c_text : Option Text → Option Text
c_text none = none
c_text (some text) = some (c_str text)

-- `sqlite3_column_text`, with NULL beyond the last column.
abbrev pub column : List (Option Text) → ℕ → Option Text
column row i = elim (get_elem? row i) [ none ↦ none | some value ↦ c_text value ]

-- The values of an INSERT, between the opening quote of the first and the end of the statement.
abbrev pub values : Text → Text → Text → Text → Text
values a b c d =
    a ++ (codes "', '" ++ (b ++ (codes "', '" ++ (c ++ (codes "', '" ++ (d ++ codes "');"))))))
