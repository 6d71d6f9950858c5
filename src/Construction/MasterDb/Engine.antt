-- ===== src/Construction/MasterDb/Engine.antt =====
-- A small engine for the statements of `MasterDB` on the table `databases`: it reads the literals of an
-- INSERT and keeps the rows. It shows that what is assumed of SQLite can hold.
use akkon.Base.{
  ℕ, zero, suc, ◌≡◌, refl, sym, ap, ◌∙◌, Bool, true, false, ◌==◌, Option, none, some, List, [], ◌∷◌,
  ◌++◌, map, drop, if◌then◌else◌,
}
use akkon.Base.Text.{Text, codes, text_eq}
use akkon.Construction.SqlText.{quote, read_literal, NoQuote}
use akkon.Construction.Sqlite.{Sqlite, values}
use akkon.Construction.MasterDb.{Env, load_sql, paths_sql, contains_path}
use akkon.Construction.MasterDb.Laws.{
  Row, uuids, load_columns, path_columns, IsLiteral, register_front, import_front, Behaves,
}

pub record Table : Type 0 where
  pub rows : List Row
  pub next_id : ℕ

-- What is left of a text after its front.
abbrev strip : Text → Text → Option Text
strip [] text = some text
strip (c ∷ front) [] = none
strip (c ∷ front) (d ∷ text) = let rest = strip front text in if c == d then rest else none

-- `n` literals, each with three characters before the next.
unfoldable pub literals : ℕ → Text → List Text
literals zero text = []
literals (suc n) text = elim (read_literal false text) [
  | none ↦ []
  | some found ↦ found.0 ∷ literals n (drop 3 found.1)
]

abbrev add : Row → Table → Table
add row table = record { rows = table.rows ++ row ∷ []; next_id = suc table.next_id }

-- An INSERT; what it returns where the uuid is known is an argument.
abbrev insert : Bool → List Text → Table → Bool × Table
insert ignores (a ∷ b ∷ c ∷ d ∷ more) table =
    if contains_path (uuids table.rows) a then (ignores, table) else (
      true,
      add (record { id = table.next_id; uuid = a; creation_date = b; file_path = c; status = d })
          table,
    )
insert ignores _ table = (true, table)

abbrev exec_import : Option Text → Table → Bool × Table
exec_import none table = (true, table)
exec_import (some text) table = insert false (literals 4 text) table

abbrev exec_insert : Option Text → Text → Table → Bool × Table
exec_insert none sql table = exec_import (strip import_front sql) table
exec_insert (some text) sql table = insert true (literals 4 text) table

abbrev exec_table : Table → Text → Bool × Table
exec_table table sql = exec_insert (strip register_front sql) sql table

abbrev select_table : Table → Text → Option (List (List (Option Text)))
select_table table sql =
    if text_eq sql load_sql
    then some (map load_columns table.rows)
    else if text_eq sql paths_sql
    then some (map path_columns table.rows)
    else some []

abbrev pub engine : Sqlite Table
engine = record {
  exec = exec_table;
  select = select_table;
  new_db = record { rows = []; next_id = 1 };
}

literals_step :
    (n : ℕ) (a rest x : Text)
    → IsLiteral a x
    → NoQuote rest
    → literals (suc n) (a ++ quote ∷ rest) ≡ x ∷ literals n (drop 3 rest)
unfolding literals
literals_step n a rest x p h = rw (literals, p rest h) refl

literals-values :
    (a b c d : Text) (row : Row)
    → IsLiteral a row.uuid
    → IsLiteral b row.creation_date
    → IsLiteral c row.file_path
    → IsLiteral d row.status
    → literals 4 (values a b c d) ≡ row.uuid ∷ row.creation_date ∷ row.file_path ∷ row.status ∷ []
unfolding literals
literals-values a b c d row p q r s =
    literals_step 3 a
      (codes ", '" ++ (b ++ (codes "', '" ++ (c ++ (codes "', '" ++ (d ++ codes "');")))))) row.uuid
      p refl
    ∙ ap (λ t. row.uuid ∷ t)
        (literals_step 2 b (codes ", '" ++ (c ++ (codes "', '" ++ (d ++ codes "');"))))
            row.creation_date q refl
          ∙ ap (λ t. row.creation_date ∷ t)
              (literals_step 1 c (codes ", '" ++ (d ++ codes "');")) row.file_path r refl
                ∙ ap (λ t. row.file_path ∷ t) (literals_step 0 d (codes ");") row.status s refl)))

abbrev added : Row → Table → Table
added row table = add (record row { id = table.next_id }) table

added_lem :
    (row : Row) (table : Table)
    → row.id ≡ table.next_id
    → (added row table).rows ≡ table.rows ++ row ∷ []
added_lem row table e = ap (λ i. table.rows ++ record row { id = i } ∷ []) (sym e)

-- Every database of the engine has the table.
abbrev pub AnyTable : Table → Type 0
AnyTable table = Unit

pub engine-Behaves : Behaves engine AnyTable (λ table. table.rows) (λ table. table.next_id)
engine-Behaves = record {
  registers = λ db a b c d row has text p q r s e new.
      (added row db, rw (literals-values a b c d row p q r s, new) refl, tt, added_lem row db e);
  imports = λ db a b c d row has text p q r s e new.
      (added row db, rw (literals-values a b c d row p q r s, new) refl, tt, added_lem row db e);
  refuses =
      λ db a b c d row has text p q r s known. rw (literals-values a b c d row p q r s, known) refl;
  loads = λ db has. refl;
  shows_paths = λ db has. (db.rows, refl, λ path. refl);
}

-- A registry of one database, in a directory where every path opens.
abbrev pub first_row : Row
first_row = record {
  id = 1;
  uuid = codes "a1";
  creation_date = codes "today";
  file_path = codes "dir/a1.db";
  status = codes "active";
}

abbrev pub registry : Table
registry = record { rows = first_row ∷ []; next_id = 2 }

abbrev pub open_env : Env Table
open_env = record {
  db_dir = codes "dir";
  open_master = some registry;
  can_open = λ path. true;
  sqlite = engine;
}

abbrev pub no_files : Text → Option Table
no_files path = none
