-- ===== src/Construction/Tests.antt =====
-- A text that tries to end its literal.
use akkon.Base.{◌≡◌, refl, false, some, ◌∷◌, ◌++◌}
use akkon.Base.Text.{codes}
use akkon.Construction.SqlText.{
  quote, escape_sql_string, read_literal, read_literal-escape_sql_string,
}

read_literal-escape_sql_string_example :
    read_literal false
      (escape_sql_string (codes "x'; DROP TABLE databases;--") ++ quote ∷ codes ");")
    ≡ some (codes "x'; DROP TABLE databases;--", codes ");")
read_literal-escape_sql_string_example =
    read_literal-escape_sql_string (codes "x'; DROP TABLE databases;--") (codes ");") refl
