-- ===== src/Construction/MasterDb/Import.antt =====
-- One file after the other: the INSERT of `scanAndImportUnmapped`.
use mathlib.Core.List.{append_assoc, append-nil}
use mathlib.Core.Path.{subst}
use akkon.Base.{
  ℕ, ◌≡◌, ◌⊎◌, inl, inr, refl, sym, ap, ◌∙◌, Bool, true, false, Option, none, some, if_cases,
  get_elem?, List, [], ◌∷◌, ◌++◌, map-append, All, All-append, arith,
}
use akkon.Base.Text.{Text, codes, text_eq_refl}
use akkon.Db.DataStorage.{c_str}
use akkon.Construction.Sqlite.{column, c_text}
use akkon.Construction.SqlText.{escape_sql_string}
use akkon.Construction.MasterDb.{
  DatabaseInfo, Env, Entry, import_sql, contains_path, stem, metadata_query,
}
use akkon.Construction.MasterDb.Operations.{
  path_of, exec_master, metadata_in, import_info, is_candidate, import_entries, text_or_empty,
  metadata_of, or_else_text, rows_of, or_new,
}
use akkon.Construction.MasterDb.Laws.{
  Row, uuids, paths, Behaves, IsPlain-IsLiteral, escape_sql_string-IsLiteral, contains_path-append,
  unmapped-IsPlain, IsText, IsText-c_str, IsText-escape_sql_string, IsText-values, import_front,
}
use akkon.Construction.MasterDb.Registry.{at, exec_master-IsText}

module _ {Db : Type 0} (env : Env Db) (HasTable : Db → Type 0) (table : Db → List Row)
    (next_id : Db → ℕ) (laws : Behaves env.sqlite HasTable table next_id)
    (files : Text → Option Db) where
  -- What is registered for an entry; the database of the registry plays no part.
  abbrev pub found : Db → Entry → DatabaseInfo
  found db entry = import_info env entry (metadata_in env (path_of env entry.name) (at db files))

  abbrev pub imported_row : Db → Entry → Row
  imported_row db entry = record {
    id = next_id db;
    uuid = (found db entry).uuid;
    creation_date = (found db entry).creation_date;
    file_path = path_of env entry.name;
    status = codes "unmapped";
  }

  -- The path of the file is in the registry, or its uuid.
  abbrev pub Covered : Db → Entry → Type 0
  Covered db entry =
      (contains_path (paths (table db)) (path_of env entry.name) ≡ true)
      ⊎ (contains_path (uuids (table db)) (found db entry).uuid ≡ true)

  -- The rows of one database are the first rows of the other.
  abbrev pub Extends : Db → Db → Type 0
  Extends db db' =
      (more : List Row) × (table db' ≡ table db ++ more)
      × All (λ row. row.status ≡ codes "unmapped") more

  pub Extends-Covered :
      (db db' : Db) (entry : Entry) → Extends db db' → Covered db entry → Covered db' entry
  Extends-Covered db db' entry (more, e, s) (inl mapped) = inl (
      rw (e, map-append (λ row. c_str row.file_path) (table db) more)
        (ground (
          arith,
          contains_path-append (paths (table db)) (paths more) (path_of env entry.name),
          mapped,
        )))
  Extends-Covered db db' entry (more, e, s) (inr known) = inr (
      rw (e, map-append (λ row. row.uuid) (table db) more)
        (ground (
          arith,
          contains_path-append (uuids (table db)) (uuids more) (found db entry).uuid,
          known,
        )))

  -- A file name of the system, and the text of a time, have no zero bytes.
  abbrev pub IsNamed : Entry → Type 0
  IsNamed entry = IsText (path_of env entry.name) × IsText (stem entry.name) × IsText entry.written

  column-IsText : (row : List (Option Text)) (i : ℕ) → IsText (text_or_empty env (column row i))
  column-IsText row i = by_element (get_elem? row i)
    where
      by_text : (text : Option Text) → IsText (text_or_empty env (c_text text))
      by_text none = refl
      by_text (some text) = IsText-c_str text

      by_element :
          (o : Option (Option Text))
          → IsText (text_or_empty env (elim o [ none ↦ none | some v ↦ c_text v ]))
      by_element none = refl
      by_element (some v) = by_text v

  abbrev AreTexts : Text × Text → Type 0
  AreTexts found = IsText found.0 × IsText found.1

  metadata_of-AreTexts : (rows : List (List (Option Text))) → AreTexts (metadata_of env rows)
  metadata_of-AreTexts [] = (refl, refl)
  metadata_of-AreTexts (row ∷ rows) = (column-IsText row 0, column-IsText row 1)

  or_else_text-IsText : (x y : Text) → IsText x → IsText y → IsText (or_else_text env x y)
  or_else_text-IsText [] y h k = k
  or_else_text-IsText (c ∷ x) y h k = h

  import_sql-IsText :
      (db : Db) (entry : Entry) → IsNamed entry → IsText (import_sql (found db entry))
  unfolding import_sql
  import_sql-IsText db entry named =
      let (uuid, date) =
        if_cases AreTexts (env.can_open (path_of env entry.name)) _ ([], [])
          (λ _.
            metadata_of-AreTexts
              (rows_of env metadata_query (some (or_new env (files (path_of env entry.name))))))
          (λ _. (refl, refl)) in
      IsText-values import_front (escape_sql_string (found db entry).uuid)
        (escape_sql_string (found db entry).creation_date)
        (escape_sql_string (path_of env entry.name)) (codes "unmapped") refl
        (IsText-escape_sql_string (found db entry).uuid (
          or_else_text-IsText (metadata_in env (path_of env entry.name) (at db files)).0
            (stem entry.name) uuid named.1))
        (IsText-escape_sql_string (found db entry).creation_date (
          or_else_text-IsText (metadata_in env (path_of env entry.name) (at db files)).1
            entry.written date named.2))
        (IsText-escape_sql_string (path_of env entry.name) named.0) refl

  -- One INSERT: the row is added, or its uuid is known.
  import_one :
      (db : Db) (entry : Entry)
      → HasTable db
      → IsNamed entry
      → (db' : Db) × ((exec_master env (import_sql (found db entry)) (at db files)).1
          ≡ at db' files)
        × HasTable db'
        × Extends db db'
        × Covered db' entry
        × (contains_path (uuids (table db)) (found db entry).uuid ≡ true → db' ≡ db)
  unfolding import_sql
  import_one db entry has named = by_uuid (contains_path (uuids (table db)) row.uuid) refl
    where
      row : Row
      row = imported_row db entry

      text : IsText (import_sql (found db entry))
      text = import_sql-IsText db entry named

      reaches :
          (exec_master env (import_sql (found db entry)) (at db files)).1
          ≡ at (env.sqlite.exec db (import_sql (found db entry))).1 files
      reaches = ap (λ r. r.1) (exec_master-IsText env (import_sql (found db entry)) db files text)

      by_uuid :
          (b : Bool)
          → contains_path (uuids (table db)) row.uuid ≡ b
          → (db' : Db) × ((exec_master env (import_sql (found db entry)) (at db files)).1
              ≡ at db' files)
            × HasTable db'
            × Extends db db'
            × Covered db' entry
            × (contains_path (uuids (table db)) row.uuid ≡ true → db' ≡ db)
      by_uuid true e = (
        db,
        reaches
            ∙ ap (λ r. at r.1 files)
                (laws.refuses db (escape_sql_string row.uuid) (escape_sql_string row.creation_date)
                  (escape_sql_string row.file_path) (codes "unmapped") row has text
                  (escape_sql_string-IsLiteral row.uuid)
                  (escape_sql_string-IsLiteral row.creation_date)
                  (escape_sql_string-IsLiteral row.file_path)
                  (IsPlain-IsLiteral (codes "unmapped") unmapped-IsPlain) e),
        has,
        ([], rw append-nil refl, tt),
        inr e,
        λ _. refl,
      )
      by_uuid false e =
          let (db', done, has', grown) =
            laws.imports db (escape_sql_string row.uuid) (escape_sql_string row.creation_date)
              (escape_sql_string row.file_path) (codes "unmapped") row has text
              (escape_sql_string-IsLiteral row.uuid) (escape_sql_string-IsLiteral row.creation_date)
              (escape_sql_string-IsLiteral row.file_path)
              (IsPlain-IsLiteral (codes "unmapped") unmapped-IsPlain) refl e in
          (
            db',
            reaches ∙ ap (λ r. at r.1 files) done,
            has',
            (row ∷ [], grown, (refl, tt)),
            inr (
                rw (grown, map-append (λ r. r.uuid) (table db) (row ∷ []))
                  (ground (
                    arith,
                    contains_path-append (uuids (table db)) (row.uuid ∷ []) row.uuid,
                    text_eq_refl row.uuid,
                  ))),
            λ known. absurd (ground (arith, known, e)),
          )

  Extends-refl : (db : Db) → Extends db db
  Extends-refl db = ([], rw append-nil refl, tt)

  Extends-trans : (db mid last : Db) → Extends db mid → Extends mid last → Extends db last
  Extends-trans db mid last (xs, e, p) (ys, f, q) = (
    xs ++ ys,
    rw (f, e) (append_assoc (table db) xs ys),
    All-append (λ row. row.status ≡ codes "unmapped") xs ys p q,
  )

  -- After the import of some entries.
  pub record Imported (mapped : List Text) (entries : List Entry) (db : Db) : Type 0 where
    pub db' : Db
    pub shape : import_entries env mapped entries (at db files) ≡ at db' files
    pub has : HasTable db'
    pub extends : Extends db db'
    pub covered : All (λ entry. is_candidate env mapped entry ≡ true → Covered db' entry) entries
    pub settled :
        All
          (λ entry.
            is_candidate env mapped entry ≡ true
            → contains_path (uuids (table db)) (found db entry).uuid ≡ true)
          entries
        → db' ≡ db

  pub import_entries_lem :
      (mapped : List Text) (entries : List Entry) (db : Db)
      → HasTable db
      → All IsNamed entries
      → Imported mapped entries db
  unfolding import_entries
  import_entries_lem mapped [] db has named = record {
    db' = db;
    has = has;
    shape = refl;
    extends = Extends-refl db;
    covered = tt;
    settled = λ _. refl;
  }
  import_entries_lem mapped (entry ∷ entries) db has named =
      by_test (is_candidate env mapped entry) refl
        (λ d has_d. import_entries_lem mapped entries d has_d named.1)
    where
      by_test :
          (b : Bool)
          → is_candidate env mapped entry ≡ b
          → ((d : Db) → HasTable d → Imported mapped entries d)
          → Imported mapped (entry ∷ entries) db
      by_test false e rest =
          let r = rest db has in
          record {
            db' = r.db';
            shape = rw (import_entries, e) r.shape;
            has = r.has;
            extends = r.extends;
            covered = ((λ c. absurd (ground (arith, c, e))), r.covered);
            settled = λ all. r.settled all.1;
          }
      by_test true e rest =
          let (d, done, has_d, grown, here, same) = import_one db entry has named.0 in
          let r = rest d has_d in
          record {
            db' = r.db';
            shape = rw (import_entries, e, done) r.shape;
            has = r.has;
            extends = Extends-trans db d r.db' grown r.extends;
            covered = ((λ _. Extends-Covered d r.db' entry r.extends here), r.covered);
            settled = λ all.
                let unchanged = same (all.0 e) in
                r.settled (
                  subst
                    (λ x.
                      All
                        (λ c.
                          is_candidate env mapped c ≡ true
                          → contains_path (uuids (table x)) (found x c).uuid ≡ true)
                        entries)
                    (sym unchanged) all.1)
                ∙ unchanged;
          }
