-- ===== src/Construction/MasterDb/Scan.antt =====
-- The import of files that the registry does not know.
use akkon.Base.{
  ℕ, ◌≡◌, inl, inr, refl, sym, ap, ◌∙◌, Bool, true, false, Option, some, List, [], ◌∷◌, map, All,
  arith,
}
use akkon.Base.Text.{Text, codes, text_eq}
use akkon.Db.DataStorage.{c_str}
use akkon.Construction.MasterDb.{Env, Entry, contains_path, is_db_file, paths_sql}
use akkon.Construction.MasterDb.Operations.{
  ensure_open, path_of, is_candidate, import_entries, first_texts, scan_and_import_unmapped,
}
use akkon.Construction.MasterDb.Laws.{Row, uuids, paths, path_columns, Behaves}
use akkon.Construction.MasterDb.Registry.{at}
use akkon.Construction.MasterDb.Import.{
  Covered, Extends, Extends-Covered, import_entries_lem, found, IsNamed,
}

module _ {Db : Type 0} (env : Env Db) (HasTable : Db → Type 0) (table : Db → List Row)
    (next_id : Db → ℕ) (laws : Behaves env.sqlite HasTable table next_id)
    (files : Text → Option Db) where
  -- A file of the directory that the scan looks at.
  abbrev pub IsDatabaseFile : Entry → Type 0
  IsDatabaseFile entry =
      (entry.is_regular_file ≡ true)
      × (text_eq entry.name (codes "master.db") ≡ false)
      × (is_db_file entry.name ≡ true)

  -- Two lists of paths with the same members.
  abbrev SamePaths : List Text → Db → Type 0
  SamePaths mapped db =
      (path : Text) → contains_path mapped path ≡ contains_path (paths (table db)) path

  Covered-All :
      (mapped : List Text) (entries : List Entry) (db db' : Db)
      → SamePaths mapped db
      → Extends env HasTable table next_id laws files db db'
      → All
          (λ c.
            is_candidate env mapped c ≡ true → Covered env HasTable table next_id laws files db' c)
          entries
      → All (λ c. IsDatabaseFile c → Covered env HasTable table next_id laws files db' c) entries
  Covered-All mapped [] db db' same grown h = tt
  Covered-All mapped (entry ∷ entries) db db' same grown h = (
    by_path (contains_path mapped (path_of env entry.name)) refl,
    Covered-All mapped entries db db' same grown h.1,
  )
    where
      by_path :
          (b : Bool)
          → contains_path mapped (path_of env entry.name) ≡ b
          → IsDatabaseFile entry
          → Covered env HasTable table next_id laws files db' entry
      by_path true e file =
          Extends-Covered env HasTable table next_id laws files db db' entry grown
            (inl (sym (same (path_of env entry.name)) ∙ e))
      by_path false e file = h.0 (rw (file.0, file.1, file.2, e) refl)

  -- A second time, the files that are not mapped have known uuids.
  settled-All :
      (mapped : List Text) (entries : List Entry) (db' : Db)
      → SamePaths mapped db'
      → All (λ c. IsDatabaseFile c → Covered env HasTable table next_id laws files db' c) entries
      → All
          (λ c.
            is_candidate env mapped c ≡ true
            → contains_path
                (uuids (table db'))
                (found env HasTable table next_id laws files db' c).uuid
              ≡ true)
          entries
  settled-All mapped [] db' same h = tt
  settled-All mapped (entry ∷ entries) db' same h = (here, settled-All mapped entries db' same h.1)
    where
      here :
          is_candidate env mapped entry ≡ true
          → contains_path
              (uuids (table db'))
              (found env HasTable table next_id laws files db' entry).uuid
            ≡ true
      here c = elim (h.0 (ground (arith, c), ground (arith, c), ground (arith, c))) [
        | inl known ↦ absurd (ground (arith, c, known, same (path_of env entry.name)))
        | inr known ↦ known
      ]

  first_texts-path_columns :
      (rows : List Row) → first_texts env (map path_columns rows) ≡ paths rows
  first_texts-path_columns [] = refl
  first_texts-path_columns (row ∷ rows) =
      ap (λ t. c_str row.file_path ∷ t) (first_texts-path_columns rows)

  scan_shape :
      (entries : List Entry) (db : Db) (shown : List Row)
      → env.sqlite.select db paths_sql ≡ some (map path_columns shown)
      → scan_and_import_unmapped env entries (at db files)
        ≡ import_entries env (paths shown) entries (at db files)
  unfolding scan_and_import_unmapped ensure_open
  scan_shape entries db shown e = rw (e, first_texts-path_columns shown) refl

  -- On an open registry with its table, where SQLite behaves as documented, and the names and times
  -- of the directory have no zero bytes, `scanAndImportUnmapped` only adds rows, of status unmapped;
  -- afterwards every database file of the directory has its path in the registry or shares its uuid
  -- with a row there; and a second scan of the same entries changes nothing.
  pub scan_and_import_unmapped_lem :
      (entries : List Entry) (db : Db)
      → HasTable db
      → All (IsNamed env HasTable table next_id laws files) entries
      → (db' : Db) × (scan_and_import_unmapped env entries (at db files) ≡ at db' files)
        × Extends env HasTable table next_id laws files db db'
        × All (λ c. IsDatabaseFile c → Covered env HasTable table next_id laws files db' c) entries
        × (scan_and_import_unmapped env entries (at db' files) ≡ at db' files)
  scan_and_import_unmapped_lem entries db has named =
      let (shown, selected, same) = laws.shows_paths db has in
      let first =
        import_entries_lem env HasTable table next_id laws files (paths shown) entries db has
          named in
      let covered =
        Covered-All (paths shown) entries db first.db' same first.extends first.covered in
      let (shown', selected', same') = laws.shows_paths first.db' first.has in
      let second =
        import_entries_lem env HasTable table next_id laws files (paths shown') entries first.db'
          first.has named in
      (
        first.db',
        scan_shape entries db shown selected ∙ first.shape,
        first.extends,
        covered,
        scan_shape entries first.db' shown' selected'
            ∙ second.shape
            ∙ ap (λ d. at d files)
                (second.settled (settled-All (paths shown') entries first.db' same' covered)),
      )
