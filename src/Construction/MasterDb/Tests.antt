-- ===== src/Construction/MasterDb/Tests.antt =====
-- The registry on a small engine.
use akkon.Base.{◌≡◌, refl, true, some, List, [], ◌∷◌, ◌++◌, All, not}
use akkon.Base.Text.{codes}
use akkon.Db.DataStorage.{c_str}
use akkon.Construction.MasterDb.{DatabaseInfo, Entry}
use akkon.Construction.MasterDb.Operations.{
  load_existing, register_database, get_missing, recreate_missing, scan_and_import_unmapped,
}
use akkon.Construction.MasterDb.Laws.{row_info}
use akkon.Construction.MasterDb.Registry.{at, load_existing-register_database}
use akkon.Construction.MasterDb.Files.{recreates, filter, get_missing-recreate_missing}
use akkon.Construction.MasterDb.Import.{Extends, Covered}
use akkon.Construction.MasterDb.Scan.{IsDatabaseFile, scan_and_import_unmapped_lem}
use akkon.Construction.MasterDb.Engine.{
  Table, AnyTable, first_row, registry, open_env, no_files, engine-Behaves,
}

abbrev quoted_info : DatabaseInfo
quoted_info = record {
  uuid = codes "b2";
  creation_date = codes "now";
  file_pos = codes "dir/it's.db";
  status = [];
}

load_existing-register_database_example :
    (infos : List DatabaseInfo) × ((load_existing open_env (at registry no_files)).0 ≡ some infos)
    × ((register_database open_env quoted_info (at registry no_files)).0 ≡ true)
    × ((load_existing open_env (register_database open_env quoted_info (at registry no_files)).1).0
        ≡ some (infos ++ record quoted_info { status = codes "active" } ∷ []))
load_existing-register_database_example =
    load_existing-register_database open_env AnyTable (λ table. table.rows) (λ table. table.next_id)
      engine-Behaves quoted_info registry no_files tt
      (record {
        uuid_plain = (refl, (refl, tt));
        date_plain = (refl, (refl, (refl, tt)));
        status_plain = (refl, (refl, (refl, (refl, (refl, (refl, tt))))));
        uuid_text = refl;
        date_text = refl;
        path_text = refl;
        status_text = refl;
        fresh = refl;
      })

-- Registered in another directory.
abbrev moved_info : DatabaseInfo
moved_info = record quoted_info { file_pos = codes "elsewhere/b2.db" }

get_missing-recreate_missing_example :
    get_missing open_env (row_info first_row ∷ moved_info ∷ []) (
      recreate_missing open_env
        (get_missing open_env (row_info first_row ∷ moved_info ∷ []) (at registry no_files))
        (at registry no_files))
    ≡ filter open_env
        (λ info. not (
          recreates open_env
            (get_missing open_env (row_info first_row ∷ moved_info ∷ []) (at registry no_files))
            info.file_pos))
        (get_missing open_env (row_info first_row ∷ moved_info ∷ []) (at registry no_files))
get_missing-recreate_missing_example =
    get_missing-recreate_missing open_env (row_info first_row ∷ moved_info ∷ [])
      (at registry no_files)

-- The first is recreated; the second is still missing.
recreate_missing-moved_info :
    get_missing open_env
      (row_info first_row ∷ moved_info ∷ [])
      (recreate_missing open_env (row_info first_row ∷ moved_info ∷ []) (at registry no_files))
    ≡ moved_info ∷ []
unfolding get_missing recreate_missing c_str
recreate_missing-moved_info = refl

abbrev stray : Entry
stray = record { name = codes "c3.db"; is_regular_file = true; written = codes "then" }

abbrev stray_entries : List Entry
stray_entries = stray ∷ record stray { name = codes "a1.db" } ∷ []

scan_and_import_unmapped_lem_example :
    (db' : Table) × (scan_and_import_unmapped open_env stray_entries (at registry no_files)
      ≡ at db' no_files)
    × Extends open_env AnyTable
        (λ table. table.rows)
        (λ table. table.next_id)
        engine-Behaves
        no_files
        registry
        db'
    × All
        (λ c.
          IsDatabaseFile open_env AnyTable
            (λ table. table.rows)
            (λ table. table.next_id)
            engine-Behaves
            no_files
            c
          → Covered open_env AnyTable
              (λ table. table.rows)
              (λ table. table.next_id)
              engine-Behaves
              no_files
              db'
              c)
        stray_entries
    × (scan_and_import_unmapped open_env stray_entries (at db' no_files) ≡ at db' no_files)
scan_and_import_unmapped_lem_example =
    scan_and_import_unmapped_lem open_env AnyTable (λ table. table.rows) (λ table. table.next_id)
      engine-Behaves no_files stray_entries registry tt
      ((refl, refl, refl), ((refl, refl, refl), tt))
