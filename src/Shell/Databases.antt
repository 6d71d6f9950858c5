-- ===== src/Shell/Databases.antt =====
-- `Shell::run` of src/shell/Shell.cpp from the point where it opens the databases, without what it
-- prints. The entries of the directory and what each new database draws are inputs.
pub mod Provision
mod Tests
use akkon.Base.{
  ℕ, zero, suc, ◌+◌, ◌-◌, Bool, true, false, Option, none, some, List, [], ◌∷◌, ◌++◌, length,
  if◌then◌else◌,
}
use akkon.Base.Int.{ℤ, pos, negsuc}
use akkon.Base.Text.{Text}
use akkon.Construction.MasterDb.{DatabaseInfo, Env, MasterDb, Entry}
use akkon.Construction.MasterDb.Operations.{
  ensure_open, scan_and_import_unmapped, load_existing, get_missing, recreate_missing,
  create_new_database,
}
use akkon.Shell.Options.{Options}

-- How many databases are added to the existing ones.
abbrev pub added_count : ℤ → ℕ → ℕ
added_count (pos n) existing_count = n - existing_count
added_count (negsuc n) existing_count = 0

-- The exit code, the map of the databases as the list of its values, and the registry.
pub record Finished (Db : Type 0) : Type 0 where
  pub exit_code : ℕ
  pub map_existing : List DatabaseInfo
  pub master : MasterDb Db

module _ {Db : Type 0} (env : Env Db) (draws : ℕ → Text × Text) where
  -- The loop that creates databases: `n` rounds are left, and `i` are done.
  unfoldable pub create_rounds :
      ℕ → ℕ → List DatabaseInfo → MasterDb Db → List DatabaseInfo × MasterDb Db
  create_rounds zero i infos m = (infos, m)
  create_rounds (suc n) i infos m =
      let made = create_new_database env (draws i).0 (draws i).1 m in
      create_rounds n (i + 1) (infos ++ made.0 ∷ []) made.1

  -- The second `loadExisting`, whose result is printed only.
  abbrev pub print_registry :
      List DatabaseInfo → Option (List DatabaseInfo) × MasterDb Db → Option (Finished Db)
  print_registry infos (none, m) = none
  print_registry infos (some registry, m) =
      some (record { exit_code = 0; map_existing = infos; master = m })

  -- After the first `loadExisting`.
  abbrev pub add_databases : ℤ → Option (List DatabaseInfo) × MasterDb Db → Option (Finished Db)
  add_databases num_databases (none, m) = none
  add_databases num_databases (some infos, m) =
      let recreated = recreate_missing env (get_missing env infos m) m in
      let made = create_rounds (added_count num_databases (length infos)) 0 infos recreated in
      print_registry made.0 (load_existing env made.1)

  -- From the first `loadExisting` on; `none` is an exception.
  unfoldable pub provide_databases : ℤ → MasterDb Db → Option (Finished Db)
  provide_databases num_databases m = add_databases num_databases (load_existing env m)

  abbrev pub use_master : Options → List Entry → Option Db → MasterDb Db → Option (Finished Db)
  use_master o entries none m = some (record { exit_code = 1; map_existing = []; master = m })
  use_master o entries (some db) m =
      provide_databases o.num_databases
        (if o.no_import then m else scan_and_import_unmapped env entries m)

  -- `m` is a `MasterDB` before its constructor opens it.
  unfoldable pub run_databases : Options → List Entry → MasterDb Db → Option (Finished Db)
  run_databases o entries m =
      let master = ensure_open env m in use_master o entries master.m_db master
