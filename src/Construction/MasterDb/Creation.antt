-- ===== src/Construction/MasterDb/Creation.antt =====
-- New databases: each is registered and its file exists.
use akkon.Base.{ℕ, ◌≡◌, refl, true, Option, List, [], ◌∷◌, ◌++◌, arith}
use akkon.Base.Text.{Text, codes, text_eq_refl}
use akkon.Construction.MasterDb.{Env, exists_file}
use akkon.Construction.MasterDb.Operations.{
  create_new_database, created_info, new_info, uuid_path, write_file,
}
use akkon.Construction.MasterDb.Laws.{Row, uuids, Behaves}
use akkon.Construction.MasterDb.Registry.{at, row_of, IsNew, register_database_lem}
use akkon.Construction.MasterDb.Files.{Extends, exists_file-set_file}

module _ {Db : Type 0} (env : Env Db) (HasTable : Db → Type 0) (table : Db → List Row)
    (next_id : Db → ℕ) (laws : Behaves env.sqlite HasTable table next_id) where
  -- What a creation leaves.
  pub record Created (uuid date : Text) (db : Db) (files : Text → Option Db) : Type 0 where
    pub db' : Db
    pub files' : Text → Option Db
    pub done :
        create_new_database env uuid date (at db files)
        ≡ (created_info env uuid date, at db' files')
    pub has : HasTable db'
    pub registered : table db' ≡ table db ++ row_of (next_id db) (created_info env uuid date) ∷ []
    pub kept : Extends files files'
    pub present : exists_file (files' (created_info env uuid date).file_pos) ≡ true

  pub create_new_database_lem :
      (uuid date : Text) (db : Db) (files : Text → Option Db)
      → env.can_open (uuid_path env (new_info env uuid date)) ≡ true
      → HasTable db
      → IsNew (created_info env uuid date) (uuids (table db))
      → Created uuid date db files
  unfolding create_new_database
  create_new_database_lem uuid date db files opens has new =
      let written =
        (write_file env (codes "INSERT") (new_info env uuid date) path (at db files)).files in
      let (db', registered, has', grown) =
        register_database_lem env HasTable table next_id laws (created_info env uuid date) db
          written has new in
      record {
        db' = db';
        files' = written;
        done = rw (opens, registered) refl;
        has = has';
        registered = grown;
        kept = λ p h. ground (arith, exists_file-set_file env path p _ files, h);
        present = ground (arith, exists_file-set_file env path path _ files, text_eq_refl path);
      }
    where
      path : Text
      path = uuid_path env (new_info env uuid date)
