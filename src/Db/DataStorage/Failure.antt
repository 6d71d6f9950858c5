-- ===== src/Db/DataStorage/Failure.antt =====
-- A write that fails.
use akkon.Base.{
  ℕ, ◌≡◌, refl, Bool, true, false, Option, none, some, length, get_elem?, if◌then◌else◌, ◌==◌,
}
use akkon.Db.DataStorage.{DbEntity, DataStorage, rejected, insert_entity, write_to, finish_write}

module _ {Db : Type 0} (insert_row : Db → DbEntity → Option Db) where
  write_to-failed :
      (db : Option Db) (e : DbEntity) (t : DataStorage Db)
      → (write_to insert_row db e t).0 ≡ false
      → (write_to insert_row db e t).1.data_dbs ≡ t.data_dbs
  write_to-failed none e t h = refl
  write_to-failed (some db) e t h = by_row (insert_row db _) h
    where
      by_row :
          (r : Option Db)
          → (finish_write r t).0 ≡ false
          → (finish_write r t).1.data_dbs ≡ t.data_dbs
      by_row none k = refl
      by_row (some db') k = cc

  kept :
      (t : DataStorage Db) (b : Bool) (x : Bool × DataStorage Db)
      → (x.0 ≡ false → x.1.data_dbs ≡ t.data_dbs)
      → (if b then (false, t) else x).0 ≡ false
      → (if b then (false, t) else x).1.data_dbs ≡ t.data_dbs
  kept t true x k h = refl
  kept t false x k h = k h

  -- An insertion that fails keeps the databases.
  pub insert_entity-failed :
      (available : Option ℕ) (e : DbEntity) (t : DataStorage Db)
      → (insert_entity insert_row available e t).0 ≡ false
      → (insert_entity insert_row available e t).1.data_dbs ≡ t.data_dbs
  unfolding insert_entity
  insert_entity-failed available e t = kept t (length t.data_dbs == 0) _ (
      kept t (rejected available e) _
        (write_to-failed (get_elem? t.data_dbs t.round_robin_idx) e t))
