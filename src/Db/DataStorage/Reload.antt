-- ===== src/Db/DataStorage/Reload.antt =====
-- What a restart finds: the identifiers written by `insertEntity` are the ones that
-- `loadAllIdentifiers` puts into the query engine.
use akkon.Base.{
  ℕ, zero, suc, ◌*◌, ◌^◌, ◌<◌, ◌≡◌, refl, ap, Bool, true, false, ◌||◌, ◌⊎◌, inl, inr, Option, none,
  some, List, [], ◌∷◌, arith, length, get_elem?, set, ◌==◌, Bool-cases,
}
use mathlib.Core.Option.{some-injective}
use mathlib.Core.Path.{subst, fun_ext}
use akkon.Base.Text.{Text, text_eq}
use akkon.Index.QueryEngine.{
  QueryEngine, definitely_yes, definitely_no, probably_yes, make_engine, contains, query,
}
use akkon.Index.QueryEngine.Refines.{Holds, insert_all-Holds, make_engine-Holds, query_lem}
use akkon.Db.DataStorage.{
  DbEntity, DataStorage, c_str, row_of, rejected, finish_write, write_to, insert_entity, load_dbs,
  load_all_identifiers,
}

module _ {Db : Type 0} (identifiers : Db → List Text) where
  -- The texts that the databases hold.
  abbrev pub stored : List Db → Text → Bool
  stored [] t = false
  stored (db ∷ dbs) t = contains (identifiers db) t || stored dbs t

  load_dbs-Holds :
      (dbs : List Db) (e : QueryEngine) (seen : Text → Bool)
      → Holds e seen
      → (e' : QueryEngine) × (load_dbs identifiers dbs e ≡ some e')
        × Holds e' (λ t. seen t || stored dbs t)
  unfolding load_dbs
  load_dbs-Holds [] e seen h = (e, refl, subst (Holds e) (fun_ext (λ q. ground arith)) h)
  load_dbs-Holds (db ∷ dbs) e seen h =
      let (mid, filled, holds) = insert_all-Holds (identifiers db) e seen h in
      let (e', done, all) =
        load_dbs-Holds dbs mid (λ t. seen t || contains (identifiers db) t) holds in
      (e', rw (load_dbs, filled) done, subst (Holds e') (fun_ext (λ t. ground arith)) all)

  -- One database of the list replaced by one that holds one text more.
  stored-set :
      (dbs : List Db) (i : ℕ) (db db' : Db) (text t : Text)
      → get_elem? dbs i ≡ some db
      → contains (identifiers db') t ≡ (text_eq text t || contains (identifiers db) t)
      → stored (set dbs i db') t ≡ (text_eq text t || stored dbs t)
  stored-set [] i db db' text t at h = cc
  stored-set (x ∷ dbs) zero db db' text t at h =
      ground (arith, h, ap (λ d. contains (identifiers d) t) (some-injective x db at))
  stored-set (x ∷ dbs) (suc i) db db' text t at h =
      ground (arith, stored-set dbs i db db' text t at h)

  module _ (insert_row : Db → DbEntity → Option Db) where
    -- An INSERT that succeeds adds the identifier of its row and removes none.
    abbrev pub Adds : Type 0
    Adds =
        (db db' : Db) (row : DbEntity) (t : Text)
        → insert_row db row ≡ some db'
        → contains (identifiers db') t ≡ (text_eq row.identifyer t || contains (identifiers db) t)

    finish_write-stored :
        (db : Db) (result : Option Db) (e : DbEntity) (s : DataStorage Db) (t : Text)
        → Adds
        → get_elem? s.data_dbs s.round_robin_idx ≡ some db
        → insert_row db (row_of e) ≡ result
        → (finish_write result s).0 ≡ true
        → stored (finish_write result s).1.data_dbs t
          ≡ (text_eq (c_str e.identifyer) t || stored s.data_dbs t)
    finish_write-stored db none e s t adds at ran h = cc
    finish_write-stored db (some db') e s t adds at ran h =
        stored-set s.data_dbs s.round_robin_idx db db' (c_str e.identifyer) t at
          (adds db db' (row_of e) t ran)

    write_to-stored :
        (found : Option Db) (e : DbEntity) (s : DataStorage Db) (t : Text)
        → Adds
        → get_elem? s.data_dbs s.round_robin_idx ≡ found
        → (write_to insert_row found e s).0 ≡ true
        → stored (write_to insert_row found e s).1.data_dbs t
          ≡ (text_eq (c_str e.identifyer) t || stored s.data_dbs t)
    write_to-stored none e s t adds at h = cc
    write_to-stored (some db) e s t adds at h =
        finish_write-stored db (insert_row db (row_of e)) e s t adds at refl h

    insert_entity-stored :
        (available : Option ℕ) (e : DbEntity) (s : DataStorage Db) (t : Text)
        → Adds
        → (insert_entity insert_row available e s).0 ≡ true
        → stored (insert_entity insert_row available e s).1.data_dbs t
          ≡ (text_eq (c_str e.identifyer) t || stored s.data_dbs t)
    unfolding insert_entity
    insert_entity-stored available e s t adds h = elim (Bool-cases (length s.data_dbs == 0)) [
      | inl empty ↦ absurd (ground (arith, empty, h))
      | inr some_db ↦ elim (Bool-cases (rejected available e)) [
        | inl refused ↦ absurd (ground (arith, some_db, refused, h))
        | inr passed ↦
            rw (insert_entity, some_db, passed)
              (write_to-stored (get_elem? s.data_dbs s.round_robin_idx) e s t adds refl
                (rw (insert_entity, some_db, passed) at h))
      ]
    ]

    -- For an INSERT that adds its row's identifier and removes none, and an engine of at least one
    -- item whose ten-fold is below 2 ^ 64: after an `insertEntity` that returned true, loading all
    -- identifiers into a new engine succeeds, and then a query answers DEFINITELY_YES exactly for
    -- the entity's identifier (up to its first zero byte) and for the identifiers stored before.
    pub reload-insert_entity :
        (expected : ℕ) (available : Option ℕ) (e : DbEntity) (s : DataStorage Db)
        → 0 < expected
        → expected * 10 < 2 ^ 64
        → Adds
        → (insert_entity insert_row available e s).0 ≡ true
        → (engine : QueryEngine) × (load_all_identifiers identifiers
              (insert_entity insert_row available e s).1
              (make_engine expected)
            ≡ some engine)
          × ((t : Text)
              → ((text_eq (c_str e.identifyer) t || stored s.data_dbs t) ≡ true
                  → query engine t ≡ some definitely_yes)
                × ((text_eq (c_str e.identifyer) t || stored s.data_dbs t) ≡ false
                    → (query engine t ≡ some definitely_no) ⊎ (query engine t ≡ some probably_yes)))
    unfolding load_all_identifiers
    reload-insert_entity expected available e s pos small adds h =
        let after = (insert_entity insert_row available e s).1 in
        let (engine, loaded, holds) =
          load_dbs-Holds after.data_dbs (make_engine expected) (λ _. false)
            (make_engine-Holds expected pos small) in
        (
          engine,
          loaded,
          λ t.
              query_lem (λ q. text_eq (c_str e.identifyer) q || stored s.data_dbs q) t
                (subst (Holds engine) (fun_ext (λ q. insert_entity-stored available e s q adds h))
                  holds),
        )
