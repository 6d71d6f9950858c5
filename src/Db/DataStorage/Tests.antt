-- ===== src/Db/DataStorage/Tests.antt =====
-- Two databases, each the list of its rows' identifiers; an INSERT puts one more in front.
use akkon.Base.{◌≡◌, refl, ◌⊎◌, true, false, ◌||◌, Option, none, some, List, [], ◌∷◌, arith}
use mathlib.Core.Option.{some-injective}
use mathlib.Core.Path.{ap, sym}
use akkon.Base.Text.{Text, codes, text_eq}
use akkon.Index.QueryEngine.{
  QueryEngine, definitely_yes, definitely_no, probably_yes, make_engine, contains, query,
}
use akkon.Db.DataStorage.{DbEntity, DataStorage, c_str, insert_entity, load_all_identifiers}
use akkon.Db.DataStorage.Reload.{Adds, stored, reload-insert_entity}

abbrev insert_row : List Text → DbEntity → Option (List Text)
insert_row db row = some (row.identifyer ∷ db)

abbrev identifiers : List Text → List Text
identifiers db = db

abbrev storage : DataStorage (List Text)
storage = record { data_dbs = (codes "aa" ∷ []) ∷ [] ∷ []; round_robin_idx = 1 }

abbrev entity : DbEntity
entity = record { uuid = codes "u"; identifyer = codes "bb"; pwk = [] }

insert_row-Adds : Adds identifiers insert_row
insert_row-Adds db db' row t h =
    ap (λ d. contains d t) (sym (some-injective (row.identifyer ∷ db) db' h))

inserted-succeeds : (insert_entity insert_row none entity storage).0 ≡ true
unfolding insert_entity
inserted-succeeds = refl

reload-insert_entity_example :
    (engine : QueryEngine) × (load_all_identifiers identifiers
        (insert_entity insert_row none entity storage).1
        (make_engine 4)
      ≡ some engine)
    × ((t : Text)
        → ((text_eq (c_str entity.identifyer) t || stored identifiers storage.data_dbs t) ≡ true
            → query engine t ≡ some definitely_yes)
          × ((text_eq (c_str entity.identifyer) t || stored identifiers storage.data_dbs t) ≡ false
              → (query engine t ≡ some definitely_no) ⊎ (query engine t ≡ some probably_yes)))
reload-insert_entity_example =
    reload-insert_entity identifiers insert_row 4 none entity storage (omega arith) (omega arith)
      insert_row-Adds inserted-succeeds
