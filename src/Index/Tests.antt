-- ===== src/Index/Tests.antt =====
-- The engine for two items, with two identifiers inserted.
use akkon.Base.{◌≡◌, ◌⊎◌, true, false, some, List, [], ◌∷◌, arith}
use akkon.Base.Text.{Text, codes}
use akkon.Index.QueryEngine.{
  QueryEngine, definitely_no, probably_yes, definitely_yes, make_engine, contains, query,
  insert_all,
}
use akkon.Index.QueryEngine.Refines.{query_refines}

abbrev items : List Text
items = codes "0a1b" ∷ codes "ff" ∷ []

query_refines_example :
    (e : QueryEngine) × (insert_all (make_engine 2) items ≡ some e)
    × ((q : Text)
        → (contains items q ≡ true → query e q ≡ some definitely_yes)
          × (contains items q ≡ false
              → (query e q ≡ some definitely_no) ⊎ (query e q ≡ some probably_yes)))
query_refines_example = query_refines 2 items (omega arith) (omega arith)
