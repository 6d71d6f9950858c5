-- ===== src/Api/Batch/Joined.antt =====
-- The results of a batch as the members of a JSON object.
use mathlib.Core.List.{append_assoc, append-nil}
use akkon.Base.{
  ◌<◌, ◌≡◌, ◌≢◌, refl, ap, ◌∙◌, Option, none, some, List, [], ◌∷◌, ◌++◌, map, All, length, arith,
}
use akkon.Base.Text.{Text, codes}
use akkon.Index.QueryEngine
use akkon.Index.QueryEngine.{QueryEngine, QueryResult, definitely_no}
use akkon.Index.QueryEngine.Refines.{query_total}
use akkon.Api.Batch.{entry, comma, put_entry, batch_results}

-- The members with a comma between each two.
abbrev pub join : List Text → Text
join [] = []
join (m ∷ []) = m
join (m ∷ n ∷ members) = m ++ (codes "," ++ join (n ∷ members))

abbrev pub result_of : Option QueryResult → QueryResult
result_of none = definitely_no
result_of (some r) = r

-- The member that each identifier gets.
abbrev pub members : QueryEngine → List Text → List Text
members e ids = map (λ id. entry id (result_of (QueryEngine.query e id))) ids

abbrev pub AllHashes : List Text → Type 0
AllHashes = All (λ id. length id ≡ 64)

put_entry_lem :
    (e : QueryEngine) (id : Text) (ids : List Text) (text : Text)
    → 0 < length e.filter.bits
    → put_entry id ids (QueryEngine.query e id) (some text)
      ≡ some (entry id (result_of (QueryEngine.query e id)) ++ (comma ids ++ text))
put_entry_lem e id ids text pos = let (r, found) = query_total e id pos in rw found refl

batch_results_step :
    (e : QueryEngine) (id : Text) (ids : List Text) (text : Text)
    → 0 < length e.filter.bits
    → length id ≡ 64
    → batch_results e ids ≡ some text
    → batch_results e (id ∷ ids)
      ≡ some (entry id (result_of (QueryEngine.query e id)) ++ (comma ids ++ text))
unfolding batch_results
batch_results_step e id ids text pos size rest =
    rw (batch_results, size, rest) (put_entry_lem e id ids text pos)

batch_results_other :
    (e : QueryEngine) (id : Text) → length id ≢ 64 → batch_results e (id ∷ []) ≡ some []
unfolding batch_results
batch_results_other e id size = ground (arith, size)

-- Where the filter has bits and all the identifiers have 64 characters, the results are the members for them, in their
-- order, with a comma between each two.
pub batch_results-join :
    (e : QueryEngine) (ids : List Text)
    → 0 < length e.filter.bits
    → AllHashes ids
    → batch_results e ids ≡ some (join (members e ids))
batch_results-join e [] pos h = unfold batch_results in refl
batch_results-join e (id ∷ []) pos h =
    batch_results_step e id [] [] pos h.0 (batch_results-join e [] pos tt) ∙ ap some (append-nil _)
batch_results-join e (id ∷ j ∷ ids) pos h =
    batch_results_step e id (j ∷ ids) _ pos h.0 (batch_results-join e (j ∷ ids) pos h.1)

-- Where an identifier of another length follows them, the results end with a comma, which JSON does
-- not allow.
pub batch_results_comma :
    (e : QueryEngine) (id last : Text) (ids : List Text)
    → 0 < length e.filter.bits
    → AllHashes (id ∷ ids)
    → length last ≢ 64
    → batch_results e (id ∷ ids ++ last ∷ []) ≡ some (join (members e (id ∷ ids)) ++ codes ",")
batch_results_comma e id last [] pos h size =
    batch_results_step e id (last ∷ []) [] pos h.0 (batch_results_other e last size)
batch_results_comma e id last (j ∷ ids) pos h size =
    batch_results_step e id (j ∷ ids ++ last ∷ []) _ pos h.0
      (batch_results_comma e j last ids pos h.1 size)
    ∙ ap some (shape (entry id _) (codes ",") (join (members e (j ∷ ids))))
  where
    shape : (a b c : Text) → a ++ (b ++ (c ++ b)) ≡ a ++ (b ++ c) ++ b
    shape a b c = simp append_assoc
