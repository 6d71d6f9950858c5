-- ===== src/Api/Handler/Identifiers.antt =====
-- The identifiers: what an insertion leaves for later requests.
use akkon.Base.{
  ℕ, ◌<◌, ◌≡◌, refl, Bool, true, false, ◌||◌, ◌⊎◌, inl, inr, Option, some, length, arith,
}
use akkon.Base.Text.{Text, text_eq, text_eq_refl}
use akkon.Memory.Manager.{runtime}
use akkon.Index.QueryEngine
use akkon.Index.QueryEngine.{QueryEngine, QueryResult, definitely_no, probably_yes, definitely_yes}
use akkon.Index.QueryEngine.Refines.{Holds, inserted, insert_lem, query_lem, inserted-Holds}
use akkon.Db.DataStorage.{low_space, insert_entity, error_message}
use akkon.Db.DataStorage.Failure.{insert_entity-failed}
use akkon.Api.App.{App, System, answer, allocate_in}
use akkon.Api.Insert.{
  entity_of, success_response, low_space_response, duplicate_response, finish_insert,
  insert_unless_known, insert_fields,
}
use akkon.Api.Broadcast.{log_error}
use akkon.Api.Handler.Effects.{log_error-query_engine, log_error-data_storage}
use akkon.Api.Exists.{exists_field, result_response}

module _ {Db : Type 0} (sys : System Db) (fd : ℕ) (identifier pwk : Text) (s : App Db) where
  -- The state after an insertion that the engine accepts.
  abbrev pub stored : App Db
  stored = allocate_in runtime 256 (
      log_error sys
        (error_message sys.insert_row sys.failure sys.storage_space (entity_of identifier pwk)
          s.data_storage)
        (record s {
          query_engine = inserted s.query_engine identifier;
          data_storage =
              (insert_entity sys.insert_row sys.storage_space (entity_of identifier pwk)
                s.data_storage).1;
        }))

  finish_insert_lem :
      0 < length s.query_engine.filter.bits
      → finish_insert sys fd identifier pwk s (QueryEngine.insert s.query_engine identifier)
        ≡ some (answer fd success_response stored)
  unfolding finish_insert
  finish_insert_lem room = rw (insert_lem s.query_engine identifier room) refl

  insert_unless_known-unseen :
      (r : Option QueryResult)
      → 0 < length s.query_engine.filter.bits
      → (r ≡ some definitely_no) ⊎ (r ≡ some probably_yes)
      → insert_unless_known sys fd identifier pwk s r ≡ some (answer fd success_response stored)
  unfolding insert_unless_known
  insert_unless_known-unseen r room (inl e) = rw e (finish_insert_lem room)
  insert_unless_known-unseen r room (inr e) = rw e (finish_insert_lem room)

  pub stored-Holds :
      (seen : Text → Bool)
      → Holds s.query_engine seen
      → Holds stored.query_engine (λ q. text_eq identifier q || seen q)
  stored-Holds seen holds = rw log_error-query_engine (inserted-Holds seen identifier holds)

  -- With an engine that holds the texts of `seen`, and two fields of 64 characters, an insertion is
  -- refused with status 507 for low space, and otherwise with status 409 and no further change if
  -- the identifier is in `seen`; else it is confirmed with status 200, and the engine afterwards
  -- holds the identifier besides the texts of `seen`.
  pub insert_fields_lem :
      (seen : Text → Bool)
      → Holds s.query_engine seen
      → length identifier ≡ 64
      → length pwk ≡ 64
      → (low_space sys.handler_space ≡ true
          → insert_fields sys fd identifier pwk s ≡ some (answer fd low_space_response s))
        × (low_space sys.handler_space ≡ false
            → seen identifier ≡ true
            → insert_fields sys fd identifier pwk s ≡ some (answer fd duplicate_response s))
        × (low_space sys.handler_space ≡ false
            → seen identifier ≡ false
            → (insert_fields sys fd identifier pwk s ≡ some (answer fd success_response stored))
              × Holds stored.query_engine (λ q. text_eq identifier q || seen q))
  unfolding insert_fields insert_unless_known
  insert_fields_lem seen holds id_size pwk_size =
      let answers = query_lem seen identifier holds in
      (
        λ low. rw (insert_fields, id_size, pwk_size, low) refl,
        λ room known. rw (insert_fields, id_size, pwk_size, room, answers.0 known) refl,
        λ room unknown. (
          rw (insert_fields, id_size, pwk_size, room)
              (insert_unless_known-unseen (QueryEngine.query s.query_engine identifier) holds.room
                (answers.1 unknown)),
          stored-Holds seen holds,
        ),
      )

exists_field-seen :
    {Db : Type 0} (fd : ℕ) (identifier : Text) (s : App Db) (seen : Text → Bool)
    → Holds s.query_engine seen
    → length identifier ≡ 64
    → seen identifier ≡ true
    → exists_field fd identifier s ≡ some (answer fd (result_response definitely_yes) s)
unfolding exists_field
exists_field-seen fd identifier s seen holds size known =
    rw (exists_field, size, (query_lem seen identifier holds).0 known) refl

-- With an engine that holds the texts of `seen`, enough space, and two fields of 64 characters whose
-- identifier is not in `seen`, the insertion returns, and a query for the identifier in the state
-- that it leaves, from any client, is answered DEFINITELY_YES.
pub exists_field-insert_fields :
    {Db : Type 0} (sys : System Db) (fd reader : ℕ) (identifier pwk : Text) (s : App Db)
    (seen : Text → Bool)
    → Holds s.query_engine seen
    → length identifier ≡ 64
    → length pwk ≡ 64
    → low_space sys.handler_space ≡ false
    → seen identifier ≡ false
    → (t : App Db) × (insert_fields sys fd identifier pwk s ≡ some t)
      × (exists_field reader identifier t ≡ some (answer reader (result_response definitely_yes) t))
exists_field-insert_fields sys fd reader identifier pwk s seen holds id_size pwk_size room unknown =
    let (done, now) =
      (insert_fields_lem sys fd identifier pwk s seen holds id_size pwk_size).2 room unknown in
    (
      answer fd success_response (stored sys fd identifier pwk s),
      done,
      exists_field-seen reader identifier
          (answer fd success_response (stored sys fd identifier pwk s))
          (λ q. text_eq identifier q || seen q) now id_size
          (ground (arith, text_eq_refl identifier)),
    )

-- As long as the identifier is new and the handler sees enough space, an insertion whose row the
-- storage does not keep is confirmed with status 200 all the same: the databases are unchanged, and
-- the same request sent again is answered with status 409.
pub insert_fields-unkept :
    {Db : Type 0} (sys : System Db) (fd : ℕ) (identifier pwk : Text) (s : App Db)
    (seen : Text → Bool)
    → Holds s.query_engine seen
    → length identifier ≡ 64
    → length pwk ≡ 64
    → low_space sys.handler_space ≡ false
    → seen identifier ≡ false
    → (insert_entity sys.insert_row sys.storage_space (entity_of identifier pwk) s.data_storage).0
      ≡ false
    → (t : App Db) × (insert_fields sys fd identifier pwk s ≡ some (answer fd success_response t))
      × (t.data_storage.data_dbs ≡ s.data_storage.data_dbs)
      × (insert_fields sys fd identifier pwk t ≡ some (answer fd duplicate_response t))
insert_fields-unkept sys fd identifier pwk s seen holds id_size pwk_size room unknown failed =
    let (done, now) =
      (insert_fields_lem sys fd identifier pwk s seen holds id_size pwk_size).2 room unknown in
    let t = stored sys fd identifier pwk s in
    (
      t,
      done,
      rw log_error-data_storage (
          insert_entity-failed sys.insert_row sys.storage_space (entity_of identifier pwk)
            s.data_storage failed),
      (insert_fields_lem sys fd identifier pwk t (λ q. text_eq identifier q || seen q) now id_size
            pwk_size).1
          room (ground (arith, text_eq_refl identifier)),
    )
