-- ===== src/Api/Handler/Tests.antt =====
-- A server that has just started, and a store of rows in memory for SQLite.
use akkon.Base.{
  ◌≡◌, refl, inl, ◌⊎◌, Bool, true, false, none, some, List, [], ◌∷◌, ◌++◌, replicate, arith, ◌||◌,
  ◌^◌, ◌-◌,
}
use akkon.Base.Text.{Text, codes, text_eq}
use akkon.Security.{safe, immediate}
use akkon.Memory.Manager.{make_manager}
use akkon.Index.QueryEngine.{make_engine, definitely_yes}
use akkon.Index.QueryEngine.Refines.{Holds, make_engine-Holds}
use akkon.Db.DataStorage.{DbEntity, low_space, insert_entity}
use akkon.Network.Server.{enable_polling}
use akkon.Network.Frame.{encode_frame}
use akkon.Network.Frame.Wire.{length_digits}
use akkon.Api.App.{App, System, post_action, answer}
use akkon.Api.Insert.{insert_fields, low_space_response, duplicate_response, success_response}
use akkon.Api.Exists.{exists_field, result_response}
use akkon.Index.QueryEngine
use akkon.Monitor.Log.{error}
use akkon.Api.Broadcast.{log_callback, send_all, log_payload}
use akkon.Api.Handler.History.{call, logs, here, next, query-Run}
use akkon.Api.Handler.{refuse, handle}
use akkon.Api.Handler.Effects.{Answered}
use akkon.Api.Handler.Outcome.{handle-Answered}
use akkon.Api.Handler.Identifiers.{
  stored, stored-Holds, insert_fields_lem, exists_field-insert_fields, insert_fields-unkept,
}
use akkon.Api.Handler.Clients.{handle-wrapped, handle-stale}

abbrev Rows : Type 0
Rows = List DbEntity

abbrev system : System Rows
system = record {
  max_size = 2 ^ 62;
  insert_row = λ rows row. some (row ∷ rows);
  read_file = λ path. none;
  handler_space = some (2 ^ 40);
  storage_space = some (2 ^ 40);
  failure = codes "DataStorage insert failed: step rc=13";
  time = codes "Mon Jan  1 00:00:00 2024";
  tracker_id = codes "1f";
  send_ok = λ c. false;
}

-- The client 7 is a WebSocket client.
abbrev app : App Rows
app = record {
  query_engine = make_engine 100;
  data_storage = record { data_dbs = [] ∷ []; round_robin_idx = 0 };
  mem_manager = make_manager (λ d. 4096);
  ws_clients = 7 ∷ [];
  queries_since_reboot = 0;
  effects = [];
}

-- No database could be opened.
abbrev no_storage : App Rows
no_storage = record app { data_storage = record { data_dbs = []; round_robin_idx = 0 } }

abbrev get_request : Text
get_request = codes "GET / HTTP/1.1\r\n\r\n"

abbrev identifier : Text
identifier = replicate 64 b'a'

abbrev pwk : Text
pwk = replicate 64 b'0'

abbrev nothing_seen : Text → Bool
nothing_seen q = false

handle-Answered_example :
    (s' : App Rows) × (handle 5 get_request safe system app ≡ some s')
    × (Answered 5 app.effects s'.effects
        ⊎ ((line : Text) × Answered 5
              (app.effects
                ++ (send_all system.send_ok
                    (encode_frame (log_payload error line))
                    app.ws_clients).1)
              s'.effects))
handle-Answered_example =
    handle-Answered 5 get_request safe system app
      (make_engine-Holds 100 (omega arith) (omega arith)).room (inl refl)

insert_fields_lem_example :
    (low_space system.handler_space ≡ true
      → insert_fields system 5 identifier pwk app ≡ some (answer 5 low_space_response app))
    × (low_space system.handler_space ≡ false
        → nothing_seen identifier ≡ true
        → insert_fields system 5 identifier pwk app ≡ some (answer 5 duplicate_response app))
    × (low_space system.handler_space ≡ false
        → nothing_seen identifier ≡ false
        → (insert_fields system 5 identifier pwk app
            ≡ some (answer 5 success_response (stored system 5 identifier pwk app)))
          × Holds
              (stored system 5 identifier pwk app).query_engine
              (λ q. text_eq identifier q || nothing_seen q))
insert_fields_lem_example =
    insert_fields_lem system 5 identifier pwk app nothing_seen
      (make_engine-Holds 100 (omega arith) (omega arith)) refl refl

exists_field-insert_fields_example :
    (t : App Rows) × (insert_fields system 5 identifier pwk app ≡ some t)
    × (exists_field 6 identifier t ≡ some (answer 6 (result_response definitely_yes) t))
exists_field-insert_fields_example =
    exists_field-insert_fields system 5 6 identifier pwk app nothing_seen
      (make_engine-Holds 100 (omega arith) (omega arith)) refl refl refl refl

insert_fields-unkept_example :
    (t : App Rows) × (insert_fields system 5 identifier pwk no_storage
      ≡ some (answer 5 success_response t))
    × (t.data_storage.data_dbs ≡ no_storage.data_storage.data_dbs)
    × (insert_fields system 5 identifier pwk t ≡ some (answer 5 duplicate_response t))
insert_fields-unkept_example =
    insert_fields-unkept system 5 identifier pwk no_storage nothing_seen
      (make_engine-Holds 100 (omega arith) (omega arith)) refl refl refl refl
      (unfold insert_entity in refl)

handle-wrapped_example :
    handle 7 (0x81 ∷ 127 ∷ length_digits (2 ^ 64 - 1) []) safe system app ≡ none
handle-wrapped_example =
    handle-wrapped 7 safe system app 0x81 (2 ^ 64 - 1) [] refl refl (omega arith) (omega arith)
      (omega arith)

handle-stale_example :
    handle 7 get_request safe system app ≡ some (post_action 7 enable_polling app)
handle-stale_example =
    handle-stale 7 safe system app (codes "T / HTTP/1.1\r\n\r\n") refl refl (omega arith)

-- A request for a file, and then a line of the log.
query-Run_example :
    QueryEngine.query
      (log_callback
        (λ c. false)
        false
        error
        (codes "late")
        (refuse 5 get_request (stored system 5 identifier pwk app))).query_engine
      identifier
    ≡ some definitely_yes
query-Run_example =
    query-Run {s = stored system 5 identifier pwk app} (λ q. text_eq identifier q || nothing_seen q)
      identifier
      (stored-Holds system 5 identifier pwk app nothing_seen
        (make_engine-Holds 100 (omega arith) (omega arith)))
      refl
      (next (next here (call 5 get_request immediate system refused_call))
        (logs (λ c. false) false error (codes "late")))
  where
    refused_call :
        handle 5 get_request immediate system (stored system 5 identifier pwk app)
        ≡ some (refuse 5 get_request (stored system 5 identifier pwk app))
    refused_call = unfold handle in refl
