-- ===== src/Api/Handler/Replies.antt =====
-- The requests over HTTP: each is answered.
use akkon.Base.{ℕ, ◌<◌, ◌++◌, refl, ◌&&◌, inl, inr, Option, none, some, length, ◌==◌}
use akkon.Base.Text.{Text}
use akkon.Index.QueryEngine
use akkon.Index.QueryEngine.{QueryEngine, QueryResult, definitely_no, probably_yes, definitely_yes}
use akkon.Index.QueryEngine.Refines.{inserted, insert_lem, query_total}
use akkon.Db.DataStorage.{low_space, insert_entity, error_message}
use akkon.Network.Server.{close_client, enable_polling}
use akkon.Network.Handshake.{is_websocket_upgrade}
use akkon.Memory.Manager.{runtime}
use akkon.Network.Frame.{encode_frame}
use akkon.Monitor.Log.{error, log}
use akkon.Api.Broadcast.{send_all, log_payload, log_callback, broadcast, log_error}
use akkon.Api.App.{App, System, answer, allocate_in, count_queries}
use akkon.Api.Route.{is_insert, is_exists, is_options}
use akkon.Api.Insert.{
  entity_of, success_response, finish_insert, insert_unless_known, insert_fields, insert_identifier,
  insert_pwk, handle_insert,
}
use akkon.Api.Exists.{exists_field, exists_identifier, handle_exists}
use akkon.Api.Handler.{upgrade, serve_file, handle_request}
use akkon.Api.Handler.Effects.{Completes, if_both, Answered-reply}

module _ {Db : Type 0} (fd : ℕ) where
  finish_insert-Completes :
      (sys : System Db) (identifier pwk : Text) (s : App Db)
      → 0 < length s.query_engine.filter.bits
      → Completes fd sys s
          (finish_insert sys fd identifier pwk s (QueryEngine.insert s.query_engine identifier))
  unfolding finish_insert log_error log log_callback broadcast
  finish_insert-Completes sys identifier pwk s room =
      rw (insert_lem s.query_engine identifier room) (
        by_message (
          error_message sys.insert_row sys.failure sys.storage_space (entity_of identifier pwk)
            s.data_storage))
    where
      stored_app : App Db
      stored_app = record s {
        query_engine = inserted s.query_engine identifier;
        data_storage =
            (insert_entity sys.insert_row sys.storage_space (entity_of identifier pwk)
              s.data_storage).1;
      }

      by_message :
          (message : Option Text)
          → Completes fd sys s (
              some (
                answer fd success_response
                  (allocate_in runtime 256 (log_error sys message stored_app))))
      by_message none = (_, refl, inl (Answered-reply fd s.effects _ close_client))
      by_message (some message) = (
        _,
        refl,
        inr (
          _,
          Answered-reply fd
              (s.effects
                ++ (send_all sys.send_ok (encode_frame (log_payload error _)) s.ws_clients).1)
              _ close_client,
        ),
      )

  replied :
      (sys : System Db) (s : App Db) (text : Text) → Completes fd sys s (some (answer fd text s))
  replied sys s text = (_, refl, inl (Answered-reply fd s.effects text close_client))

  insert_unless_known-Completes :
      (sys : System Db) (identifier pwk : Text) (s : App Db) (r : QueryResult)
      → 0 < length s.query_engine.filter.bits
      → Completes fd sys s (insert_unless_known sys fd identifier pwk s (some r))
  unfolding insert_unless_known
  insert_unless_known-Completes sys identifier pwk s definitely_yes room = (replied sys s _)
  insert_unless_known-Completes sys identifier pwk s probably_yes room =
      finish_insert-Completes sys identifier pwk s room
  insert_unless_known-Completes sys identifier pwk s definitely_no room =
      finish_insert-Completes sys identifier pwk s room

  insert_fields-Completes :
      (sys : System Db) (identifier pwk : Text) (s : App Db)
      → 0 < length s.query_engine.filter.bits
      → Completes fd sys s (insert_fields sys fd identifier pwk s)
  unfolding insert_fields
  insert_fields-Completes sys identifier pwk s room =
      let (r, found) = query_total s.query_engine identifier room in
      if_both (Completes fd sys s) (length identifier == 64 && length pwk == 64) _ _
        (if_both (Completes fd sys s) (low_space sys.handler_space) _ _ (replied sys s _)
          (rw found (insert_unless_known-Completes sys identifier pwk s r room)))
        (replied sys s _)

  exists_field-Completes :
      (sys : System Db) (identifier : Text) (s : App Db)
      → 0 < length s.query_engine.filter.bits
      → Completes fd sys s (exists_field fd identifier s)
  unfolding exists_field
  exists_field-Completes sys identifier s room =
      let (r, found) = query_total s.query_engine identifier room in
      if_both (Completes fd sys s) (length identifier == 64) _ _ (rw found (replied sys s _))
        (replied sys s _)

  pub handle_request-Completes :
      (req : Text) (sys : System Db) (s : App Db)
      → 0 < length s.query_engine.filter.bits
      → Completes fd sys s (handle_request fd req sys s)
  unfolding handle_request handle_insert handle_exists upgrade serve_file
  handle_request-Completes req sys s room =
      if_both (Completes fd sys s) (is_options req) _ _ (replied sys s _) (
        if_both (Completes fd sys s) (is_insert req) _ _
          (insert_fields-Completes sys (insert_identifier req) (insert_pwk req) (count_queries 1 s)
            room)
          (if_both (Completes fd sys s) (is_exists req) _ _
            (exists_field-Completes sys (exists_identifier req) (count_queries 1 s) room)
            (if_both (Completes fd sys s) (is_websocket_upgrade req) _ _
              (_, refl, inl (Answered-reply fd s.effects _ enable_polling)) (replied sys s _))))
