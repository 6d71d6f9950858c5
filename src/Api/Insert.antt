-- ===== src/Api/Insert.antt =====
-- The insertion of an identifier in the data handler of src/main.cpp.
use akkon.Base.{ℕ, ◌&&◌, Option, none, some, ◌++◌, if◌then◌else◌, length, ◌==◌}
use akkon.Base.Text.{Text, codes}
use akkon.Base.Find.{substr}
use akkon.Memory.Manager.{runtime}
use akkon.Crypto.Sha256.{sha256}
use akkon.Index.QueryEngine
use akkon.Index.QueryEngine.{QueryEngine, QueryResult, definitely_no, probably_yes, definitely_yes}
use akkon.Db.DataStorage.{DbEntity, low_space, insert_entity, error_message}
use akkon.Network.Http.{method_of, path_of, json_response}
use akkon.Api.App.{App, System, answer, count_queries, allocate_in}
use akkon.Api.Broadcast.{log_error}
use akkon.Api.Fields.{extract_json_string}
use akkon.Api.Route.{clean_path, is_short_insert}

abbrev pub success_response : Text
success_response = json_response (codes "200 OK") (codes "{\"status\":\"success\"}")

abbrev pub low_space_response : Text
low_space_response =
    json_response (codes "507 Insufficient Storage") (codes "{\"error\":\"insufficient storage\"}")

abbrev pub duplicate_response : Text
duplicate_response =
    json_response (codes "409 Conflict") (codes "{\"error\":\"duplicate identifier\"}")

abbrev pub invalid_response : Text
invalid_response =
    json_response (codes "400 Bad Request")
      (codes "{\"error\":\"invalid fields or size limits (must be 64 char hashes)\"}")

abbrev pub entity_of : Text → Text → DbEntity
entity_of identifier pwk = record {
  uuid = sha256 (identifier ++ pwk);
  identifyer = identifier;
  pwk = pwk;
}

module _ {Db : Type 0} (sys : System Db) (fd : ℕ) (identifier pwk : Text) where
  -- After `query_engine.insert`; whether the storage has kept the row is not looked at.
  unfoldable pub finish_insert : App Db → Option QueryEngine → Option (App Db)
  finish_insert s none = none
  finish_insert s (some query_engine') = some (
      answer fd success_response (
        allocate_in runtime 256 (
          log_error sys
            (error_message sys.insert_row sys.failure sys.storage_space (entity_of identifier pwk)
              s.data_storage)
            (record s {
              query_engine = query_engine';
              data_storage =
                  (insert_entity sys.insert_row sys.storage_space (entity_of identifier pwk)
                    s.data_storage).1;
            }))))

  -- After `query_engine.query`.
  unfoldable pub insert_unless_known : App Db → Option QueryResult → Option (App Db)
  insert_unless_known s none = none
  insert_unless_known s (some definitely_yes) = some (answer fd duplicate_response s)
  insert_unless_known s (some probably_yes) =
      finish_insert s (QueryEngine.insert s.query_engine identifier)
  insert_unless_known s (some definitely_no) =
      finish_insert s (QueryEngine.insert s.query_engine identifier)

  unfoldable pub insert_fields : App Db → Option (App Db)
  insert_fields s =
      if length identifier == 64 && length pwk == 64
      then (if low_space sys.handler_space
          then some (answer fd low_space_response s)
          else insert_unless_known s (QueryEngine.query s.query_engine identifier))
      else some (answer fd invalid_response s)

-- The two fields of the request, `identifier` and `pwk`.
abbrev pub insert_identifier : Text → Text
insert_identifier request =
    if is_short_insert (method_of request) (clean_path (path_of request))
    then substr (clean_path (path_of request)) 5 64
    else extract_json_string request (codes "identifier")

abbrev pub insert_pwk : Text → Text
insert_pwk request =
    if is_short_insert (method_of request) (clean_path (path_of request))
    then substr (clean_path (path_of request)) 69 64
    else extract_json_string request (codes "pwk")

module _ {Db : Type 0} where
  unfoldable pub handle_insert : System Db → ℕ → Text → App Db → Option (App Db)
  handle_insert sys fd request s =
      insert_fields sys fd (insert_identifier request) (insert_pwk request) (count_queries 1 s)
