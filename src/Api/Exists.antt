-- ===== src/Api/Exists.antt =====
-- The query for an identifier in the data handler of src/main.cpp.
use akkon.Base.{ℕ, Option, none, some, ◌++◌, if◌then◌else◌, length, ◌==◌}
use akkon.Base.Text.{Text, codes}
use akkon.Base.Find.{substr}
use akkon.Index.QueryEngine
use akkon.Index.QueryEngine.{QueryEngine, QueryResult}
use akkon.Network.Http.{method_of, path_of, json_response}
use akkon.Api.App.{App, answer, count_queries, res_str}
use akkon.Api.Fields.{extract_query_string}
use akkon.Api.Route.{clean_path, is_short_exists}

abbrev pub result_response : QueryResult → Text
result_response res =
    json_response (codes "200 OK") (codes "{\"result\":\"" ++ (res_str res ++ codes "\"}"))

abbrev pub invalid_response : Text
invalid_response =
    json_response (codes "400 Bad Request")
      (codes "{\"error\":\"invalid identifier size (must be 64 char hash)\"}")

abbrev pub exists_identifier : Text → Text
exists_identifier request =
    if is_short_exists (method_of request) (clean_path (path_of request))
    then substr (clean_path (path_of request)) 5 64
    else extract_query_string request (codes "identifier")

module _ {Db : Type 0} (fd : ℕ) where
  abbrev pub answer_result : App Db → Option QueryResult → Option (App Db)
  answer_result s none = none
  answer_result s (some res) = some (answer fd (result_response res) s)

  unfoldable pub exists_field : Text → App Db → Option (App Db)
  exists_field identifier s =
      if length identifier == 64
      then answer_result s (QueryEngine.query s.query_engine identifier)
      else some (answer fd invalid_response s)

  unfoldable pub handle_exists : Text → App Db → Option (App Db)
  handle_exists request s = exists_field (exists_identifier request) (count_queries 1 s)
