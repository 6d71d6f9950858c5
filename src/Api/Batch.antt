-- ===== src/Api/Batch.antt =====
-- The messages of WebSocket clients in the data handler of src/main.cpp.
pub mod Joined
use akkon.Base.{
  ℕ, zero, suc, ◌+◌, Bool, true, false, Option, none, some, List, [], ◌∷◌, ◌++◌, if◌then◌else◌,
  length, ◌==◌,
}
use akkon.Base.Text.{Text, codes, text_eq}
use akkon.Index.QueryEngine
use akkon.Index.QueryEngine.{QueryEngine, QueryResult}
use akkon.Network.Server.{enable_polling}
use akkon.Network.Frame.{Decoded, payloads, length_error, encode_frame}
use akkon.Api.App.{App, send_data, post_action, count_queries, res_str}
use akkon.Api.Fields.{quote, extract_json_string, extract_json_array}

-- `"id":"result"`.
abbrev pub entry : Text → QueryResult → Text
entry id qres = quote ++ (id ++ (codes "\":\"" ++ (res_str qres ++ quote)))

-- `if (i + 1 < ids.size())`, by the ids that follow.
abbrev pub comma : List Text → Text
comma [] = []
comma (id ∷ ids) = codes ","

abbrev pub put_entry : Text → List Text → Option QueryResult → Option Text → Option Text
put_entry id ids none rest = none
put_entry id ids (some qres) none = none
put_entry id ids (some qres) (some text) = some (entry id qres ++ (comma ids ++ text))

-- The loop over the identifiers; `none` is an exception of the filter.
unfoldable pub batch_results : QueryEngine → List Text → Option Text
batch_results e [] = some []
batch_results e (id ∷ ids) =
    let rest = batch_results e ids in
    if length id == 64 then put_entry id ids (QueryEngine.query e id) rest else rest

-- What the loop adds to `g_queries_since_reboot`.
pub batch_queries : List Text → ℕ
batch_queries [] = 0
batch_queries (id ∷ ids) =
    let rest = batch_queries ids in if length id == 64 then suc rest else rest

abbrev pub batch_response : Text → Text → Text
batch_response batch_id results =
    codes "{\"action\":\"exists_batch_response\", \"batch_id\":\""
    ++ (batch_id ++ (codes "\", \"results\":{" ++ (results ++ codes "}}")))

module _ {Db : Type 0} (fd : ℕ) where
  abbrev pub send_results : Text → App Db → Option Text → Option (App Db)
  send_results batch_id s none = none
  send_results batch_id s (some results) =
      some (send_data fd (encode_frame (batch_response batch_id results)) s)

  unfoldable pub answer_batch : List Text → Text → App Db → Option (App Db)
  answer_batch ids batch_id s =
      send_results batch_id (count_queries (batch_queries ids) s) (batch_results s.query_engine ids)

  unfoldable pub handle_payload : Text → App Db → Option (App Db)
  handle_payload payload s =
      if text_eq (extract_json_string payload (codes "action")) (codes "exists_batch")
      then answer_batch (extract_json_array payload (codes "identifiers"))
          (extract_json_string payload (codes "batch_id")) s
      else some s

  unfoldable pub handle_payloads : List Text → App Db → Option (App Db)
  handle_payloads [] s = some (post_action fd enable_polling s)
  handle_payloads (payload ∷ rest) s = elim (handle_payload payload s) [
    | none ↦ none
    | some s' ↦ handle_payloads rest s'
  ]

  -- The branch of the clients in `ws_clients`; `none` is an exception.
  unfoldable pub handle_frames : Decoded → App Db → Option (App Db)
  handle_frames length_error s = none
  handle_frames (payloads ps) s = handle_payloads ps s
