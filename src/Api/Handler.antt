-- ===== src/Api/Handler.antt =====
-- The data handler of src/main.cpp, and `serveStaticFile`, in a run without `--debug`. The
-- identifier that it gives each request is an input.
pub mod Effects
pub mod Replies
pub mod Messages
pub mod Outcome
pub mod Identifiers
pub mod Clients
pub mod History
mod Tests
use akkon.Base.{
  ℕ, ◌+◌, ◌*◌, ◌/◌, Bool, true, false, ◌||◌, ◌&&◌, not, Option, none, some, List, [], ◌∷◌, ◌++◌,
  if◌then◌else◌, length,
}
use akkon.Base.Text.{Text, codes, text_eq, starts_with}
use akkon.Security.{LockdownState, safe, close, immediate}
use akkon.Memory.Manager.{request}
use akkon.Network.Server.{close_client, enable_polling}
use akkon.Network.Frame.{decode_frames}
use akkon.Network.Http.{is_http_request, is_akkon_protocol, akkon_response, handle_http}
use akkon.Network.Handshake.{is_websocket_upgrade, generate_handshake_response}
use akkon.Api.App.{
  App, System, send_data, post_action, answer, allocate_in, has_client, insert_client,
}
use akkon.Api.Route.{is_insert, is_exists, is_options}
use akkon.Api.Insert.{handle_insert}
use akkon.Api.Exists.{handle_exists}
use akkon.Api.Batch.{handle_frames}

-- `serveStaticFile`; `read_file` is the file of that name, `none` where it does not open.
abbrev pub static_path : Text → Text
static_path path =
    codes "webview" ++ (if text_eq path (codes "/") then codes "/index.html" else path)

abbrev pub file_or : Option Text → Text
file_or none = codes "404 Not Found"
file_or (some text) = text

pub serve_static_file : (Text → Option Text) → Text → Text
serve_static_file read_file path = file_or (read_file (static_path path))

abbrev pub stats_body : Text
stats_body =
    codes "{\"allocated\": 1024, \"capacity\": 1048576, \"total_queries\": 5, \"hit_rate\": 80.0}"

-- The function that the handler passes to `HttpHandler::handleRequest`.
abbrev pub route_static : (Text → Option Text) → Text → Text
route_static read_file path =
    if starts_with path (codes "/api/stats") then stats_body else serve_static_file read_file path

abbrev pub options_response : Text
options_response =
    codes
      "HTTP/1.1 204 No Content\r\nAccess-Control-Allow-Origin: *\r\nAccess-Control-Allow-Methods: POST, GET, OPTIONS\r\nAccess-Control-Allow-Headers: Content-Type\r\nConnection: close\r\n\r\n"

abbrev pub lockdown_response : Text
lockdown_response =
    codes "HTTP/1.1 503 Service Unavailable\r\n\r\nLOCKDOWN IN EFFECT. ALL REQUESTS BLOCKED."

abbrev pub in_lockdown : LockdownState → Bool
in_lockdown safe = false
in_lockdown close = true
in_lockdown immediate = true

module _ {Db : Type 0} (fd : ℕ) (req : Text) where
  -- The branch of the lockdown.
  pub refuse : App Db → App Db
  refuse s = post_action fd close_client (
      if is_http_request req && not (is_websocket_upgrade req)
      then send_data fd lockdown_response s
      else s)

  pub upgrade : App Db → App Db
  upgrade s =
      post_action fd enable_polling (record (send_data fd (generate_handshake_response req) s) {
        ws_clients = insert_client s.ws_clients fd;
      })

  pub serve_file : System Db → App Db → App Db
  serve_file sys s = answer fd (handle_http req (route_static sys.read_file)) s

  -- A request over HTTP.
  pub handle_request : System Db → App Db → Option (App Db)
  handle_request sys s =
      if is_options req
      then some (answer fd options_response s)
      else if is_insert req
      then handle_insert sys fd req s
      else if is_exists req
      then handle_exists fd req s
      else if is_websocket_upgrade req
      then some (upgrade s)
      else some (serve_file sys s)

  -- A client that is not in `ws_clients`, after the allocation.
  pub handle_other : System Db → App Db → Option (App Db)
  handle_other sys s =
      if is_http_request req || is_options req
      then handle_request sys s
      else if is_akkon_protocol req
      then some (answer fd akkon_response s)
      else some (post_action fd close_client s)

  -- The data handler; `none` is an exception, which nothing catches: it ends the program.
  pub handle : LockdownState → System Db → App Db → Option (App Db)
  handle lockdown sys s =
      if in_lockdown lockdown
      then some (refuse s)
      else if has_client s.ws_clients fd
      then handle_frames fd (decode_frames sys.max_size req) s
      else handle_other sys (allocate_in request ((length req + 63) / 64 * 64) s)
