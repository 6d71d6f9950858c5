-- ===== src/Api/App.antt =====
-- The objects that the data handler of src/main.cpp captures, what it does to the server, and what
-- it asks of the system.
use akkon.Base.{ℕ, ◌+◌, ◌==◌, Bool, false, ◌||◌, Option, List, [], ◌∷◌, ◌++◌, if◌then◌else◌, ltb}
use akkon.Base.Text.{Text, codes}
use akkon.Memory.Arena.{allocate}
use akkon.Memory.Manager.{Manager, with_domain, RuntimeDomain}
use akkon.Index.QueryEngine.{QueryEngine, QueryResult, definitely_no, probably_yes, definitely_yes}
use akkon.Db.DataStorage.{DbEntity, DataStorage}
use akkon.Network.Server.{ActionType, close_client}

-- `sendData`, and the action that `closeClient` or `enablePolling` posts.
pub data Effect : Type 0 where
  sends : ℕ → Text → Effect
  posts : ℕ → ActionType → Effect

pub record App (Db : Type 0) : Type 0 where
  pub query_engine : QueryEngine
  pub data_storage : DataStorage Db
  pub mem_manager : Manager
  pub ws_clients : List ℕ
  pub queries_since_reboot : ℕ
  pub effects : List Effect

-- The system, as one request finds it: the greatest size of a text, the INSERT of SQLite, the files,
-- the free space that the handler and the storage are told (`none` for an exception), the message
-- about an INSERT that fails, the time and the identifier in a line of the log, and what `sendData`
-- returns for each client.
pub record System (Db : Type 0) : Type 0 where
  pub max_size : ℕ
  pub insert_row : Db → DbEntity → Option Db
  pub read_file : Text → Option Text
  pub handler_space : Option ℕ
  pub storage_space : Option ℕ
  pub failure : Text
  pub time : Text
  pub tracker_id : Text
  pub send_ok : ℕ → Bool

module _ {Db : Type 0} where
  abbrev pub send_data : ℕ → Text → App Db → App Db
  send_data fd text s = record s { effects = s.effects ++ sends fd text ∷ [] }

  abbrev pub post_action : ℕ → ActionType → App Db → App Db
  post_action fd type s = record s { effects = s.effects ++ posts fd type ∷ [] }

  -- `server.sendData(client_fd, ...); server.closeClient(client_fd);`
  abbrev pub answer : ℕ → Text → App Db → App Db
  answer fd text s = post_action fd close_client (send_data fd text s)

  abbrev pub count_queries : ℕ → App Db → App Db
  count_queries n s = record s { queries_since_reboot = s.queries_since_reboot + n }

  -- `getDomain(domain)->allocate(size)`, whose result the handler ignores.
  abbrev pub allocate_in : RuntimeDomain → ℕ → App Db → App Db
  allocate_in domain size s = record s {
    mem_manager = with_domain (λ a. (allocate a size).1) s.mem_manager domain;
  }

-- `res_str`.
abbrev pub res_str : QueryResult → Text
res_str definitely_no = codes "DEFINITELY_NO"
res_str probably_yes = codes "PROBABLY_YES"
res_str definitely_yes = codes "DEFINITELY_YES"

-- `std::set<socket_t>`, in increasing order.
abbrev pub has_client : List ℕ → ℕ → Bool
has_client [] fd = false
has_client (c ∷ clients) fd = c == fd || has_client clients fd

pub insert_client : List ℕ → ℕ → List ℕ
insert_client [] fd = fd ∷ []
insert_client (c ∷ clients) fd =
    let later = c ∷ insert_client clients fd in
    if c == fd then c ∷ clients else if ltb fd c then fd ∷ c ∷ clients else later
