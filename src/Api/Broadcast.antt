-- ===== src/Api/Broadcast.antt =====
-- What src/main.cpp sends to all WebSocket clients: the log lines, and every two seconds the state
-- of the system. `send_ok` is what `sendData` returns for each client.
pub mod Clients
use akkon.Base.{ℕ, ◌+◌, Bool, true, false, Option, none, some, List, [], ◌∷◌, ◌++◌, if◌then◌else◌}
use akkon.Base.Int.{ℤ, pos, negsuc}
use akkon.Base.Text.{Text, codes}
use akkon.Base.Decimal.{to_string}
use akkon.Security.{LockdownState}
use akkon.Memory.Arena.{Arena}
use akkon.Memory.Manager.{Manager, RuntimeDomain, runtime, request, get_domain, reset_domain}
use akkon.Network.Server.{close_client}
use akkon.Network.Frame.{encode_frame}
use akkon.Monitor.Health.{HealthStats, Smart, Cache, check_health}
use akkon.Monitor.Log.{LogLevel, error, level_number, log}
use akkon.Api.App.{App, System, Effect, sends, posts}
use akkon.Construction.Metrics.{Metrics, int_text}
use akkon.Api.Json.{escape_json_string}

-- The loop over `ws_clients`: the clients that stay, and what is done.
pub send_all : (ℕ → Bool) → List ℕ → List ℕ → List ℕ × List Effect
send_all send_ok frame [] = ([], [])
send_all send_ok frame (c ∷ clients) =
    let rest = send_all send_ok frame clients in
    if send_ok c
    then (c ∷ rest.0, sends c frame ∷ rest.1)
    else (rest.0, sends c frame ∷ posts c close_client ∷ rest.1)

module _ {Db : Type 0} where
  unfoldable pub broadcast : (ℕ → Bool) → List ℕ → App Db → App Db
  broadcast send_ok frame s =
      let sent = send_all send_ok frame s.ws_clients in
      record s { ws_clients = sent.0; effects = s.effects ++ sent.1 }

abbrev pub log_head : LogLevel → Text
log_head level =
    codes "{\"action\":\"log\", \"level\":"
    ++ (to_string (level_number level) ++ codes ", \"message\":\"")

abbrev pub log_payload : LogLevel → Text → Text
log_payload level formatted_log =
    log_head level ++ (escape_json_string formatted_log ++ codes "\"}")

module _ {Db : Type 0} where
  -- The callback of the log; the flag is `in_log_callback`, which is as before when it returns.
  unfoldable pub log_callback : (ℕ → Bool) → Bool → LogLevel → Text → App Db → App Db
  log_callback send_ok in_log_callback level formatted_log s =
      if in_log_callback
      then s
      else broadcast send_ok (encode_frame (log_payload level formatted_log)) s

  -- The callback is called with the line, where there is one.
  abbrev pub log_line : (ℕ → Bool) → LogLevel → Option Text → App Db → App Db
  log_line send_ok level none s = s
  log_line send_ok level (some line) s = log_callback send_ok false level line s

  -- `SystemMonitor::log` at the level ERROR, outside the debug mode, where there is a message.
  unfoldable pub log_error : System Db → Option Text → App Db → App Db
  log_error sys none s = s
  log_error sys (some message) s =
      log_line sys.send_ok error (log false error sys.time message sys.tracker_id) s

abbrev pub used_of : Option Arena → ℕ
used_of none = 0
used_of (some arena) = arena.used

abbrev pub capacity_at : Option Arena → ℕ
capacity_at none = 0
capacity_at (some arena) = arena.capacity

abbrev pub ram_runtime_of : Manager → ℕ
ram_runtime_of m = used_of (get_domain m runtime)

abbrev pub ram_request_of : Manager → ℕ
ram_request_of m = used_of (get_domain m request)

abbrev pub ram_capacity_of : Manager → ℕ
ram_capacity_of m = capacity_at (get_domain m runtime) + capacity_at (get_domain m request)

unfoldable pub stats_payload : Metrics → ℕ → Text
stats_payload row reboot_queries =
    codes "{\"action\":\"stats\", \"reliability\":"
    ++ (int_text row.reliability
        ++ (codes ", \"disk_space\":"
            ++ (to_string row.disk_space
                ++ (codes ", \"ram_allocated\":"
                    ++ (to_string row.ram_allocated
                        ++ (codes ", \"ram_runtime\":"
                            ++ (to_string row.ram_runtime
                                ++ (codes ", \"ram_request\":"
                                    ++ (to_string row.ram_request
                                        ++ (codes ", \"ram_capacity\":"
                                            ++ (to_string row.ram_capacity
                                                ++ (codes ", \"total_queries\":"
                                                    ++ (to_string row.total_queries
                                                        ++ (codes ", \"reboot_queries\":"
                                                            ++ (to_string reboot_queries
                                                            ++ codes "}")))))))))))))))

-- What one round of the broadcast finds: the time, as seconds and as text, the drive, the free
-- space, and the number of queries before this start of the program.
pub record Tick : Type 0 where
  pub now : ℕ
  pub timestamp : Text
  pub smart : Smart
  pub available : Option ℕ
  pub lifetime_init : ℕ

module _ {Db : Type 0} where
  -- The row of the metrics, the cache of the health check and the lockdown after it.
  unfoldable pub measure : Tick → App Db → Cache → LockdownState → Metrics × Cache × LockdownState
  measure t s cache lockdown =
      let ram_allocated = ram_runtime_of s.mem_manager + ram_request_of s.mem_manager in
      let ram_capacity = ram_capacity_of s.mem_manager in
      let checked =
        check_health t.now t.smart t.available ram_allocated ram_capacity cache lockdown in
      (
        record {
          timestamp = t.timestamp;
          ram_allocated = ram_allocated;
          ram_runtime = ram_runtime_of s.mem_manager;
          ram_request = ram_request_of s.mem_manager;
          ram_capacity = ram_capacity;
          disk_space = checked.0.available_disk_bytes;
          reliability = checked.0.reliability_score;
          total_queries = t.lifetime_init + s.queries_since_reboot;
        },
        checked.1,
        checked.2,
      )

  -- One round after the sleep: the measures, the broadcast, and the reset of the request domain.
  unfoldable pub tick :
      (ℕ → Bool) → Tick → App Db → Cache → LockdownState → App Db × Metrics × Cache × LockdownState
  tick send_ok t s cache lockdown =
      let measured = measure t s cache lockdown in
      let s' =
        broadcast send_ok (encode_frame (stats_payload measured.0 s.queries_since_reboot)) s in
      (
        record s' { mem_manager = reset_domain s'.mem_manager request },
        measured.0,
        measured.1,
        measured.2,
      )
