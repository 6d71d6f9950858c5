-- ===== src/Api/Handler/History.antt =====
-- The identifiers over a whole run: calls of the data handler, broadcasts and log lines in any order.
use mathlib.Core.Path.{subst}
use mathlib.Core.Option.{some-injective}
use akkon.Base.{
  ℕ, ◌+◌, ◌*◌, ◌/◌, ◌≡◌, refl, sym, ◌∙◌, Bool, true, false, ◌||◌, ◌&&◌, not, Option, none, some,
  List, [], ◌∷◌, length, ◌==◌, arith,
}
use akkon.Base.Text.{Text, codes, text_eq}
use akkon.Security.{LockdownState}
use akkon.Memory.Manager.{request}
use akkon.Index.QueryEngine
use akkon.Index.QueryEngine.{QueryEngine, QueryResult, definitely_no, probably_yes, definitely_yes}
use akkon.Index.QueryEngine.Refines.{Holds, insert_lem, inserted-Holds, query_lem}
use akkon.Db.DataStorage.{low_space}
use akkon.Network.Frame.{Decoded, payloads, length_error, decode_frames}
use akkon.Network.Http.{is_http_request, is_akkon_protocol}
use akkon.Network.Handshake.{is_websocket_upgrade}
use akkon.Monitor.Health.{Cache}
use akkon.Monitor.Log.{LogLevel}
use akkon.Api.App.{App, System, allocate_in, has_client, count_queries, send_data}
use akkon.Api.Route.{is_insert, is_exists, is_options}
use akkon.Api.Fields.{extract_json_string, extract_json_array}
use akkon.Api.Insert.{
  finish_insert, insert_unless_known, insert_fields, insert_identifier, insert_pwk, handle_insert,
}
use akkon.Api.Exists.{answer_result, exists_field, exists_identifier, handle_exists}
use akkon.Api.Batch.{
  send_results, batch_results, batch_queries, answer_batch, handle_payload, handle_payloads,
  handle_frames,
}
use akkon.Api.Broadcast.{broadcast, log_callback, Tick, tick}
use akkon.Api.Handler.{
  in_lockdown, lockdown_response, refuse, upgrade, serve_file, handle_request, handle_other, handle,
}
use akkon.Api.Handler.Effects.{if_both, log_error-query_engine}

-- Whatever one engine holds, the other holds, perhaps with more.
abbrev pub Grows : QueryEngine → QueryEngine → Type 0
Grows e e' =
    (seen : Text → Bool)
    → Holds e seen
    → (seen' : Text → Bool) × Holds e' seen' × ((q : Text) → seen q ≡ true → seen' q ≡ true)

Grows-refl : (e : QueryEngine) → Grows e e
Grows-refl e seen h = (seen, h, λ q k. k)

Grows-trans : (e f g : QueryEngine) → Grows e f → Grows f g → Grows e g
Grows-trans e f g r s seen h =
    let (seen', h', more) = r seen h in
    let (seen'', h'', most) = s seen' h' in (seen'', h'', λ q k. most q (more q k))

module _ {Db : Type 0} where
  -- The result, if there is one.
  abbrev pub Keeps : QueryEngine → Option (App Db) → Type 0
  Keeps e none = Unit
  Keeps e (some s) = Grows e s.query_engine

  module _ (fd : ℕ) where
    finish_insert-Keeps :
        (sys : System Db) (identifier pwk : Text) (s : App Db)
        → Keeps s.query_engine
            (finish_insert sys fd identifier pwk s (QueryEngine.insert s.query_engine identifier))
    unfolding finish_insert
    finish_insert-Keeps sys identifier pwk s =
        by_result (QueryEngine.insert s.query_engine identifier) refl
      where
        by_result :
            (r : Option QueryEngine)
            → QueryEngine.insert s.query_engine identifier ≡ r
            → Keeps s.query_engine (finish_insert sys fd identifier pwk s r)
        by_result none e = tt
        by_result (some accepted) e = λ seen h. (
          λ q. text_eq identifier q || seen q,
          rw log_error-query_engine (
              subst (λ engine. Holds engine (λ q. text_eq identifier q || seen q))
                (some-injective _ _ (sym (insert_lem s.query_engine identifier h.room) ∙ e))
                (inserted-Holds seen identifier h)),
          λ q k. ground (arith, k),
        )

    insert_unless_known-Keeps :
        (sys : System Db) (identifier pwk : Text) (s : App Db) (r : Option QueryResult)
        → Keeps s.query_engine (insert_unless_known sys fd identifier pwk s r)
    unfolding insert_unless_known
    insert_unless_known-Keeps sys identifier pwk s none = tt
    insert_unless_known-Keeps sys identifier pwk s (some definitely_yes) = Grows-refl s.query_engine
    insert_unless_known-Keeps sys identifier pwk s (some probably_yes) =
        finish_insert-Keeps sys identifier pwk s
    insert_unless_known-Keeps sys identifier pwk s (some definitely_no) =
        finish_insert-Keeps sys identifier pwk s

    insert_fields-Keeps :
        (sys : System Db) (identifier pwk : Text) (s : App Db)
        → Keeps s.query_engine (insert_fields sys fd identifier pwk s)
    unfolding insert_fields
    insert_fields-Keeps sys identifier pwk s =
        if_both (Keeps s.query_engine) (length identifier == 64 && length pwk == 64) _ _
          (if_both (Keeps s.query_engine) (low_space sys.handler_space) _ _
            (Grows-refl s.query_engine)
            (insert_unless_known-Keeps sys identifier pwk s
              (QueryEngine.query s.query_engine identifier)))
          (Grows-refl s.query_engine)

    answer_result-Keeps :
        (s : App Db) (r : Option QueryResult) → Keeps s.query_engine (answer_result fd s r)
    answer_result-Keeps s none = tt
    answer_result-Keeps s (some r) = Grows-refl s.query_engine

    handle_request-Keeps :
        (req : Text) (sys : System Db) (s : App Db)
        → Keeps s.query_engine (handle_request fd req sys s)
    unfolding handle_request handle_insert handle_exists exists_field upgrade serve_file
    handle_request-Keeps req sys s =
        if_both (Keeps s.query_engine) (is_options req) _ _ (Grows-refl s.query_engine) (
          if_both (Keeps s.query_engine) (is_insert req) _ _
            (insert_fields-Keeps sys (insert_identifier req) (insert_pwk req) (count_queries 1 s))
            (if_both (Keeps s.query_engine) (is_exists req) _ _
              (if_both (Keeps s.query_engine) (length (exists_identifier req) == 64) _ _
                (answer_result-Keeps (count_queries 1 s)
                  (QueryEngine.query s.query_engine (exists_identifier req)))
                (Grows-refl s.query_engine))
              (if_both (Keeps s.query_engine) (is_websocket_upgrade req) _ _
                (Grows-refl s.query_engine) (Grows-refl s.query_engine))))

    send_results-Keeps :
        (batch_id : Text) (s : App Db) (r : Option Text)
        → Keeps s.query_engine (send_results fd batch_id s r)
    send_results-Keeps batch_id s none = tt
    send_results-Keeps batch_id s (some r) = Grows-refl s.query_engine

    handle_payload-Keeps :
        (payload : Text) (s : App Db) → Keeps s.query_engine (handle_payload fd payload s)
    unfolding handle_payload answer_batch
    handle_payload-Keeps payload s =
        if_both (Keeps s.query_engine)
          (text_eq (extract_json_string payload (codes "action")) (codes "exists_batch")) _ _
          (send_results-Keeps (extract_json_string payload (codes "batch_id"))
            (count_queries (batch_queries (extract_json_array payload (codes "identifiers"))) s)
            (batch_results s.query_engine (extract_json_array payload (codes "identifiers"))))
          (Grows-refl s.query_engine)

    handle_payloads-Keeps :
        (ps : List Text) (s : App Db) → Keeps s.query_engine (handle_payloads fd ps s)
    unfolding handle_payloads
    handle_payloads-Keeps [] s = Grows-refl s.query_engine
    handle_payloads-Keeps (p ∷ ps) s =
        by_result (handle_payload fd p s) (handle_payload-Keeps p s) (handle_payloads-Keeps ps)
      where
        by_result :
            (r : Option (App Db))
            → Keeps s.query_engine r
            → ((t : App Db) → Keeps t.query_engine (handle_payloads fd ps t))
            → Keeps s.query_engine (elim r as (λ _. Option (App Db)) [
              | none ↦ none
              | some t ↦ handle_payloads fd ps t
            ])
        by_result none k rest = tt
        by_result (some t) k rest = joined (handle_payloads fd ps t) (rest t)
          where
            joined : (r : Option (App Db)) → Keeps t.query_engine r → Keeps s.query_engine r
            joined none h = tt
            joined (some u) h = Grows-trans s.query_engine t.query_engine u.query_engine k h

    handle_frames-Keeps : (d : Decoded) (s : App Db) → Keeps s.query_engine (handle_frames fd d s)
    unfolding handle_frames
    handle_frames-Keeps length_error s = tt
    handle_frames-Keeps (payloads ps) s = handle_payloads-Keeps ps s

    handle-Keeps :
        (req : Text) (lockdown : LockdownState) (sys : System Db) (s : App Db)
        → Keeps s.query_engine (handle fd req lockdown sys s)
    unfolding handle handle_other
    handle-Keeps req lockdown sys s =
        if_both (Keeps s.query_engine) (in_lockdown lockdown) _ _ (refuse-Grows s) (
          if_both (Keeps s.query_engine) (has_client s.ws_clients fd) _ _
            (handle_frames-Keeps (decode_frames sys.max_size req) s)
            (if_both (Keeps s.query_engine) (is_http_request req || is_options req) _ _
              (handle_request-Keeps req sys (allocate_in request ((length req + 63) / 64 * 64) s))
              (if_both (Keeps s.query_engine) (is_akkon_protocol req) _ _
                (Grows-refl s.query_engine) (Grows-refl s.query_engine))))
      where
        refuse-Grows : (t : App Db) → Grows t.query_engine (refuse fd req t).query_engine
        refuse-Grows t =
            unfold refuse in
            if_both (λ (u : App Db). Grows t.query_engine u.query_engine)
              (is_http_request req && not (is_websocket_upgrade req))
              (send_data fd lockdown_response t) t (Grows-refl t.query_engine)
              (Grows-refl t.query_engine)

  -- A call of the data handler that returns, a round of the broadcast, and a line of the log.
  pub data Step (s : App Db) : App Db → Type 0 where
    call :
        {t : App Db} (fd : ℕ) (req : Text) (lockdown : LockdownState) (sys : System Db)
        → handle fd req lockdown sys s ≡ some t
        → Step s t
    broadcasts :
        (send_ok : ℕ → Bool) (t : Tick) (cache : Cache) (lockdown : LockdownState)
        → Step s (tick send_ok t s cache lockdown).0
    logs :
        (send_ok : ℕ → Bool) (in_log_callback : Bool) (level : LogLevel) (line : Text)
        → Step s (log_callback send_ok in_log_callback level line s)

  pub data Run (s : App Db) : App Db → Type 0 where
    here : Run s s
    next : {t u : App Db} → Run s t → Step t u → Run s u

  Step-Grows : {s t : App Db} → Step s t → Grows s.query_engine t.query_engine
  unfolding tick broadcast log_callback
  Step-Grows {s} (call fd req lockdown sys e) =
      subst (Keeps s.query_engine) e (handle-Keeps fd req lockdown sys s)
  Step-Grows {s} (broadcasts send_ok t cache lockdown) = Grows-refl s.query_engine
  Step-Grows {s} (logs send_ok true level line) = Grows-refl s.query_engine
  Step-Grows {s} (logs send_ok false level line) = Grows-refl s.query_engine

  Run-Grows : {s t : App Db} → Run s t → Grows s.query_engine t.query_engine
  Run-Grows {s} here = Grows-refl s.query_engine
  Run-Grows {s} {t = u} (next {t} r step) =
      Grows-trans s.query_engine t.query_engine u.query_engine (Run-Grows r) (Step-Grows step)

  -- Once the engine holds the texts of `seen`, every query for one of them, after any calls of the
  -- data handler that return, rounds of the broadcast and lines of the log, in any order, answers
  -- DEFINITELY_YES.
  pub query-Run :
      {s t : App Db} (seen : Text → Bool) (identifier : Text)
      → Holds s.query_engine seen
      → seen identifier ≡ true
      → Run s t
      → QueryEngine.query t.query_engine identifier ≡ some definitely_yes
  query-Run seen identifier h known r =
      let (seen', held, more) = Run-Grows r seen h in
      (query_lem seen' identifier held).0 (more identifier known)
