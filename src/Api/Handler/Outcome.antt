-- ===== src/Api/Handler/Outcome.antt =====
-- What every call of the data handler has in common.
use akkon.Base.{
  ℕ, ◌<◌, ◌+◌, ◌*◌, ◌/◌, ◌≡◌, ◌⊎◌, inl, inr, refl, Bool, true, false, ◌||◌, not, ◌&&◌, some, List,
  [], ◌∷◌, ◌++◌, length, if◌then◌else◌,
}
use akkon.Base.Text.{Text}
use akkon.Security.{LockdownState}
use akkon.Memory.Manager.{request}
use akkon.Network.Server.{close_client}
use akkon.Network.Frame.{decode_frames, payloads, encode_frame}
use akkon.Monitor.Log.{error}
use akkon.Api.Broadcast.{send_all, log_payload}
use akkon.Network.Http.{is_http_request, is_akkon_protocol}
use akkon.Network.Handshake.{is_websocket_upgrade}
use akkon.Api.App.{App, System, allocate_in, has_client, send_data, posts}
use akkon.Api.Route.{is_options}
use akkon.Api.Batch.{handle_frames}
use akkon.Api.Handler.{in_lockdown, refuse, lockdown_response, handle_other, handle}
use akkon.Api.Handler.Effects.{
  Answered, Completes, Finishes-Completes, if_both, Answered-reply, Answered-silent,
}
use akkon.Api.Handler.Replies.{handle_request-Completes}
use akkon.Api.Handler.Messages.{handle_frames-Finishes}

module _ {Db : Type 0} (fd : ℕ) (req : Text) where
  refuse-Answered : (s : App Db) → Answered fd s.effects (refuse fd req s).effects
  unfolding refuse
  refuse-Answered s = by_test (is_http_request req && not (is_websocket_upgrade req))
    where
      by_test :
          (b : Bool)
          → Answered fd s.effects (
              (if b then send_data fd lockdown_response s else s).effects
              ++ posts fd close_client ∷ [])
      by_test true = Answered-reply fd s.effects lockdown_response close_client
      by_test false = Answered-silent fd s.effects close_client

  handle_other-Completes :
      (sys : System Db) (s : App Db)
      → 0 < length s.query_engine.filter.bits
      → Completes fd sys s (handle_other fd req sys s)
  unfolding handle_other
  handle_other-Completes sys s room =
      if_both (Completes fd sys s) (is_http_request req || is_options req) _ _
        (handle_request-Completes fd req sys s room)
        (if_both (Completes fd sys s) (is_akkon_protocol req) _ _
          (_, refl, inl (Answered-reply fd s.effects _ close_client))
          (_, refl, inl (Answered-silent fd s.effects close_client)))

  -- The bytes of a WebSocket client decode without an exception; other bytes are not decoded.
  abbrev pub Decodes : System Db → App Db → Type 0
  Decodes sys s =
      (has_client s.ws_clients fd ≡ false)
      ⊎ ((ps : List Text) × (decode_frames sys.max_size req ≡ payloads ps))

  -- Without the option for debugging, with a filter of at least one bit, and if the client is not a
  -- WebSocket client or its frames decode without an exception, the data handler returns, whatever
  -- the request, the lockdown state and the system are. First it may send one line of the level ERROR
  -- to the WebSocket clients, and close those that it cannot be sent to; all else that it sends goes
  -- to its own client, and then it posts one action, for that client.
  pub handle-Answered :
      (lockdown : LockdownState) (sys : System Db) (s : App Db)
      → 0 < length s.query_engine.filter.bits
      → Decodes sys s
      → (s' : App Db) × (handle fd req lockdown sys s ≡ some s')
        × (Answered fd s.effects s'.effects
            ⊎ ((line : Text) × Answered fd
                  (s.effects
                    ++ (send_all sys.send_ok
                        (encode_frame (log_payload error line))
                        s.ws_clients).1)
                  s'.effects))
  unfolding handle
  handle-Answered lockdown sys s room decodes =
      if_both (Completes fd sys s) (in_lockdown lockdown) _ _
        (refuse fd req s, refl, inl (refuse-Answered s)) (by_client decodes)
    where
      by_client :
          Decodes sys s
          → Completes fd sys s (
              if has_client s.ws_clients fd
              then handle_frames fd (decode_frames sys.max_size req) s
              else handle_other fd req sys (allocate_in request ((length req + 63) / 64 * 64) s))
      by_client (inl other) = rw other (handle_other-Completes sys _ room)
      by_client (inr (ps, decoded)) =
          if_both (Completes fd sys s) (has_client s.ws_clients fd) _ _
            (rw decoded (Finishes-Completes fd sys s _ (handle_frames-Finishes fd ps s room)))
            (handle_other-Completes sys _ room)
