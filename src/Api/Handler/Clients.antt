-- ===== src/Api/Handler/Clients.antt =====
-- The clients that the handler takes for WebSocket clients.
use akkon.Base.{ℕ, ◌-◌, ◌^◌, ◌<◌, ◌≤◌, ◌≡◌, refl, true, false, none, some, List, ◌∷◌, length}
use akkon.Security.{LockdownState}
use akkon.Network.Server.{enable_polling}
use akkon.Network.Frame.Wire.{length_digits}
use akkon.Network.Frame.Limits.{decode_frames_wraps, decode_frames-get}
use akkon.Api.App.{App, System, post_action, has_client}
use akkon.Api.Batch.{handle_payloads, handle_frames}
use akkon.Api.Handler.{in_lockdown, handle}

module _ {Db : Type 0} (fd : ℕ) where
  -- With no lockdown in effect, a WebSocket client that sends an unmasked frame header whose length
  -- is within ten of 2 ^ 64 ends the program by an exception, if strings are shorter than 2 ^ 63.
  pub handle-wrapped :
      (lockdown : LockdownState) (sys : System Db) (s : App Db) (first n : ℕ) (rest : List ℕ)
      → in_lockdown lockdown ≡ false
      → has_client s.ws_clients fd ≡ true
      → sys.max_size < 2 ^ 63
      → 2 ^ 64 - 10 ≤ n
      → n < 2 ^ 64
      → handle fd (first ∷ 127 ∷ length_digits n rest) lockdown sys s ≡ none
  unfolding handle handle_frames
  handle-wrapped lockdown sys s first n rest calm client m h k =
      rw (handle, calm, client, decode_frames_wraps sys.max_size first n rest m h k) refl

  -- With no lockdown in effect, an HTTP request of less than 71 bytes that begins like GET is not
  -- answered if the descriptor of its client is still in `ws_clients`: the handler sends nothing and
  -- waits for more.
  pub handle-stale :
      (lockdown : LockdownState) (sys : System Db) (s : App Db) (rest : List ℕ)
      → in_lockdown lockdown ≡ false
      → has_client s.ws_clients fd ≡ true
      → length rest < 69
      → handle fd (b'G' ∷ b'E' ∷ rest) lockdown sys s ≡ some (post_action fd enable_polling s)
  unfolding handle handle_frames handle_payloads
  handle-stale lockdown sys s rest calm client short =
      rw (handle, calm, client, decode_frames-get sys.max_size rest short) refl
