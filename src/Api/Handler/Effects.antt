-- ===== src/Api/Handler/Effects.antt =====
-- What one call of the data handler of src/main.cpp does to the server.
use mathlib.Core.List.{append_assoc}
use akkon.Base.{
  ℕ, ◌≡◌, refl, ap, ◌∙◌, ◌⊎◌, inl, Bool, true, false, Option, none, some, List, [], ◌∷◌, ◌++◌, map,
  if◌then◌else◌,
}
use akkon.Base.Text.{Text}
use akkon.Network.Server.{ActionType}
use akkon.Network.Frame.{encode_frame}
use akkon.Monitor.Log.{error, log}
use akkon.Api.Broadcast.{send_all, log_payload, log_callback, broadcast, log_error}
use akkon.Api.App.{App, System, Effect, sends, posts}

-- What is sent goes to the client, and one action for it follows.
pub record Answered (fd : ℕ) (before after : List Effect) : Type 0 where
  pub sent : List Text
  pub action : ActionType
  pub done : after ≡ before ++ (map (sends fd) sent ++ posts fd action ∷ [])

-- Messages to the client, and no action yet.
pub record Sent (fd : ℕ) (before after : List Effect) : Type 0 where
  pub texts : List Text
  pub done : after ≡ before ++ map (sends fd) texts

module _ {Db : Type 0} (fd : ℕ) where
  -- There is no exception, and the client is answered.
  abbrev pub Finishes : List Effect → Option (App Db) → Type 0
  Finishes before r = (s : App Db) × (r ≡ some s) × Answered fd before s.effects

  -- There is no exception, nothing of the engine changes, and texts are sent to the client.
  abbrev pub Sends : App Db → Option (App Db) → Type 0
  Sends s r =
      (s' : App Db) × (r ≡ some s')
      × (s'.query_engine ≡ s.query_engine)
      × Sent fd s.effects s'.effects

  -- There is no exception, and the client is answered; before that, at most one line of the log is
  -- sent to the WebSocket clients, and those that cannot be reached are closed.
  abbrev pub Completes : System Db → App Db → Option (App Db) → Type 0
  Completes sys s r =
      (s' : App Db) × (r ≡ some s')
      × (Answered fd s.effects s'.effects
          ⊎ ((line : Text) × Answered fd
                (s.effects
                  ++ (send_all sys.send_ok (encode_frame (log_payload error line)) s.ws_clients).1)
                s'.effects))

  pub Finishes-Completes :
      (sys : System Db) (s : App Db) (r : Option (App Db))
      → Finishes s.effects r
      → Completes sys s r
  Finishes-Completes sys s r (s', done, a) = (s', done, inl a)

module _ {Db : Type 0} (sys : System Db) where
  pub log_error-query_engine :
      (message : Option Text) (s : App Db) → (log_error sys message s).query_engine ≡ s.query_engine
  unfolding log_error log log_callback broadcast
  log_error-query_engine none s = refl
  log_error-query_engine (some message) s = refl

  pub log_error-data_storage :
      (message : Option Text) (s : App Db) → (log_error sys message s).data_storage ≡ s.data_storage
  unfolding log_error log log_callback broadcast
  log_error-data_storage none s = refl
  log_error-data_storage (some message) s = refl

module _ {ℓ} {A : Type ℓ} where
  -- Both results of a test have the property.
  pub if_both {κ} : (P : A → Type κ) (b : Bool) (x y : A) → P x → P y → P (if b then x else y)
  if_both P true x y f g = f
  if_both P false x y f g = g

-- One text, and the action.
pub Answered-reply :
    (fd : ℕ) (before : List Effect) (text : Text) (type : ActionType)
    → Answered fd before (before ++ sends fd text ∷ [] ++ posts fd type ∷ [])
Answered-reply fd before text type = record {
  sent = text ∷ [];
  action = type;
  done = append_assoc before (sends fd text ∷ []) (posts fd type ∷ []);
}

pub Answered-silent :
    (fd : ℕ) (before : List Effect) (type : ActionType)
    → Answered fd before (before ++ posts fd type ∷ [])
Answered-silent fd before type = record { sent = []; action = type; done = refl }

sends-append :
    (fd : ℕ) (xs ys : List Text)
    → map (sends fd) xs ++ map (sends fd) ys ≡ map (sends fd) (xs ++ ys)
sends-append fd [] ys = refl
sends-append fd (x ∷ xs) ys = ap (λ t. sends fd x ∷ t) (sends-append fd xs ys)

pub Answered-after :
    {fd : ℕ} {before middle after : List Effect}
    → Sent fd before middle
    → Answered fd middle after
    → Answered fd before after
Answered-after {fd} {before} {middle} {after} m a = record {
  sent = m.texts ++ a.sent;
  action = a.action;
  done =
      a.done
      ∙ ap (λ t. t ++ (map (sends fd) a.sent ++ posts fd a.action ∷ [])) m.done
      ∙ rw
          (
            append_assoc before (map (sends fd) m.texts)
                (map (sends fd) a.sent ++ posts fd a.action ∷ []),
            ← append_assoc (map (sends fd) m.texts) (map (sends fd) a.sent)
                (posts fd a.action ∷ []),
            sends-append fd m.texts a.sent,
          )
          refl;
}
