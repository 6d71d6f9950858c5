-- ===== src/Api/Broadcast/Clients.antt =====
-- What the clients get from a broadcast.
use akkon.Base.{
  ℕ, ◌<◌, ◌≤◌, ◌≡◌, ◌≢◌, Bool-cases, inl, inr, refl, sym, ap, Bool, false, not, some, List, [], ◌∷◌,
  ◌++◌, map, All, length, if◌then◌else◌,
}
use mathlib.Core.Option
use akkon.Base.Text.{Text, codes}
use akkon.Security.{LockdownState}
use akkon.Memory.Arena.{reset}
use akkon.Memory.Manager.{RuntimeDomain, request, get_domain, get_domain-reset_domain}
use akkon.Network.Server.{close_client}
use akkon.Network.Frame.{encode_frame, decode_frames, payloads}
use akkon.Network.Frame.Stream.{decode_frames-encode_frame}
use akkon.Monitor.Health.{Cache}
use akkon.Monitor.Log.{LogLevel}
use akkon.Api.App.{App, Effect, sends, posts}
use akkon.Api.Json.{escape_json_string, IsTextChar, read_string, read_string-escape_json_string}
use akkon.Api.Broadcast.{send_all, broadcast, log_head, log_payload, Tick, tick}

-- The clients for which a test holds, and what is sent and closed among some effects.
abbrev pub filter : (ℕ → Bool) → List ℕ → List ℕ
filter p [] = []
filter p (x ∷ xs) = let rest = filter p xs in if p x then x ∷ rest else rest

abbrev pub sent_in : List Effect → List Effect
sent_in [] = []
sent_in (sends fd text ∷ es) = sends fd text ∷ sent_in es
sent_in (posts fd type ∷ es) = sent_in es

abbrev pub posted_in : List Effect → List Effect
posted_in [] = []
posted_in (sends fd text ∷ es) = posted_in es
posted_in (posts fd type ∷ es) = posts fd type ∷ posted_in es

-- In a broadcast each client is sent the frame once, in their order; the clients that it reaches
-- stay, in their order, and the others, and no client else, are closed.
pub send_all_lem :
    (send_ok : ℕ → Bool) (frame clients : List ℕ)
    → ((send_all send_ok frame clients).0 ≡ filter send_ok clients)
      × (sent_in (send_all send_ok frame clients).1 ≡ map (λ c. sends c frame) clients)
      × (posted_in (send_all send_ok frame clients).1
          ≡ map (λ c. posts c close_client) (filter (λ c. not (send_ok c)) clients))
unfolding send_all
send_all_lem send_ok frame [] = (refl, refl, refl)
send_all_lem send_ok frame (c ∷ clients) =
    let rest = send_all_lem send_ok frame clients in
    elim (Bool-cases (send_ok c)) [
      | inl e ↦
          rw (send_all, e) (ap (λ t. c ∷ t) rest.0, ap (λ t. sends c frame ∷ t) rest.1, rest.2)
      | inr e ↦
          rw (send_all, e)
            (rest.0, ap (λ t. sends c frame ∷ t) rest.1, ap (λ t. posts c close_client ∷ t) rest.2)
    ]

-- A log line of characters that the escape covers, framed for the clients, decodes to one JSON text
-- whose last member is a string that a strict parser reads as the line, if the text has less than
-- 65536 bytes.
pub log_payload-read :
    (max_size : ℕ) (level : LogLevel) (line : Text)
    → 65535 ≤ max_size
    → length (log_payload level line) < 65536
    → All IsTextChar line
    → (decode_frames max_size (encode_frame (log_payload level line))
        ≡ payloads ((log_head level ++ (escape_json_string line ++ codes "\"}")) ∷ []))
      × (read_string false (escape_json_string line ++ codes "\"}") ≡ some (line, codes "}"))
log_payload-read max_size level line large short clean = (
  decode_frames-encode_frame max_size (log_payload level line) large short,
  read_string-escape_json_string line (codes "}") clean,
)

-- A round of the broadcast empties the request domain, keeps every other domain, and changes
-- neither the engine, nor the storage, nor the counter.
pub tick_lem :
    {Db : Type 0} (send_ok : ℕ → Bool) (t : Tick) (s : App Db) (cache : Cache)
    (lockdown : LockdownState)
    → let s' = (tick send_ok t s cache lockdown).0 in
      (get_domain s'.mem_manager request ≡ Option.map reset (get_domain s.mem_manager request))
      × ((d : RuntimeDomain)
          → d ≢ request
          → get_domain s'.mem_manager d ≡ get_domain s.mem_manager d)
      × (s'.query_engine ≡ s.query_engine)
      × (s'.data_storage ≡ s.data_storage)
      × (s'.queries_since_reboot ≡ s.queries_since_reboot)
unfolding tick broadcast
tick_lem send_ok t s cache lockdown = (
  (get_domain-reset_domain s.mem_manager request request).0 refl,
  λ d other. (get_domain-reset_domain s.mem_manager request d).1 (λ e. other (sym e)),
  refl,
  refl,
  refl,
)
