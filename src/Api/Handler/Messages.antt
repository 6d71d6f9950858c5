-- ===== src/Api/Handler/Messages.antt =====
-- The messages of WebSocket clients: each batch is answered, and the client is polled again.
use mathlib.Core.List.{append-nil}
use akkon.Base.{ℕ, ◌<◌, ◌≡◌, refl, Option, none, some, List, [], ◌∷◌, length, ◌==◌, arith}
use akkon.Base.Text.{Text, codes, text_eq}
use akkon.Index.QueryEngine.{QueryEngine, QueryResult}
use akkon.Index.QueryEngine.Refines.{query_total}
use akkon.Network.Server.{enable_polling}
use akkon.Network.Frame.{payloads}
use akkon.Api.App.{App}
use akkon.Api.Fields.{extract_json_string, extract_json_array}
use akkon.Api.Batch.{
  put_entry, batch_results, answer_batch, handle_payload, handle_payloads, handle_frames,
}
use akkon.Api.Handler.Effects.{Finishes, Sends, if_both, Answered-silent, Answered-after}

put_entry_total :
    (id : Text) (ids : List Text) (r : QueryResult) (rest : Option Text)
    → (t : Text) × (rest ≡ some t)
    → (t : Text) × (put_entry id ids (some r) rest ≡ some t)
put_entry_total id ids r none h = absurd (ground (arith, h.1))
put_entry_total id ids r (some t) h = (_, refl)

batch_results_total :
    (e : QueryEngine) (ids : List Text)
    → 0 < length e.filter.bits
    → (t : Text) × (batch_results e ids ≡ some t)
unfolding batch_results
batch_results_total e [] pos = ([], refl)
batch_results_total e (id ∷ ids) pos =
    let (r, found) = query_total e id pos in
    let rest = batch_results_total e ids pos in
    if_both (λ x. (t : Text) × (x ≡ some t)) (length id == 64) _ _
      (rw found (put_entry_total id ids r (batch_results e ids) rest)) rest

module _ {Db : Type 0} (fd : ℕ) where
  handle_payload-Sends :
      (payload : Text) (s : App Db)
      → 0 < length s.query_engine.filter.bits
      → Sends fd s (handle_payload fd payload s)
  unfolding handle_payload answer_batch
  handle_payload-Sends payload s room =
      let (results, done) =
        batch_results_total s.query_engine (extract_json_array payload (codes "identifiers"))
          room in
      if_both (Sends fd s)
        (text_eq (extract_json_string payload (codes "action")) (codes "exists_batch")) _ _
        (rw done (_, refl, refl, record { texts = _ ∷ []; done = refl }))
        (s, refl, refl, record { texts = []; done = rw append-nil })

  handle_payloads-Finishes :
      (ps : List Text) (s : App Db)
      → 0 < length s.query_engine.filter.bits
      → Finishes fd s.effects (handle_payloads fd ps s)
  unfolding handle_payloads
  handle_payloads-Finishes [] s room = (_, refl, Answered-silent fd s.effects enable_polling)
  handle_payloads-Finishes (p ∷ ps) s room =
      let (s', done, same, m) = handle_payload-Sends p s room in
      let (t, rest, a) = handle_payloads-Finishes ps s' (rw same room) in
      (t, rw (handle_payloads, done) rest, Answered-after m a)

  pub handle_frames-Finishes :
      (ps : List Text) (s : App Db)
      → 0 < length s.query_engine.filter.bits
      → Finishes fd s.effects (handle_frames fd (payloads ps) s)
  unfolding handle_frames
  handle_frames-Finishes ps s room = handle_payloads-Finishes ps s room
