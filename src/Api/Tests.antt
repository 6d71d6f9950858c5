-- ===== src/Api/Tests.antt =====
-- A log line with a quote, a backslash and a line feed; requests with fields; batches; a broadcast.
use akkon.Base.{
  ◌<◌, ◌≡◌, length, refl, false, some, List, [], ◌∷◌, ◌++◌, replicate, arith, inl, inr, ◌==◌,
}
use akkon.Base.Text.{codes, Text}
use akkon.Base.Find.{absent-Absent, lacks-All}
use akkon.Base.Decimal.{to_string, decimal_text}
use akkon.Index.QueryEngine.{make_engine}
use akkon.Network.Server.{close_client}
use akkon.Network.Frame.{encode_frame, decode_frames, payloads}
use akkon.Monitor.Log.{error}
use akkon.Api.Json.{escape_json_string, read_string, read_string-escape_json_string}
use akkon.Api.App.{sends, posts}
use akkon.Api.Fields.{quote, extract_json_string, extract_json_array}
use akkon.Api.Fields.Json.{extract_json_string_lem}
use akkon.Api.Fields.Array.{array_content, extract_json_array_lem}
use akkon.Api.Batch.{batch_results}
use akkon.Index.QueryEngine.Refines.{make_engine-Holds}
use akkon.Api.Batch.Joined.{join, members, batch_results-join}
use akkon.Api.Broadcast.{send_all, log_payload, log_head}
use akkon.Api.Broadcast.Clients.{sent_in, posted_in, send_all_lem, log_payload-read}

abbrev line : Text
line = 97 ∷ 34 ∷ 92 ∷ 10 ∷ codes "b"

read_string-escape_json_string_example :
    read_string false (escape_json_string line ++ 34 ∷ codes "}") ≡ some (line, codes "}")
read_string-escape_json_string_example = read_string-escape_json_string line (codes "}") (
  inl (omega arith),
  (inl (omega arith), (inl (omega arith), (inr (inr (inl refl)), (inl (omega arith), tt)))),
)

abbrev pwk_key : Text
pwk_key = quote ++ codes "pwk" ++ codes "\":\""

extract_json_string_lem_example :
    extract_json_string (codes "{" ++ (pwk_key ++ (codes "ab" ++ b'"' ∷ codes "}"))) (codes "pwk")
    ≡ codes "ab"
extract_json_string_lem_example =
    extract_json_string_lem (codes "{") (codes "pwk") (codes "ab") (codes "}")
      (absent-Absent pwk_key (codes "{") (pwk_key ++ (codes "ab" ++ b'"' ∷ codes "}")) refl)
      (lacks-All b'"' (codes "ab") refl)

abbrev two_items : List Text
two_items = codes "a" ∷ codes "b" ∷ []

abbrev ids_key : Text
ids_key = quote ++ codes "ids" ++ quote

abbrev ids_rest : Text
ids_rest = ids_key ++ (codes ":" ++ b'[' ∷ (array_content two_items ++ b']' ∷ codes "}"))

extract_json_array_lem_example :
    extract_json_array (codes "{" ++ ids_rest) (codes "ids") ≡ two_items
extract_json_array_lem_example =
    extract_json_array_lem (codes "{") (codes "ids") (codes ":") (codes "}") two_items
      (absent-Absent ids_key (codes "{") ids_rest refl) (lacks-All b'[' (ids_key ++ codes ":") refl)
      (
        (((λ e. omega (arith, e)), (λ e. omega (arith, e)), (λ e. omega (arith, e))), tt),
        ((((λ e. omega (arith, e)), (λ e. omega (arith, e)), (λ e. omega (arith, e))), tt), tt),
      )

abbrev hash_a : Text
hash_a = replicate 64 b'a'

abbrev hash_b : Text
hash_b = replicate 64 b'b'

batch_results-join_example :
    batch_results (make_engine 2) (hash_a ∷ hash_b ∷ [])
    ≡ some (join (members (make_engine 2) (hash_a ∷ hash_b ∷ [])))
batch_results-join_example =
    batch_results-join (make_engine 2) (hash_a ∷ hash_b ∷ []) room (refl, (refl, tt))
  where
    room : 0 < length (make_engine 2).filter.bits
    room = (make_engine-Holds 2 (omega arith) (omega arith)).room

send_all_lem_example :
    ((send_all (λ c. c == 4) (codes "f") (4 ∷ 9 ∷ [])).0 ≡ 4 ∷ [])
    × (sent_in (send_all (λ c. c == 4) (codes "f") (4 ∷ 9 ∷ [])).1
        ≡ sends 4 (codes "f") ∷ sends 9 (codes "f") ∷ [])
    × (posted_in (send_all (λ c. c == 4) (codes "f") (4 ∷ 9 ∷ [])).1 ≡ posts 9 close_client ∷ [])
send_all_lem_example = send_all_lem (λ c. c == 4) (codes "f") (4 ∷ 9 ∷ [])

log_payload-read_example :
    (decode_frames 70000 (encode_frame (log_payload error line))
      ≡ payloads ((log_head error ++ (escape_json_string line ++ codes "\"}")) ∷ []))
    × (read_string false (escape_json_string line ++ codes "\"}") ≡ some (line, codes "}"))
log_payload-read_example =
    log_payload-read 70000 error line (omega arith)
      (unfold to_string decimal_text escape_json_string in omega arith)
      (
        inl (omega arith),
        (inl (omega arith), (inl (omega arith), (inr (inr (inl refl)), (inl (omega arith), tt)))),
      )
