-- ===== src/Network/Handshake.antt =====
-- `isWebSocketUpgrade` and `generateHandshakeResponse` of
-- src/network/protocols/WebSocketHandler.cpp.
pub mod Accept
mod Tests
use akkon.Base.{
  ℕ, ◌+◌, ◌-◌, Bool, true, false, ◌&&◌, Option, none, some, List, [], ◌∷◌, ◌++◌, map, length, drop,
  if◌then◌else◌, leb,
}
use akkon.Base.Text.{Text, codes}
use akkon.Base.Find.{find, substr}
use akkon.Network.Http.{is_space, skip_spaces}
use akkon.Network.Sha1.{sha1}
use akkon.Network.Base64.{base64_encode}

-- `::tolower` in the C locale.
abbrev pub to_lower : ℕ → ℕ
to_lower c = if leb b'A' c && leb c b'Z' then c + 32 else c

abbrev pub is_some {ℓ} : {A : Type ℓ} → Option A → Bool
is_some none = false
is_some (some a) = true

unfoldable pub is_websocket_upgrade : Text → Bool
is_websocket_upgrade request = is_some (find (map to_lower request) (codes "upgrade: websocket") 0)

abbrev pub key_header : Text
key_header = codes "sec-websocket-key: "

-- `while (!key.empty() && std::isspace(key.back())) key.pop_back();`
pub trim_back : Text → Text
trim_back [] = []
trim_back (c ∷ text) = elim (trim_back text) [
  | [] ↦ if is_space c then [] else c ∷ []
  | d ∷ rest ↦ c ∷ d ∷ rest
]

-- The key, which begins at index `pos`.
abbrev pub key_from : Text → ℕ → Option ℕ → Text
key_from request pos none = drop pos request
key_from request pos (some end_pos) = substr request pos (end_pos - pos)

abbrev pub magic : Text
magic = codes "258EAFA5-E914-47DA-95CA-C5AB0DC85B11"

unfoldable pub accept_response : Text → Text
accept_response accept_key =
    codes "HTTP/1.1 101 Switching Protocols\r\nUpgrade: websocket\r\nConnection: Upgrade\r\n"
    ++ (codes "Sec-WebSocket-Accept: " ++ (accept_key ++ codes "\r\n\r\n"))

unfoldable pub generate_handshake_response : Text → Text
generate_handshake_response request = elim (find (map to_lower request) key_header 0) [
  | none ↦ []
  | some pos_lower ↦
      let pos = pos_lower + length key_header in
      let key = trim_back (skip_spaces (key_from request pos (find request (codes "\r\n") pos))) in
      accept_response (base64_encode (sha1 (key ++ magic)))
]
