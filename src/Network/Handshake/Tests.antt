-- ===== src/Network/Handshake/Tests.antt =====
-- The handshake on a request whose key is two characters.
use akkon.Base.{◌≡◌, refl, false, ◌||◌, Bool, [], ◌∷◌, ◌++◌, map, arith}
use akkon.Base.Text.{Text, codes}
use akkon.Base.Find.{absent-Absent}
use akkon.Crypto.Pad.{pad, pad_zeros, push_length}
use akkon.Network.Http.{is_space}
use akkon.Network.Sha1.{sha1, hash_bytes, chunks}
use akkon.Network.Base64.Rfc.{rfc4648}
use akkon.Network.Handshake.{to_lower, key_header, generate_handshake_response}
use akkon.Network.Handshake.Accept.{
  rfc_response, rfc_guid, NoSpace, generate_handshake_response_lem,
}

abbrev request_line : Text
request_line = codes "GET / HTTP/1.1\r\n"

abbrev has_space : Text → Bool
has_space [] = false
has_space (c ∷ text) = is_space c || has_space text

lacks_space : (text : Text) → has_space text ≡ false → NoSpace text
lacks_space [] h = tt
lacks_space (c ∷ text) h = (ground (arith, h), lacks_space text (ground (arith, h)))

-- The key of section 1.3 of RFC 6455, and the key that it says is the answer.
abbrev rfc_key : Text
rfc_key = codes "dGhlIHNhbXBsZSBub25jZQ=="

abbrev rfc_digest : Text
rfc_digest =
    0xb3 ∷ 0x7a ∷ 0x4f ∷ 0x2c ∷ 0xc0 ∷ 0x62 ∷ 0x4f ∷ 0x16 ∷ 0x90 ∷ 0xf6 ∷ 0x46 ∷ 0x06 ∷ 0xcf ∷ 0x38
    ∷ 0x59 ∷ 0x45 ∷ 0xb2 ∷ 0xbe ∷ 0xc4 ∷ 0xea ∷ []

sha1-rfc_digest : sha1 (rfc_key ++ rfc_guid) ≡ rfc_digest
unfolding sha1 hash_bytes chunks pad pad_zeros push_length
sha1-rfc_digest = refl

generate_handshake_response_lem_example :
    generate_handshake_response
      (request_line ++ (codes "Sec-WebSocket-Key: " ++ (rfc_key ++ (codes "\r\n" ++ codes "\r\n"))))
    ≡ rfc_response (codes "s3pPLMBiTxaQ9kYGzzhZRbK+xOo=")
unfolding rfc4648
generate_handshake_response_lem_example =
    generate_handshake_response_lem request_line (codes "Sec-WebSocket-Key: ") rfc_key
      (codes "\r\n") rfc_digest refl
      (absent-Absent key_header (map to_lower request_line)
        (key_header ++ map to_lower (rfc_key ++ (codes "\r\n" ++ codes "\r\n"))) refl)
      (lacks_space rfc_key refl) sha1-rfc_digest
