-- ===== src/Network/Handshake/Accept.antt =====
-- The answer to the opening handshake, for any request with a key.
use mathlib.Core.List.{append_assoc}
use akkon.Base.{
  ℕ, ◌+◌, ◌-◌, ◌≡◌, ◌≢◌, refl, sym, ap, ◌∙◌, false, some, [], ◌∷◌, ◌++◌, map, All, length,
  length-append, map-append, arith,
}
use akkon.Base.Text.{Text, codes}
use akkon.Base.Find.{find, Absent, Absent-lacking, find-Absent, starts_with-append, substr-middle}
use akkon.Network.Http.{is_space, skip_spaces}
use akkon.Network.Sha1.{sha1, sha1_bytes}
use akkon.Network.Base64.Rfc.{rfc4648, base64_encode-rfc4648}
use akkon.Network.Handshake.{
  to_lower, key_header, trim_back, key_from, magic, accept_response, generate_handshake_response,
}

length-map : (f : ℕ → ℕ) (xs : Text) → length (map f xs) ≡ length xs
length-map f [] = refl
length-map f (x ∷ xs) = omega (arith, length-map f xs)

-- A text without spaces is not trimmed.
abbrev pub NoSpace : Text → Type 0
NoSpace = All (λ c. is_space c ≡ false)

skip_spaces-NoSpace : (text : Text) → NoSpace text → skip_spaces text ≡ text
unfolding skip_spaces
skip_spaces-NoSpace [] h = refl
skip_spaces-NoSpace (c ∷ text) h = rw (skip_spaces, h.0) refl

trim_back-NoSpace : (text : Text) → NoSpace text → trim_back text ≡ text
unfolding trim_back
trim_back-NoSpace [] h = refl
trim_back-NoSpace (c ∷ []) h = rw (trim_back, h.0) refl
trim_back-NoSpace (c ∷ d ∷ text) h = kept (trim_back-NoSpace (d ∷ text) h.1)
  where
    kept : trim_back (d ∷ text) ≡ d ∷ text → trim_back (c ∷ d ∷ text) ≡ c ∷ d ∷ text
    kept e = ground (arith, e)

NoSpace-lacks : (text : Text) → NoSpace text → All (λ c. c ≢ b'\r') text
NoSpace-lacks [] h = tt
NoSpace-lacks (c ∷ text) h = ((λ e. ground (arith, h.0, e)), NoSpace-lacks text h.1)

-- The key is cut at the end of its line.
key_found :
    (front key after : Text) (pos : ℕ)
    → length front ≡ pos
    → NoSpace key
    → key_from
        (front ++ (key ++ (codes "\r\n" ++ after)))
        pos
        (find (front ++ (key ++ (codes "\r\n" ++ after))) (codes "\r\n") pos)
      ≡ key
key_found front key after pos e clean =
    rw
      (
        key_from,
        find-Absent front key (codes "\r\n" ++ after) (codes "\r\n") pos e
            (Absent-lacking b'\r' (codes "\n") key (codes "\r\n" ++ after)
              (NoSpace-lacks key clean))
            (starts_with-append (codes "\r\n") after),
      )
      (substr-middle front key (codes "\r\n" ++ after) pos (pos + length key - pos) e (omega arith))

-- The response of RFC 6455, section 4.2.2, with the key that accepts.
abbrev pub rfc_response : Text → Text
rfc_response accept_key =
    codes "HTTP/1.1 101 Switching Protocols\r\n"
    ++ (codes "Upgrade: websocket\r\nConnection: Upgrade\r\nSec-WebSocket-Accept: "
        ++ (accept_key ++ codes "\r\n\r\n"))

-- The text that section 1.3 puts behind the key.
abbrev pub rfc_guid : Text
rfc_guid = codes "258EAFA5-E914-47DA-95CA-C5AB0DC85B11"

-- On a request with a `Sec-WebSocket-Key` header, its name in any case, whose value has no spaces,
-- `generateHandshakeResponse` answers with the response of RFC 6455, whose key is the Base64 of RFC
-- 4648 of the digest that the code's `sha1` gives for the value with the text of the RFC behind it.
pub generate_handshake_response_lem :
    (before name key after digest : Text)
    → map to_lower name ≡ codes "sec-websocket-key: "
    → Absent
        (codes "sec-websocket-key: ")
        (map to_lower before)
        (codes "sec-websocket-key: " ++ map to_lower (key ++ (codes "\r\n" ++ after)))
    → NoSpace key
    → sha1 (key ++ rfc_guid) ≡ digest
    → generate_handshake_response (before ++ (name ++ (key ++ (codes "\r\n" ++ after))))
      ≡ rfc_response (rfc4648 digest)
unfolding generate_handshake_response accept_response
generate_handshake_response_lem before name key after digest named first clean hashed =
    rw (generate_handshake_response, found, key_here)
      (rw (skip_spaces-NoSpace key clean, trim_back-NoSpace key clean)
        (ap rfc_response (
          base64_encode-rfc4648 (sha1 (key ++ magic)) (sha1_bytes (key ++ magic))
          ∙ ap rfc4648 hashed)))
  where
    rest : Text
    rest = key ++ (codes "\r\n" ++ after)

    lowered :
        map to_lower (before ++ (name ++ rest))
        ≡ map to_lower before ++ (key_header ++ map to_lower rest)
    lowered =
        map-append to_lower before (name ++ rest)
        ∙ ap (λ t. map to_lower before ++ t)
            (map-append to_lower name rest ∙ ap (λ t. t ++ map to_lower rest) named)

    found : find (map to_lower (before ++ (name ++ rest))) key_header 0 ≡ some (length before)
    found =
        ap (λ t. find t key_header 0) lowered
        ∙ find-Absent [] (map to_lower before) _ key_header 0 refl first
            (starts_with-append key_header (map to_lower rest))
        ∙ ap some (omega (arith, length-map to_lower before))

    key_at : length (before ++ name) ≡ length before + length key_header
    key_at = omega (arith, length-append before name, length-map to_lower name, ap length named)

    key_here :
        key_from
          (before ++ (name ++ rest))
          (length before + length key_header)
          (find (before ++ (name ++ rest)) (codes "\r\n") (length before + length key_header))
        ≡ key
    key_here =
        rw (sym (append_assoc before name rest))
          (key_found (before ++ name) key after _ key_at clean)
