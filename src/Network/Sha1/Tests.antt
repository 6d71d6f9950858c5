-- ===== src/Network/Sha1/Tests.antt =====
-- The key of RFC 6455, section 1.3, behind which the text of the RFC is put.
use akkon.Base.{◌≡◌, refl, [], ◌∷◌}
use akkon.Base.Text.{codes}
use akkon.Network.Sha1.{sha1, hash_bytes, chunks}
use akkon.Crypto.Pad.{pad, pad_zeros, push_length}

sha1_rfc6455 :
    sha1 (codes "dGhlIHNhbXBsZSBub25jZQ==258EAFA5-E914-47DA-95CA-C5AB0DC85B11")
    ≡ 0xb3 ∷ 0x7a ∷ 0x4f ∷ 0x2c ∷ 0xc0 ∷ 0x62 ∷ 0x4f ∷ 0x16 ∷ 0x90 ∷ 0xf6 ∷ 0x46 ∷ 0x06 ∷ 0xcf
      ∷ 0x38 ∷ 0x59 ∷ 0x45 ∷ 0xb2 ∷ 0xbe ∷ 0xc4 ∷ 0xea ∷ []
unfolding sha1 hash_bytes chunks pad pad_zeros push_length
sha1_rfc6455 = refl
