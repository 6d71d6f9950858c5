-- ===== src/Network/Base64/Tests.antt =====
-- The hash of the example in RFC 6455, section 1.3, and the theorem at two bytes.
use akkon.Base.{◌≡◌, refl, [], ◌∷◌, arith}
use akkon.Base.Text.{codes}
use akkon.Network.Base64.{base64_encode, push_equals, encode_loop, drain}
use akkon.Network.Base64.Rfc.{rfc4648, base64_encode-rfc4648}

base64_rfc6455 :
    base64_encode (
      0xb3 ∷ 0x7a ∷ 0x4f ∷ 0x2c ∷ 0xc0 ∷ 0x62 ∷ 0x4f ∷ 0x16 ∷ 0x90 ∷ 0xf6 ∷ 0x46 ∷ 0x06 ∷ 0xcf
      ∷ 0x38 ∷ 0x59 ∷ 0x45 ∷ 0xb2 ∷ 0xbe ∷ 0xc4 ∷ 0xea ∷ [])
    ≡ codes "s3pPLMBiTxaQ9kYGzzhZRbK+xOo="
unfolding base64_encode push_equals encode_loop drain
base64_rfc6455 = refl

base64_encode-rfc4648_example : base64_encode (255 ∷ 1 ∷ []) ≡ rfc4648 (255 ∷ 1 ∷ [])
base64_encode-rfc4648_example =
    base64_encode-rfc4648 (255 ∷ 1 ∷ []) (omega arith, (omega arith, tt))
