-- ===== src/Network/Frame/Tests.antt =====
-- Frames at concrete bytes: the greeting that RFC 6455 gives as its example.
use akkon.Base.{◌≡◌, refl, inl, true, [], ◌∷◌, ◌++◌, arith}
use akkon.Base.Text.{codes}
use akkon.Network.Frame.{payloads, decode_frames}
use akkon.Network.Frame.Wire.{Wire, IsWire}
use akkon.Network.Frame.Stream.{serialize_all, data_payloads, decode_frames-serialize_all}

abbrev masked_hello : Wire
masked_hello = record {
  first = 0x81;
  masked = true;
  key = 0x37 ∷ 0xfa ∷ 0x21 ∷ 0x3d ∷ [];
  payload = codes "Hello";
}

masked_hello-IsWire : IsWire masked_hello
masked_hello-IsWire = record { first_byte = omega arith; key_length = refl; sized = omega arith }

decode_frames-serialize_all_example :
    decode_frames 1000 (serialize_all (masked_hello ∷ []) ++ 0x81 ∷ [])
    ≡ payloads (data_payloads (masked_hello ∷ []))
decode_frames-serialize_all_example =
    decode_frames-serialize_all 1000 (masked_hello ∷ []) (0x81 ∷ [])
      ((masked_hello-IsWire, omega arith), tt) (inl (omega arith))
