-- ===== src/Network/Frame/Stream.antt =====
-- Whole buffers: `decodeFrames` on any number of frames, `encodeFrame` before it, and its rounds.
use mathlib.Core.List.{append_assoc, append-nil}
use akkon.Base.{
  ℕ, zero, suc, ◌+◌, ◌/◌, ◌%◌, ◌==◌, ◌||◌, Bool, ◌^◌, ◌≤◌, ◌<◌, ◌≡◌, refl, ◌∙◌, ap, ap₂, map, ◌⊎◌,
  inl, inr, false, List, [], ◌∷◌, ◌++◌, All, length, length-append, arith, if◌then◌else◌, add_size,
}
use akkon.Base.Bits.{bit_and-low_mask}
use akkon.Network.Frame.{
  header_length, payload_length, is_data, payloads, decode_loop, decode_frames, encode_frame,
}
use akkon.Network.Frame.Wire.{Wire, IsWire, length_field, key_field, body, serialize}
use akkon.Network.Frame.Decode.{decode_loop-serialize}

pub serialize_all : List Wire → List ℕ
serialize_all [] = []
serialize_all (w ∷ ws) = serialize w ++ serialize_all ws

-- Section 5.2: the opcode is the last four bits of the first byte, 1 for text and 2 for binary.
abbrev pub carries_data : Wire → Bool
carries_data w = w.first % 16 == 1 || w.first % 16 == 2

-- The payloads of the text and binary frames, in order.
abbrev pub data_payloads : List Wire → List (List ℕ)
data_payloads [] = []
data_payloads (w ∷ ws) =
    let rest = data_payloads ws in if carries_data w then w.payload ∷ rest else rest

is_data-carries_data : (w : Wire) → is_data (w.first ∷ []) ≡ carries_data w
unfolding is_data
is_data-carries_data w = rw (bit_and-low_mask 4 w.first) refl

-- A rest of the buffer that holds no whole frame.
abbrev pub IsIncomplete : List ℕ → Type 0
IsIncomplete tail =
    (length tail < 2)
    ⊎ (length tail < header_length tail)
    ⊎ ((length tail < header_length tail + payload_length tail)
        × (header_length tail + payload_length tail < 2 ^ 64))

abbrev pub Sendable : ℕ → Wire → Type 0
Sendable max_size w = IsWire w × (length w.payload ≤ max_size)

decode_loop-IsIncomplete :
    (max_size fuel : ℕ) (tail : List ℕ)
    → IsIncomplete tail
    → decode_loop max_size fuel tail ≡ payloads []
unfolding decode_loop
decode_loop-IsIncomplete max_size zero tail h = refl
decode_loop-IsIncomplete max_size (suc fuel) tail (inl h) = ground arith
decode_loop-IsIncomplete max_size (suc fuel) tail (inr (inl h)) = ground arith
decode_loop-IsIncomplete max_size (suc fuel) tail (inr (inr h)) = rw exact (ground arith)
  where
    exact :
        add_size (header_length tail) (payload_length tail)
        ≡ header_length tail + payload_length tail
    exact = omega arith

decode_loop-serialize_all :
    (max_size : ℕ) (ws : List Wire) (tail : List ℕ) (fuel : ℕ)
    → All (Sendable max_size) ws
    → IsIncomplete tail
    → length ws < fuel
    → decode_loop max_size fuel (serialize_all ws ++ tail) ≡ payloads (data_payloads ws)
unfolding serialize_all
decode_loop-serialize_all max_size [] tail fuel all part enough =
    decode_loop-IsIncomplete max_size fuel tail part
decode_loop-serialize_all max_size (w ∷ ws) tail zero all part enough = absurd (omega arith)
decode_loop-serialize_all max_size (w ∷ ws) tail (suc fuel) all part enough =
    rw
      (
        append_assoc (serialize w) (serialize_all ws) tail,
        decode_loop-serialize w all.0.0 (serialize_all ws ++ tail) max_size fuel all.0.1,
        decode_loop-serialize_all max_size ws tail fuel all.1 part (omega arith),
        is_data-carries_data w,
      )
      (ground arith)

length-serialize_all : (ws : List Wire) → length ws ≤ length (serialize_all ws)
unfolding serialize_all serialize
length-serialize_all [] = omega arith
length-serialize_all (w ∷ ws) = omega (
  arith,
  length-append (w.first ∷ length_field w.masked (length w.payload)) (key_field w ++ body w),
  length-append (serialize w) (serialize_all ws),
  length-serialize_all ws,
)

-- On any frames laid out by RFC 6455, masked or not, with payloads up to the size of a string, and
-- an incomplete frame at the end, `decodeFrames` returns the payloads of the text and binary frames
-- in order and drops the rest.
pub decode_frames-serialize_all :
    (max_size : ℕ) (ws : List Wire) (tail : List ℕ)
    → All (Sendable max_size) ws
    → IsIncomplete tail
    → decode_frames max_size (serialize_all ws ++ tail) ≡ payloads (data_payloads ws)
unfolding decode_frames
decode_frames-serialize_all max_size ws tail all part =
    decode_loop-serialize_all max_size ws tail (suc (length (serialize_all ws ++ tail))) all part
      (omega (arith, length-append (serialize_all ws) tail, length-serialize_all ws))

-- A text message as the server frames it.
abbrev pub text_frame : List ℕ → Wire
text_frame message = record {
  first = 0x81;
  masked = false;
  key = 0 ∷ 0 ∷ 0 ∷ 0 ∷ [];
  payload = message;
}

pub encode_frame-serialize :
    (message : List ℕ)
    → length message < 65536
    → encode_frame message ≡ serialize (text_frame message)
unfolding encode_frame serialize length_field key_field body
encode_frame-serialize message h =
    ground (arith, bit_and-low_mask 8 (length message / 256), bit_and-low_mask 8 (length message))

pub encode_all : List (List ℕ) → List ℕ
encode_all [] = []
encode_all (m ∷ ms) = encode_frame m ++ encode_all ms

encode_all-serialize_all :
    (messages : List (List ℕ))
    → All (λ m. length m < 65536) messages
    → encode_all messages ≡ serialize_all (map text_frame messages)
unfolding encode_all serialize_all
encode_all-serialize_all [] h = refl
encode_all-serialize_all (m ∷ ms) h =
    ap₂ ◌++◌ (encode_frame-serialize m h.0) (encode_all-serialize_all ms h.1)

text_frames-Sendable :
    (max_size : ℕ) (messages : List (List ℕ))
    → 65535 ≤ max_size
    → All (λ m. length m < 65536) messages
    → All (Sendable max_size) (map text_frame messages)
text_frames-Sendable max_size [] h all = tt
text_frames-Sendable max_size (m ∷ ms) h all = (
  (record { first_byte = omega arith; key_length = refl; sized = omega arith }, omega arith),
  text_frames-Sendable max_size ms h all.1,
)

data_payloads-text_frames :
    (messages : List (List ℕ)) → data_payloads (map text_frame messages) ≡ messages
unfolding is_data
data_payloads-text_frames [] = refl
data_payloads-text_frames (m ∷ ms) = ap (λ t. m ∷ t) (data_payloads-text_frames ms)

-- Where a string may have 65535 bytes, messages of up to that size come back from `decodeFrames` as `encodeFrame` framed them, any
-- number of them one after the other in a buffer.
pub decode_frames-encode_all :
    (max_size : ℕ) (messages : List (List ℕ))
    → 65535 ≤ max_size
    → All (λ m. length m < 65536) messages
    → decode_frames max_size (encode_all messages) ≡ payloads messages
decode_frames-encode_all max_size messages h all =
    rw
      (
        encode_all-serialize_all messages all,
        ← append-nil (serialize_all (map text_frame messages)),
      )
      (decode_frames-serialize_all max_size (map text_frame messages) []
          (text_frames-Sendable max_size messages h all) (inl (omega arith))
        ∙ ap payloads (data_payloads-text_frames messages))

-- One message.
pub decode_frames-encode_frame :
    (max_size : ℕ) (message : List ℕ)
    → 65535 ≤ max_size
    → length message < 65536
    → decode_frames max_size (encode_frame message) ≡ payloads (message ∷ [])
unfolding encode_all
decode_frames-encode_frame max_size message h short =
    ap (decode_frames max_size) (alone (encode_frame message))
    ∙ decode_frames-encode_all max_size (message ∷ []) h (short, tt)
  where
    alone : (frame : List ℕ) → frame ≡ frame ++ []
    alone frame = rw append-nil refl
