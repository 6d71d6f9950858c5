-- ===== src/Network/Frame/Limits.antt =====
-- The ends of the codec's range: the rounds of the loop, a length that wraps, a message too long.
use akkon.Base.{
  ℕ, suc, ◌-◌, ◌/◌, ◌%◌, ◌^◌, ◌≤◌, ◌<◌, ◌≡◌, ◌≢◌, refl, ap, true, false, some, List, [], ◌∷◌,
  length, take, drop, length-take, arith, ltb, add_size, not_lt→ltb, lt→ltb,
}
use akkon.Base.Bits.{bit_and-low_mask, bit_or-disjoint, byte_masks}
use akkon.Network.Frame.{
  header_length, payload_length, payload_of, mask_bytes, is_masked, len_offset, short_len, is_data,
  payloads, length_error, decode_loop, decode_frames, encode_frame, decode_frame,
}
use akkon.Network.Frame.Wire.{length_digits, read_length-digits, length-unmask}

wrapping_header :
    (first n : ℕ) (rest : List ℕ)
    → n < 2 ^ 64
    → (header_length (first ∷ 127 ∷ length_digits n rest) ≡ 10)
      × (payload_length (first ∷ 127 ∷ length_digits n rest) ≡ n)
unfolding header_length is_masked len_offset payload_length short_len
wrapping_header first n rest k = (refl, read_length-digits first 127 rest n k)

decode_loop_wrapped :
    (max_size fuel : ℕ) (buf : List ℕ)
    → ltb (length buf) 2 ≡ false
    → ltb (length buf) (header_length buf) ≡ false
    → ltb (length buf) (add_size (header_length buf) (payload_length buf)) ≡ false
    → ltb max_size (payload_length buf) ≡ true
    → decode_loop max_size (suc fuel) buf ≡ length_error
unfolding decode_loop
decode_loop_wrapped max_size fuel buf two header frame long = rw (two, header, frame, long) refl

add_size-wrapped :
    (h n len : ℕ)
    → h ≡ 10
    → 10 ≤ len
    → 2 ^ 64 - 10 ≤ n
    → n < 2 ^ 64
    → ltb len (add_size h n) ≡ false
add_size-wrapped h n len e l k m = ground arith

-- On the header of an unmasked frame whose 64-bit length is within ten of 2 ^ 64, whatever its first
-- byte and whatever follows, `decodeFrames` throws, if strings are shorter than 2 ^ 63: the size of
-- the frame wraps and passes the test for a whole frame.
pub decode_frames_wraps :
    (max_size first n : ℕ) (rest : List ℕ)
    → max_size < 2 ^ 63
    → 2 ^ 64 - 10 ≤ n
    → n < 2 ^ 64
    → decode_frames max_size (first ∷ 127 ∷ length_digits n rest) ≡ length_error
unfolding decode_frames
decode_frames_wraps max_size first n rest m h k =
    let buf = first ∷ 127 ∷ length_digits n rest in
    let fields = wrapping_header first n rest k in
    decode_loop_wrapped max_size (length buf) buf (not_lt→ltb (length buf) 2 (λ p. omega arith))
      (not_lt→ltb (length buf) (header_length buf) (λ p. omega (arith, fields.0)))
      (add_size-wrapped (header_length buf) (payload_length buf) (length buf) fields.0 (omega arith)
        (omega (arith, fields.1)) (omega (arith, fields.1)))
      (lt→ltb max_size (payload_length buf) (omega (arith, fields.1)))

-- The first payload that the loop returns is the one of the frame in front.
decode_loop_head :
    (max_size fuel : ℕ) (buf m : List ℕ) (ms : List (List ℕ))
    → is_data buf ≡ true
    → decode_loop max_size (suc fuel) buf ≡ payloads (m ∷ ms)
    → payload_of buf ≡ m
unfolding decode_loop
decode_loop_head max_size fuel buf m ms data_frame h = ground arith

length-payload_of : (buf : List ℕ) → length (payload_of buf) ≤ payload_length buf
unfolding payload_of
length-payload_of buf = ground (
  arith,
  length-unmask (mask_bytes buf) 0 (take (payload_length buf) (drop (header_length buf) buf)),
  length-take (payload_length buf) (drop (header_length buf) buf),
)

payload_length-encode_frame :
    (message : List ℕ) → 65535 < length message → payload_length (encode_frame message) < 65536
unfolding payload_length short_len encode_frame
payload_length-encode_frame message h = ground (
  arith,
  bit_and-low_mask 8 (length message / 2 ^ 8),
  bit_and-low_mask 8 (length message),
  bit_or-disjoint 8 (length message / 2 ^ 8 % 256) (length message % 256),
)

-- A message of 65536 bytes or more, framed by `encodeFrame`, is not what `decodeFrames` returns.
pub encode_frame_truncates :
    (max_size : ℕ) (message : List ℕ)
    → 65535 < length message
    → decode_frames max_size (encode_frame message) ≢ payloads (message ∷ [])
unfolding decode_frames
encode_frame_truncates max_size message h e = absurd (
    omega (
      arith,
      ap length (
          decode_loop_head max_size (length (encode_frame message)) (encode_frame message) message
            [] (unfold is_data encode_frame in refl) e),
      length-payload_of (encode_frame message),
      payload_length-encode_frame message h,
    ))

-- `decodeFrame` gives back what `encodeFrame` framed, whatever its length: it reads to the end of
-- the text and not the length field.
pub decode_frame-encode_frame :
    (message : List ℕ) → decode_frame (encode_frame message) ≡ some message
unfolding decode_frame encode_frame
decode_frame-encode_frame message = ground (arith, byte_masks (length message))

decode_loop_short :
    (max_size fuel : ℕ) (buf : List ℕ)
    → ltb (length buf) 2 ≡ false
    → ltb (length buf) (header_length buf) ≡ false
    → ltb (length buf) (add_size (header_length buf) (payload_length buf)) ≡ true
    → decode_loop max_size (suc fuel) buf ≡ payloads []
unfolding decode_loop
decode_loop_short max_size fuel buf two header frame = rw (two, header, frame) refl

get_header :
    (rest : List ℕ)
    → (header_length (b'G' ∷ b'E' ∷ rest) ≡ 2) × (payload_length (b'G' ∷ b'E' ∷ rest) ≡ 69)
unfolding header_length is_masked len_offset payload_length short_len
get_header rest = (refl, refl)

-- The first two letters of `GET` are the header of a frame of 69 bytes.
pub decode_frames-get :
    (max_size : ℕ) (rest : List ℕ)
    → length rest < 69
    → decode_frames max_size (b'G' ∷ b'E' ∷ rest) ≡ payloads []
unfolding decode_frames
decode_frames-get max_size rest h =
    let buf = b'G' ∷ b'E' ∷ rest in
    let fields = get_header rest in
    decode_loop_short max_size (length buf) buf (not_lt→ltb (length buf) 2 (λ p. omega arith))
      (rw fields.0 (not_lt→ltb (length buf) 2 (λ p. omega arith)))
      (rw (fields.0, fields.1) (lt→ltb (length buf) 71 (omega arith)))
