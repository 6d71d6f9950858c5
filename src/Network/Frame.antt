-- ===== src/Network/Frame.antt =====
-- The frame codec of `WebSocketHandler` in src/network/protocols/WebSocketHandler.{h,cpp}.
-- A `std::string` is the list of its bytes.
pub mod Wire
pub mod Decode
pub mod Stream
pub mod Limits
mod Tests
use Prim.Native.Nat.{bit_and, bit_or, bit_xor}
use akkon.Base.{
  ℕ, zero, suc, ◌+◌, ◌-◌, ◌*◌, ◌/◌, ◌%◌, ◌^◌, Bool, true, false, ◌||◌, Option, none, some, List, [],
  ◌∷◌, ◌++◌, length, get_or, take, drop, if◌then◌else◌, ltb, leb, ◌==◌, add_size, sub_size,
}

-- `encodeFrame`; a `char` is a byte.
pub encode_frame : List ℕ → List ℕ
encode_frame message =
    let size = length message in
    0x81
    ∷ ((if leb size 125
          then size ∷ []
          else 126 ∷ bit_and (size / 2 ^ 8) 0xff ∷ bit_and size 0xff ∷ [])
        ++ message)

-- `decoded[i] ^= mask[i % 4]` from index `i` on.
unfoldable pub unmask : List ℕ → ℕ → List ℕ → List ℕ
unmask mask i [] = []
unmask mask i (b ∷ bs) = bit_xor b (get_or mask (i % 4) 0) ∷ unmask mask (i + 1) bs

-- `decodeFrame`; `none` is the exception that `substr` throws beyond the end of the text.
pub decode_frame : List ℕ → Option (List ℕ)
decode_frame frame =
    if ltb (length frame) 2
    then some []
    else (let second = get_or frame 1 0 in
        let payload_len = bit_and second 0x7f in
        let offset : ℕ = if payload_len == 126 then 4 else if payload_len == 127 then 10 else 2 in
        if bit_and second 0x80 == 0
        then (if ltb (length frame) offset then some [] else some (drop offset frame))
        else if ltb (length frame) offset
        then none
        else if ltb (length frame) (offset + 4)
        then some []
        else some (unmask (take 4 (drop offset frame)) 0 (drop (offset + 4) frame)))

-- The extended length of eight bytes: `payload_len = (payload_len << 8) | data[...]`, `n` rounds.
unfoldable pub read_length : List ℕ → ℕ → ℕ → ℕ → ℕ
read_length buf at acc zero = acc
read_length buf at acc (suc n) =
    read_length buf (at + 1) (bit_or (acc * 2 ^ 8 % 2 ^ 64) (get_or buf at 0)) n

-- The fields of the header at the start of `buf`, as the loop of `decodeFrames` computes them.
unfoldable pub short_len : List ℕ → ℕ
short_len buf = bit_and (get_or buf 1 0) 0x7f

unfoldable pub is_masked : List ℕ → Bool
is_masked buf = if bit_and (get_or buf 1 0) 0x80 == 0 then false else true

-- `len_offset`, where the mask begins.
unfoldable pub len_offset : List ℕ → ℕ
len_offset buf = if short_len buf == 126 then 4 else if short_len buf == 127 then 10 else 2

unfoldable pub header_length : List ℕ → ℕ
header_length buf = if is_masked buf then len_offset buf + 4 else len_offset buf

unfoldable pub payload_length : List ℕ → ℕ
payload_length buf =
    if short_len buf == 126
    then bit_or (get_or buf 2 0 * 2 ^ 8) (get_or buf 3 0)
    else if short_len buf == 127
    then read_length buf 2 0 8
    else short_len buf

unfoldable pub mask_bytes : List ℕ → List ℕ
mask_bytes buf = if is_masked buf then take 4 (drop (len_offset buf) buf) else 0 ∷ 0 ∷ 0 ∷ 0 ∷ []

-- The payload, unmasked where the frame is masked.
unfoldable pub payload_of : List ℕ → List ℕ
payload_of buf =
    let bytes = take (payload_length buf) (drop (header_length buf) buf) in
    if is_masked buf then unmask (mask_bytes buf) 0 bytes else bytes

-- What `decodeFrames` ends with: the payloads, or the exception `std::length_error` that the
-- constructor of a payload throws.
pub data Decoded : Type 0 where
  payloads : List (List ℕ) → Decoded
  length_error : Decoded

abbrev pub prepend : List ℕ → Decoded → Decoded
prepend p (payloads ps) = payloads (p ∷ ps)
prepend p length_error = length_error

-- `opcode == 1 || opcode == 2`.
unfoldable pub is_data : List ℕ → Bool
is_data buf = let opcode = bit_and (get_or buf 0 0) 0x0f in opcode == 1 || opcode == 2

-- `decodeFrames`, with `max_size` the greatest size of a `std::string`. The list is the rest of the
-- buffer, `bytes_left` its length.
module _ (max_size : ℕ) where
  pub decode_loop : ℕ → List ℕ → Decoded
  decode_loop zero buf = payloads []
  decode_loop (suc fuel) buf =
      let bytes_left = length buf in
      let frame_size = add_size (header_length buf) (payload_length buf) in
      let rest = decode_loop fuel (drop frame_size buf) in
      if ltb bytes_left 2
      then payloads []
      else if ltb bytes_left (header_length buf)
      then payloads []
      else if ltb bytes_left frame_size
      then payloads []
      else if ltb max_size (payload_length buf)
      then length_error
      else if is_data buf
      then prepend (payload_of buf) rest
      else rest

  -- A frame takes at least two bytes, so there are fewer rounds than bytes.
  pub decode_frames : List ℕ → Decoded
  decode_frames buffer = decode_loop (suc (length buffer)) buffer
