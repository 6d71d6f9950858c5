-- ===== src/Network/Frame/Decode.antt =====
-- `decodeFrames` on frames that are laid out by RFC 6455: it returns their payloads.
use mathlib.Core.Path.{subst}
use mathlib.Core.List.{append_assoc}
use akkon.Base.{
  ℕ, suc, ◌+◌, ◌≤◌, ◌≡◌, refl, ◌∙◌, Bool-cases, inl, inr, true, false, List, [], ◌∷◌, ◌++◌, length,
  take, drop, length-append, drop-drop, take-append_length, drop-append_length, arith,
  if◌then◌else◌, not_lt→ltb, add_size,
}
use akkon.Network.Frame.{
  header_length, payload_length, mask_bytes, payload_of, is_data, prepend, decode_loop,
}
use akkon.Network.Frame.Wire.{
  Wire, IsWire, length_field, key_field, body, serialize, Reads, Reads-field, length-body,
  mask_with, unmask-mask_with, length-length_field,
}

-- The bytes in front of the key: the first byte and the length field.
abbrev front : Wire → List ℕ
front w = w.first ∷ length_field w.masked (length w.payload)

key_field_bound : (w : Wire) → IsWire w → length (key_field w) ≤ 4
unfolding key_field
key_field_bound w good = ground (arith, good.key_length)

module _ (w : Wire) (good : IsWire w) (rest : List ℕ) where
  -- A buffer that starts with the frame.
  abbrev buffer : List ℕ
  buffer = serialize w ++ rest

  buffer_parts : buffer ≡ front w ++ (key_field w ++ (body w ++ rest))
  unfolding serialize
  buffer_parts = simp append_assoc

  reads : Reads buffer w.masked (length w.payload) (length (front w))
  reads = rw buffer_parts (
      subst (Reads (front w ++ (key_field w ++ (body w ++ rest))) w.masked (length w.payload))
        (omega arith)
        (Reads-field w.first (key_field w ++ (body w ++ rest)) w.masked (length w.payload)
          (omega (arith, good.sized))))

  header_length-buffer : header_length buffer ≡ length (front w) + length (key_field w)
  unfolding header_length key_field
  header_length-buffer = ground (arith, reads.mask_bit, reads.mask_offset, good.key_length)

  behind_front : drop (length (front w)) buffer ≡ key_field w ++ (body w ++ rest)
  behind_front =
      rw buffer_parts
        (drop-append_length (length (front w)) (front w) (key_field w ++ (body w ++ rest)) refl)

  behind_header : drop (header_length buffer) buffer ≡ body w ++ rest
  behind_header =
      rw
        (
          header_length-buffer,
          ← drop-drop (length (key_field w)) (length (front w)) buffer,
          behind_front,
        )
        (drop-append_length (length (key_field w)) (key_field w) (body w ++ rest) refl)

  length-serialize :
      length (serialize w) ≡ length (front w) + length (key_field w) + length w.payload
  unfolding serialize
  length-serialize = omega (
    arith,
    length-append (front w) (key_field w ++ body w),
    length-append (key_field w) (body w),
    length-body w,
  )

  taken : take (payload_length buffer) (drop (header_length buffer) buffer) ≡ body w
  taken =
      rw (reads.size, behind_header)
        (take-append_length (length w.payload) (body w) rest (length-body w))

  mask_bytes-buffer : w.masked ≡ true → mask_bytes buffer ≡ w.key
  unfolding mask_bytes
  mask_bytes-buffer e =
      rw (reads.mask_bit ∙ e, reads.mask_offset, behind_front, key)
        (take-append_length 4 w.key (body w ++ rest) good.key_length)
    where
      key : key_field w ≡ w.key
      key = unfold key_field in rw e

  body-cases :
      (w.masked ≡ true → body w ≡ mask_with w.key w.payload)
      × (w.masked ≡ false → body w ≡ w.payload)
  unfolding body
  body-cases = ground arith

  payload_of-buffer : payload_of buffer ≡ w.payload
  unfolding payload_of
  payload_of-buffer = elim (Bool-cases w.masked) [
    | inl e ↦
        rw (taken, reads.mask_bit ∙ e, mask_bytes-buffer e, body-cases.0 e)
          (unmask-mask_with w.key w.payload)
    | inr e ↦ rw (taken, reads.mask_bit ∙ e) (body-cases.1 e)
  ]

  frame_size-buffer : add_size (header_length buffer) (payload_length buffer) ≡ length (serialize w)
  frame_size-buffer =
      rw (header_length-buffer, reads.size, length-serialize)
        (omega (
          arith,
          good.sized,
          length-length_field w.masked (length w.payload),
          key_field_bound w good,
        ))

  after : drop (length (serialize w)) buffer ≡ rest
  after = drop-append_length (length (serialize w)) (serialize w) rest refl

  is_data-buffer : is_data buffer ≡ is_data (w.first ∷ [])
  unfolding is_data serialize
  is_data-buffer = refl

  -- One round of the loop takes the frame off the buffer, and keeps its payload if it is data.
  pub decode_loop-serialize :
      (max_size fuel : ℕ)
      → length w.payload ≤ max_size
      → decode_loop max_size (suc fuel) buffer ≡ (
          if is_data (w.first ∷ [])
          then prepend w.payload (decode_loop max_size fuel rest)
          else decode_loop max_size fuel rest)
  unfolding decode_loop
  decode_loop-serialize max_size fuel h = rw (
    frame_size-buffer,
    after,
    reads.size,
    payload_of-buffer,
    header_length-buffer,
    is_data-buffer,
    not_lt→ltb (length buffer) 2 (omega (arith, total, length-serialize, field)),
    not_lt→ltb (length buffer) (length (front w) + length (key_field w))
        (omega (arith, total, length-serialize)),
    not_lt→ltb (length buffer) (length (serialize w)) (omega (arith, total)),
    not_lt→ltb max_size (length w.payload) (omega arith),
  )
    where
      total : length buffer ≡ length (serialize w) + length rest
      total = length-append (serialize w) rest

      field : 1 ≤ length (length_field w.masked (length w.payload))
      field = (length-length_field w.masked (length w.payload)).0
