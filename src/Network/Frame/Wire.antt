-- ===== src/Network/Frame/Wire.antt =====
-- Frames as RFC 6455 lays them out, independently of the codec: the serialisation that a client or
-- the server puts on the wire, and what the codec reads from it.
use Prim.Native.Nat.{bit_or, bit_xor}
use akkon.Base.{
  ℕ, suc, ◌+◌, ◌*◌, ◌/◌, ◌%◌, ◌^◌, ◌≤◌, ◌<◌, ◌≡◌, refl, sym, ap, ◌∙◌, Bool, true, false, List, [],
  ◌∷◌, ◌++◌, length, get_or, arith, if◌then◌else◌, ltb, leb,
}
use native.Mathlib.Decide.{dec_lt}
use akkon.Base.Bits.{byte_masks, bit_or-disjoint, bit_xor_cancel}
use akkon.Network.Frame.{unmask, read_length, short_len, is_masked, len_offset, payload_length}

pub record Wire : Type 0 where
  pub first : ℕ
  pub masked : Bool
  pub key : List ℕ
  pub payload : List ℕ

abbrev pub IsByte : ℕ → Type 0
IsByte b = b < 256

pub record IsWire (w : Wire) : Type 0 where
  pub first_byte : w.first < 256
  pub key_length : length w.key ≡ 4
  pub sized : length w.payload + 14 < 2 ^ 64

-- The mask bit and the length, in one, three or nine bytes.
unfoldable pub length_field : Bool → ℕ → List ℕ
length_field masked n =
    let bit : ℕ = if masked then 128 else 0 in
    if leb n 125
    then (bit + n) ∷ []
    else if ltb n 65536
    then (bit + 126) ∷ (n / 256) ∷ (n % 256) ∷ []
    else (bit + 127)
      ∷ (n / 2 ^ 56)
      ∷ (n / 2 ^ 48 % 256)
      ∷ (n / 2 ^ 40 % 256)
      ∷ (n / 2 ^ 32 % 256)
      ∷ (n / 2 ^ 24 % 256)
      ∷ (n / 2 ^ 16 % 256)
      ∷ (n / 2 ^ 8 % 256)
      ∷ (n % 256)
      ∷ []

unfoldable pub key_field : Wire → List ℕ
key_field w = if w.masked then w.key else []

-- Section 5.3: each byte is combined with the next of the four bytes of the key, in turn.
abbrev pub rfc_mask : ℕ → ℕ → ℕ → ℕ → List ℕ → List ℕ
rfc_mask k0 k1 k2 k3 [] = []
rfc_mask k0 k1 k2 k3 (b ∷ bs) = bit_xor b k0 ∷ rfc_mask k1 k2 k3 k0 bs

abbrev pub mask_with : List ℕ → List ℕ → List ℕ
mask_with key bs = rfc_mask (get_or key 0 0) (get_or key 1 0) (get_or key 2 0) (get_or key 3 0) bs

-- The payload as it travels.
unfoldable pub body : Wire → List ℕ
body w = if w.masked then mask_with w.key w.payload else w.payload

unfoldable pub serialize : Wire → List ℕ
serialize w = (w.first ∷ length_field w.masked (length w.payload)) ++ (key_field w ++ body w)

pub length-unmask : (mask : List ℕ) (i : ℕ) (bs : List ℕ) → length (unmask mask i bs) ≡ length bs
unfolding unmask
length-unmask mask i [] = refl
length-unmask mask i (b ∷ bs) = ap suc (length-unmask mask (i + 1) bs)

-- Unmasking twice with one mask gives the bytes back.
pub unmask-unmask : (mask : List ℕ) (i : ℕ) (bs : List ℕ) → unmask mask i (unmask mask i bs) ≡ bs
unfolding unmask
unmask-unmask mask i [] = refl
unmask-unmask mask i (b ∷ bs) =
    rw (bit_xor_cancel b (get_or mask (i % 4) 0), unmask-unmask mask (i + 1) bs)

-- The codec's mask is that of section 5.3, from any byte on.
unmask-rfc_mask :
    (mask : List ℕ) (i : ℕ) (bs : List ℕ)
    → unmask mask i bs
      ≡ rfc_mask
          (get_or mask (i % 4) 0)
          (get_or mask ((i + 1) % 4) 0)
          (get_or mask ((i + 1 + 1) % 4) 0)
          (get_or mask ((i + 1 + 1 + 1) % 4) 0)
          bs
unfolding unmask
unmask-rfc_mask mask i [] = refl
unmask-rfc_mask mask i (b ∷ bs) =
    ap (λ t. bit_xor b (get_or mask (i % 4) 0) ∷ t)
      (unmask-rfc_mask mask (i + 1) bs ∙ ap (λ k. shifted (get_or mask k 0)) turn)
  where
    shifted : ℕ → List ℕ
    shifted k =
        rfc_mask (get_or mask ((i + 1) % 4) 0) (get_or mask ((i + 1 + 1) % 4) 0)
          (get_or mask ((i + 1 + 1 + 1) % 4) 0) k bs

    turn : (i + 1 + 1 + 1 + 1) % 4 ≡ i % 4
    turn = omega arith

-- The codec takes the mask off again.
pub unmask-mask_with : (mask bs : List ℕ) → unmask mask 0 (mask_with mask bs) ≡ bs
unmask-mask_with mask bs =
    ap (unmask mask 0) (sym (unmask-rfc_mask mask 0 bs)) ∙ unmask-unmask mask 0 bs

length-mask_with : (mask bs : List ℕ) → length (mask_with mask bs) ≡ length bs
length-mask_with mask bs = ap length (sym (unmask-rfc_mask mask 0 bs)) ∙ length-unmask mask 0 bs

pub length-body : (w : Wire) → length (body w) ≡ length w.payload
unfolding body
length-body w = ground (arith, length-mask_with w.key w.payload)

-- What the codec reads from the length field, whatever follows it.
pub record Reads (buf : List ℕ) (masked : Bool) (n offset : ℕ) : Type 0 where
  pub mask_bit : is_masked buf ≡ masked
  pub mask_offset : len_offset buf ≡ offset
  pub size : payload_length buf ≡ n

-- The eight bytes of a 64-bit length.
abbrev pub length_digits : ℕ → List ℕ → List ℕ
length_digits n rest =
    (n / 2 ^ 56)
    ∷ (n / 2 ^ 48 % 256)
    ∷ (n / 2 ^ 40 % 256)
    ∷ (n / 2 ^ 32 % 256)
    ∷ (n / 2 ^ 24 % 256)
    ∷ (n / 2 ^ 16 % 256)
    ∷ (n / 2 ^ 8 % 256)
    ∷ (n % 256)
    ∷ rest

-- A round of the loop takes the next byte in.
read_round :
    (q b n : ℕ) → n < 2 ^ 64 → n / 256 ≡ q → n % 256 ≡ b → bit_or (q * 2 ^ 8 % 2 ^ 64) b ≡ n
read_round q b n h e f = rw (wrap, bit_or-disjoint 8 q b (omega arith)) (omega arith)
  where
    wrap : q * 2 ^ 8 % 2 ^ 64 ≡ q * 2 ^ 8
    wrap = omega arith

pub read_length-digits :
    (first second : ℕ) (rest : List ℕ) (n : ℕ)
    → n < 2 ^ 64
    → read_length (first ∷ second ∷ length_digits n rest) 2 0 8 ≡ n
unfolding read_length
read_length-digits first second rest n h =
    rw
      (
        read_round 0 (n / 2 ^ 56) (n / 2 ^ 56) (omega arith) (omega arith) (omega arith),
        read_round (n / 2 ^ 56) (n / 2 ^ 48 % 256) (n / 2 ^ 48) (omega arith) (omega arith)
            (omega arith),
        read_round (n / 2 ^ 48) (n / 2 ^ 40 % 256) (n / 2 ^ 40) (omega arith) (omega arith)
            (omega arith),
        read_round (n / 2 ^ 40) (n / 2 ^ 32 % 256) (n / 2 ^ 32) (omega arith) (omega arith)
            (omega arith),
        read_round (n / 2 ^ 32) (n / 2 ^ 24 % 256) (n / 2 ^ 24) (omega arith) (omega arith)
            (omega arith),
        read_round (n / 2 ^ 24) (n / 2 ^ 16 % 256) (n / 2 ^ 16) (omega arith) (omega arith)
            (omega arith),
        read_round (n / 2 ^ 16) (n / 2 ^ 8 % 256) (n / 2 ^ 8) (omega arith) (omega arith)
            (omega arith),
        read_round (n / 2 ^ 8) (n % 256) n (omega arith) (omega arith) (omega arith),
      )
      refl

length-short : (masked : Bool) (n : ℕ) → n ≤ 125 → length (length_field masked n) ≡ 1
unfolding length_field
length-short masked n h = ground arith

length-medium : (masked : Bool) (n : ℕ) → 125 < n → n < 65536 → length (length_field masked n) ≡ 3
unfolding length_field
length-medium masked n h k = ground arith

length-long : (masked : Bool) (n : ℕ) → 65535 < n → length (length_field masked n) ≡ 9
unfolding length_field
length-long masked n h = ground arith

-- The length field takes between one and nine bytes.
pub length-length_field :
    (masked : Bool) (n : ℕ)
    → (1 ≤ length (length_field masked n)) × (length (length_field masked n) ≤ 9)
unfolding length_field
length-length_field masked n = (ground arith, ground arith)

module _ (first : ℕ) (rest : List ℕ) where
  Reads-short :
      (masked : Bool) (n : ℕ) → n ≤ 125 → Reads (first ∷ (length_field masked n ++ rest)) masked n 2
  unfolding length_field is_masked len_offset payload_length short_len
  Reads-short true n h = ground (arith, byte_masks (128 + n))
  Reads-short false n h = ground (arith, byte_masks (0 + n))

  Reads-medium :
      (masked : Bool) (n : ℕ)
      → 125 < n
      → n < 65536
      → Reads (first ∷ (length_field masked n ++ rest)) masked n 4
  unfolding length_field is_masked len_offset payload_length short_len
  Reads-medium true n h k = ground (arith, bit_or-disjoint 8 (n / 256) (n % 256))
  Reads-medium false n h k = ground (arith, bit_or-disjoint 8 (n / 256) (n % 256))

  Reads-long :
      (masked : Bool) (n : ℕ)
      → 65535 < n
      → n < 2 ^ 64
      → Reads (first ∷ (length_field masked n ++ rest)) masked n 10
  unfolding length_field is_masked len_offset payload_length short_len
  Reads-long true n h k = ground (arith, read_length-digits first 255 rest n k)
  Reads-long false n h k = ground (arith, read_length-digits first 127 rest n k)

  pub Reads-field :
      (masked : Bool) (n : ℕ)
      → n < 2 ^ 64
      → Reads
          (first ∷ (length_field masked n ++ rest))
          masked
          n
          (1 + length (length_field masked n))
  Reads-field masked n h = elim (dec_lt n 126) [
    | yes short ↦ rw (length-short masked n (omega arith)) (Reads-short masked n (omega arith))
    | no longer ↦ elim (dec_lt n 65536) [
      | yes medium ↦
          rw (length-medium masked n (omega arith) medium)
            (Reads-medium masked n (omega arith) medium)
      | no long ↦ rw (length-long masked n (omega arith)) (Reads-long masked n (omega arith) h)
    ]
  ]
