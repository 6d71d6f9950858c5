-- ===== src/Crypto/Pad.antt =====
-- The padding of `Hash::sha256` in src/crypto/Hash.cpp, which the SHA-1 of
-- src/network/protocols/WebSocketHandler.cpp repeats.
use mathlib.Core.List.{append-nil, append_assoc}
use akkon.Base.{
  ℕ, zero, suc, ◌+◌, ◌-◌, ◌*◌, ◌/◌, ◌%◌, ◌^◌, ◌<◌, ◌≡◌, refl, sym, ap, ◌∙◌, List, [], ◌∷◌, ◌++◌,
  length, replicate, length-append, length-replicate, arith, if◌then◌else◌, ◌==◌,
}

-- `while ((msg.size() % 64) != 56) msg.push_back(0x00);`
unfoldable pub pad_zeros : ℕ → List ℕ → List ℕ
pad_zeros zero msg = msg
pad_zeros (suc fuel) msg =
    let more = pad_zeros fuel (msg ++ 0 ∷ []) in if length msg % 64 == 56 then msg else more

-- `for (i = 7; i >= 0; --i) msg.push_back(uint8_t(msg_len >> (i * 8)));`, with `i + 1` rounds left.
unfoldable pub push_length : List ℕ → ℕ → ℕ → List ℕ
push_length msg msg_len zero = msg
push_length msg msg_len (suc i) = push_length (msg ++ (msg_len / 2 ^ (i * 8) % 256) ∷ []) msg_len i

-- 64 rounds of fuel: a residue mod 64 is reached in fewer.
unfoldable pub pad : List ℕ → List ℕ
pad input = push_length (pad_zeros 64 (input ++ 0x80 ∷ [])) (length input * 8 % 2 ^ 64) 8

-- The number in a big-endian string of bytes.
pub big_endian : ℕ → List ℕ → ℕ
big_endian acc [] = acc
big_endian acc (b ∷ bs) = big_endian (acc * 256 + b) bs

pad_zeros_lem :
    (fuel z : ℕ) (msg : List ℕ)
    → z < fuel
    → z < 64
    → (length msg + z) % 64 ≡ 56
    → pad_zeros fuel msg ≡ msg ++ replicate z 0
unfolding pad_zeros
pad_zeros_lem zero z msg h k e = absurd (omega arith)
pad_zeros_lem (suc fuel) zero msg h k e = ground (arith, append-nil msg)
pad_zeros_lem (suc fuel) (suc z) msg h k e = ground (
  arith,
  length-append msg (0 ∷ []),
  pad_zeros_lem fuel z (msg ++ 0 ∷ []),
  append_assoc msg (0 ∷ []) (replicate z 0),
)

-- The eight bytes that `push_length` appends.
pub length_bytes : ℕ → ℕ → List ℕ
length_bytes msg_len zero = []
length_bytes msg_len (suc i) = (msg_len / 2 ^ (i * 8) % 256) ∷ length_bytes msg_len i

push_length_lem :
    (msg : List ℕ) (msg_len i : ℕ) → push_length msg msg_len i ≡ msg ++ length_bytes msg_len i
unfolding push_length length_bytes
push_length_lem msg msg_len zero = sym (append-nil msg)
push_length_lem msg msg_len (suc i) =
    push_length_lem (msg ++ (msg_len / 2 ^ (i * 8) % 256) ∷ []) msg_len i
    ∙ append_assoc msg ((msg_len / 2 ^ (i * 8) % 256) ∷ []) (length_bytes msg_len i)

length-length_bytes : (msg_len i : ℕ) → length (length_bytes msg_len i) ≡ i
unfolding length_bytes
length-length_bytes msg_len zero = refl
length-length_bytes msg_len (suc i) = ap suc (length-length_bytes msg_len i)

-- The appended bytes spell the bit length.
big_endian-length_bytes : (n : ℕ) → n < 2 ^ 64 → big_endian 0 (length_bytes n 8) ≡ n
unfolding big_endian length_bytes
big_endian-length_bytes n h = omega arith

-- How many zeros the loop pushes.
abbrev zeros_for : List ℕ → ℕ
zeros_for input = (119 - length input % 64) % 64

pad_shape :
    (input : List ℕ)
    → length input < 2 ^ 61
    → pad input
      ≡ input ++ 0x80 ∷ (replicate (zeros_for input) 0 ++ length_bytes (length input * 8) 8)
unfolding pad
pad_shape input h =
    push_length_lem (pad_zeros 64 (input ++ 0x80 ∷ [])) (length input * 8 % 2 ^ 64) 8
    ∙ rw (
      pad_zeros_lem 64 (zeros_for input) (input ++ 0x80 ∷ []) (omega arith) (omega arith)
          (omega (arith, length-append input (0x80 ∷ []))),
      small,
      append_assoc,
      append_assoc,
    )
  where
    small : length input * 8 % 2 ^ 64 ≡ length input * 8
    small = omega arith

-- The padding of a message below 2 ^ 61 bytes: the fuel suffices, and the result is the message, the
-- byte 0x80, fewer than 64 zeros and the bit length in eight big-endian bytes, a whole number of
-- 64-byte blocks in all.
pub pad_lem :
    (input : List ℕ)
    → length input < 2 ^ 61
    → (zeros : ℕ) × (tail : List ℕ) × (zeros < 64)
      × (pad input ≡ input ++ 0x80 ∷ (replicate zeros 0 ++ tail))
      × (length tail ≡ 8)
      × (big_endian 0 tail ≡ length input * 8)
      × (length (pad input) % 64 ≡ 0)
pad_lem input h = (
  zeros_for input,
  length_bytes (length input * 8) 8,
  omega arith,
  pad_shape input h,
  length-length_bytes (length input * 8) 8,
  big_endian-length_bytes (length input * 8) (omega arith),
  rw (pad_shape input h) (
      omega (
        arith,
        length-append input
            (0x80 ∷ (replicate (zeros_for input) 0 ++ length_bytes (length input * 8) 8)),
        length-append (replicate (zeros_for input) 0) (length_bytes (length input * 8) 8),
        length-replicate {A = ℕ} (zeros_for input) 0,
        length-length_bytes (length input * 8) 8,
      )),
)
