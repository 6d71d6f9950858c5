-- ===== src/Crypto/Sha256.antt =====
-- `Hash` of src/crypto/Hash.{h,cpp}.
pub mod Digest
mod Tests
use Prim.Native.Nat.{bit_or}
use akkon.Base.{
  ℕ, zero, suc, ◌+◌, ◌-◌, ◌*◌, ◌/◌, ◌%◌, ◌^◌, List, [], ◌∷◌, ◌++◌, length, get_or, drop, replicate,
  if◌then◌else◌, ltb, ◌==◌,
}
use akkon.Crypto.Pad.{pad}
use akkon.Crypto.Hex.{word_hex}
use akkon.Crypto.Word.{word_mod, add_word, shift_left, shift_right, complement, ◌^^◌, ◌&◌, word_at}

-- `k`, the constants of the rounds.
abbrev round_constants : List ℕ
round_constants =
    0x428a2f98 ∷ 0x71374491 ∷ 0xb5c0fbcf ∷ 0xe9b5dba5 ∷ 0x3956c25b ∷ 0x59f111f1 ∷ 0x923f82a4
    ∷ 0xab1c5ed5 ∷ 0xd807aa98 ∷ 0x12835b01 ∷ 0x243185be ∷ 0x550c7dc3 ∷ 0x72be5d74 ∷ 0x80deb1fe
    ∷ 0x9bdc06a7 ∷ 0xc19bf174 ∷ 0xe49b69c1 ∷ 0xefbe4786 ∷ 0x0fc19dc6 ∷ 0x240ca1cc ∷ 0x2de92c6f
    ∷ 0x4a7484aa ∷ 0x5cb0a9dc ∷ 0x76f988da ∷ 0x983e5152 ∷ 0xa831c66d ∷ 0xb00327c8 ∷ 0xbf597fc7
    ∷ 0xc6e00bf3 ∷ 0xd5a79147 ∷ 0x06ca6351 ∷ 0x14292967 ∷ 0x27b70a85 ∷ 0x2e1b2138 ∷ 0x4d2c6dfc
    ∷ 0x53380d13 ∷ 0x650a7354 ∷ 0x766a0abb ∷ 0x81c2c92e ∷ 0x92722c85 ∷ 0xa2bfe8a1 ∷ 0xa81a664b
    ∷ 0xc24b8b70 ∷ 0xc76c51a3 ∷ 0xd192e819 ∷ 0xd6990624 ∷ 0xf40e3585 ∷ 0x106aa070 ∷ 0x19a4c116
    ∷ 0x1e376c08 ∷ 0x2748774c ∷ 0x34b0bcb5 ∷ 0x391c0cb3 ∷ 0x4ed8aa4a ∷ 0x5b9cca4f ∷ 0x682e6ff3
    ∷ 0x748f82ee ∷ 0x78a5636f ∷ 0x84c87814 ∷ 0x8cc70208 ∷ 0x90befffa ∷ 0xa4506ceb ∷ 0xbef9a3f7
    ∷ 0xc67178f2 ∷ []

-- `ROTRIGHT`.
rot_right : ℕ → ℕ → ℕ
rot_right a b = bit_or (shift_right a b) (shift_left a (32 - b))

-- `CH`, `MAJ`, `EP0`, `EP1`, `SIG0` and `SIG1`.
ch : ℕ → ℕ → ℕ → ℕ
ch x y z = (x & y) ^^ (complement x & z)

maj : ℕ → ℕ → ℕ → ℕ
maj x y z = (x & y) ^^ (x & z) ^^ (y & z)

ep0 : ℕ → ℕ
unfolding rot_right
ep0 x = rot_right x 2 ^^ rot_right x 13 ^^ rot_right x 22

ep1 : ℕ → ℕ
unfolding rot_right
ep1 x = rot_right x 6 ^^ rot_right x 11 ^^ rot_right x 25

sig0 : ℕ → ℕ
unfolding rot_right
sig0 x = rot_right x 7 ^^ rot_right x 18 ^^ shift_right x 3

sig1 : ℕ → ℕ
unfolding rot_right
sig1 x = rot_right x 17 ^^ rot_right x 19 ^^ shift_right x 10

-- The arrays `h` and `wv` of eight words.
pub record Words : Type 0 where
  pub w0 : ℕ
  pub w1 : ℕ
  pub w2 : ℕ
  pub w3 : ℕ
  pub w4 : ℕ
  pub w5 : ℕ
  pub w6 : ℕ
  pub w7 : ℕ

-- `w[0]` to `w[15]`: `n` words from word `j` of the block on.
message_words : List ℕ → ℕ → ℕ → List ℕ
unfolding word_at
message_words block j zero = []
message_words block j (suc n) = word_at block (j * 4) ∷ message_words block (j + 1) n

-- The loop that appends `n` words to the schedule; `w` holds the words below index `j`.
extend_schedule : List ℕ → ℕ → ℕ → List ℕ
unfolding sig0 sig1
extend_schedule w j zero = w
extend_schedule w j (suc n) =
    let word =
      add_word
        (add_word (add_word (sig1 (get_or w (j - 2) 0)) (get_or w (j - 7) 0))
          (sig0 (get_or w (j - 15) 0)))
        (get_or w (j - 16) 0) in
    extend_schedule (w ++ word ∷ []) (j + 1) n

schedule : List ℕ → List ℕ
unfolding message_words extend_schedule
schedule block = extend_schedule (message_words block 0 16) 16 48

-- One round, with its constant and its word of the schedule.
round : Words → ℕ → ℕ → Words
unfolding ep0 ep1 ch maj
round v k w =
    let t1 = add_word (add_word (add_word (add_word v.w7 (ep1 v.w4)) (ch v.w4 v.w5 v.w6)) k) w in
    let t2 = add_word (ep0 v.w0) (maj v.w0 v.w1 v.w2) in
    record {
      w0 = add_word t1 t2;
      w1 = v.w0;
      w2 = v.w1;
      w3 = v.w2;
      w4 = add_word v.w3 t1;
      w5 = v.w4;
      w6 = v.w5;
      w7 = v.w6;
    }

-- The 64 rounds, over the constants and the schedule side by side.
rounds : Words → List ℕ → List ℕ → Words
unfolding round
rounds v [] ws = v
rounds v (k ∷ ks) [] = v
rounds v (k ∷ ks) (w ∷ ws) = rounds (round v k w) ks ws

-- `h[j] += wv[j]` for the eight words.
add_words : Words → Words → Words
add_words h v = record {
  w0 = add_word h.w0 v.w0;
  w1 = add_word h.w1 v.w1;
  w2 = add_word h.w2 v.w2;
  w3 = add_word h.w3 v.w3;
  w4 = add_word h.w4 v.w4;
  w5 = add_word h.w5 v.w5;
  w6 = add_word h.w6 v.w6;
  w7 = add_word h.w7 v.w7;
}

-- `transform`: one round of its outer loop for each block of 64 bytes, from block `i` on; the offset of
-- a block is a `uint32_t`.
transform : List ℕ → ℕ → ℕ → Words → Words
unfolding rounds schedule add_words
transform message i zero h = h
transform message i (suc blocks) h =
    transform message (i + 1) blocks
      (add_words h (rounds h round_constants (schedule (drop (i * 64 % 2 ^ 32) message))))

-- The initial value of `h`.
abbrev initial_words : Words
initial_words = record {
  w0 = 0x6a09e667;
  w1 = 0xbb67ae85;
  w2 = 0x3c6ef372;
  w3 = 0xa54ff53a;
  w4 = 0x510e527f;
  w5 = 0x9b05688c;
  w6 = 0x1f83d9ab;
  w7 = 0x5be0cd19;
}

-- The eight words in the order of the array.
abbrev pub word_list : Words → List ℕ
word_list h = h.w0 ∷ h.w1 ∷ h.w2 ∷ h.w3 ∷ h.w4 ∷ h.w5 ∷ h.w6 ∷ h.w7 ∷ []

-- The loop that writes the words into the string stream.
unfoldable pub hex_words : List ℕ → List ℕ
hex_words [] = []
hex_words (w ∷ ws) = word_hex w ++ hex_words ws

-- `h` after `transform` of the padded input; `block_nb` is a `uint32_t`.
pub digest_words : List ℕ → Words
digest_words input = let msg = pad input in transform msg 0 (length msg / 64 % 2 ^ 32) initial_words

-- `sha256`, from the bytes of the input to the hexadecimal text of the digest.
pub sha256 : List ℕ → List ℕ
sha256 input = hex_words (word_list (digest_words input))
