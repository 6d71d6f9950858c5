-- ===== src/Network/Sha1.antt =====
-- `sha1` of src/network/protocols/WebSocketHandler.cpp.
mod Tests
use Prim.Native.Nat.{bit_or}
use akkon.Base.{
  ℕ, zero, suc, ◌<◌, All, All-append, arith, ◌+◌, ◌-◌, ◌*◌, ◌/◌, ◌%◌, ◌^◌, List, [], ◌∷◌, ◌++◌,
  length, get_or, drop, if◌then◌else◌, ltb,
}
use akkon.Base.Bits.{bit_and-low_mask}
use akkon.Crypto.Pad.{pad}
use akkon.Crypto.Word.{add_word, shift_left, shift_right, complement, ◌^^◌, ◌&◌, word_at}

-- The variables `h0` to `h4`, and `a` to `e`.
pub record State : Type 0 where
  pub a : ℕ
  pub b : ℕ
  pub c : ℕ
  pub d : ℕ
  pub e : ℕ

abbrev pub initial : State
initial = record { a = 0x67452301; b = 0xefcdab89; c = 0x98badcfe; d = 0x10325476; e = 0xc3d2e1f0 }

-- `(x << n) | (x >> (32 - n))`.
rot_left : ℕ → ℕ → ℕ
rot_left x n = bit_or (shift_left x n) (shift_right x (32 - n))

-- `w[0]` to `w[15]`: `n` words from word `i` of the chunk on.
chunk_words : List ℕ → ℕ → ℕ → List ℕ
unfolding word_at
chunk_words chunk i zero = []
chunk_words chunk i (suc n) = word_at chunk (i * 4) ∷ chunk_words chunk (i + 1) n

-- The loop that appends `n` words; `w` holds the words below index `i`.
extend_words : List ℕ → ℕ → ℕ → List ℕ
unfolding rot_left
extend_words w i zero = w
extend_words w i (suc n) =
    let value =
      get_or w (i - 3) 0 ^^ get_or w (i - 8) 0 ^^ get_or w (i - 14) 0 ^^ get_or w (i - 16) 0 in
    extend_words (w ++ rot_left value 1 ∷ []) (i + 1) n

schedule : List ℕ → List ℕ
unfolding chunk_words extend_words
schedule chunk = extend_words (chunk_words chunk 0 16) 16 64

-- `f` and `k` of round `i`.
mix : ℕ → State → ℕ
mix i s =
    if ltb i 20
    then bit_or (s.b & s.c) (complement s.b & s.d)
    else if ltb i 40
    then s.b ^^ s.c ^^ s.d
    else if ltb i 60
    then bit_or (bit_or (s.b & s.c) (s.b & s.d)) (s.c & s.d)
    else s.b ^^ s.c ^^ s.d

constant : ℕ → ℕ
constant i =
    if ltb i 20
    then 0x5a827999
    else if ltb i 40
    then 0x6ed9eba1
    else if ltb i 60
    then 0x8f1bbcdc
    else 0xca62c1d6

round : ℕ → ℕ → State → State
unfolding rot_left mix constant
round i w s =
    let temp =
      add_word (add_word (add_word (add_word (rot_left s.a 5) (mix i s)) s.e) (constant i)) w in
    record { a = temp; b = s.a; c = rot_left s.b 30; d = s.c; e = s.d }

-- The 80 rounds, over the schedule from round `i` on.
rounds : ℕ → List ℕ → State → State
unfolding round
rounds i [] s = s
rounds i (w ∷ ws) s = rounds (i + 1) ws (round i w s)

add_state : State → State → State
add_state h s = record {
  a = add_word h.a s.a;
  b = add_word h.b s.b;
  c = add_word h.c s.c;
  d = add_word h.d s.d;
  e = add_word h.e s.e;
}

-- The loop over the chunks; `n` of them are left.
unfoldable pub chunks : ℕ → List ℕ → State → State
unfolding rounds schedule add_state
chunks zero block h = h
chunks (suc n) block h = chunks n (drop 64 block) (add_state h (rounds 0 (schedule block) h))

-- The four bytes of one word.
word_bytes : ℕ → List ℕ
word_bytes h =
    (shift_right h 24 & 0xff)
    ∷ (shift_right h 16 & 0xff)
    ∷ (shift_right h 8 & 0xff)
    ∷ (h & 0xff)
    ∷ []

unfoldable pub hash_bytes : State → List ℕ
unfolding word_bytes
hash_bytes h =
    word_bytes h.a ++ (word_bytes h.b ++ (word_bytes h.c ++ (word_bytes h.d ++ word_bytes h.e)))

-- `sha1`; the padding is the one of SHA-256, a whole number of chunks.
unfoldable pub sha1 : List ℕ → List ℕ
sha1 msg = let block = pad msg in hash_bytes (chunks (length block / 64) block initial)

word_bytes_lem : (h : ℕ) → All (λ b. b < 256) (word_bytes h)
unfolding word_bytes
word_bytes_lem h =
    (masked (h / 2 ^ 24), (masked (h / 2 ^ 16), (masked (h / 2 ^ 8), (masked h, tt))))
  where
    masked : (x : ℕ) → (x & 0xff) < 256
    masked x = omega (arith, bit_and-low_mask 8 x)

-- The hash is made of bytes.
pub sha1_bytes : (msg : List ℕ) → All (λ b. b < 256) (sha1 msg)
unfolding sha1 hash_bytes
sha1_bytes msg =
    let h = chunks (length (pad msg) / 64) (pad msg) initial in
    let de = word_bytes h.d ++ word_bytes h.e in
    let cde = word_bytes h.c ++ de in
    let byte = λ (b : ℕ). b < 256 in
    All-append byte (word_bytes h.a) (word_bytes h.b ++ cde) (word_bytes_lem h.a) (
      All-append byte (word_bytes h.b) cde (word_bytes_lem h.b) (
        All-append byte (word_bytes h.c) de (word_bytes_lem h.c) (
          All-append byte (word_bytes h.d) (word_bytes h.e) (word_bytes_lem h.d)
            (word_bytes_lem h.e))))
