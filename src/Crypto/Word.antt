-- ===== src/Crypto/Word.antt =====
-- `uint32_t` arithmetic, shared by src/crypto/Hash.cpp and the SHA-1 of
-- src/network/protocols/WebSocketHandler.cpp.
use Prim.Native.Nat.{bit_and, bit_or, bit_xor}
use akkon.Base.{ℕ, ◌+◌, ◌-◌, ◌*◌, ◌/◌, ◌%◌, ◌^◌, List, get_or}

abbrev pub word_mod : ℕ
word_mod = 2 ^ 32

abbrev pub add_word : ℕ → ℕ → ℕ
add_word a b = (a + b) % 2 ^ 32

abbrev pub shift_left : ℕ → ℕ → ℕ
shift_left a n = a * 2 ^ n % 2 ^ 32

abbrev pub shift_right : ℕ → ℕ → ℕ
shift_right a n = a / 2 ^ n

-- `~a`.
abbrev pub complement : ℕ → ℕ
complement a = 2 ^ 32 - 1 - a

infixl 55 ◌^^◌
infixl 60 ◌&◌
abbrev pub ◌^^◌ : ℕ → ℕ → ℕ
a ^^ b = bit_xor a b

abbrev pub ◌&◌ : ℕ → ℕ → ℕ
a & b = bit_and a b

-- The big-endian word in the four bytes at `at`, `(b[at] << 24) | ...`.
unfoldable pub word_at : List ℕ → ℕ → ℕ
word_at bytes at =
    bit_or
      (bit_or (bit_or (shift_left (get_or bytes at 0) 24) (shift_left (get_or bytes (at + 1) 0) 16))
        (shift_left (get_or bytes (at + 2) 0) 8))
      (get_or bytes (at + 3) 0)
