-- ===== src/Crypto/Hex.antt =====
-- Hexadecimal text: what `std::hex` with `setw(8)` and `setfill('0')` writes for a word, and the
-- value that `std::stoull` reads back in base 16.
use native.Mathlib.Nat.{pow-suc}
use native.Mathlib.Decide.{dec_lt}
use akkon.Base.{
  ℕ, zero, suc, ◌+◌, ◌-◌, ◌/◌, ◌%◌, ◌^◌, ◌≤◌, ◌<◌, ◌≡◌, List, [], ◌∷◌, ◌++◌, All, All-append,
  length, replicate, length-append, length-replicate, arith, if◌then◌else◌, ltb, lt→ltb, not_lt→ltb,
  ◌⊎◌,
}

unfoldable pub hex_digit : ℕ → ℕ
hex_digit d = if ltb d 10 then b'0' + d else 87 + d

-- The digits of a number with no leading zeros; 16 digits hold a 64-bit number.
unfoldable pub hex_text : ℕ → ℕ → List ℕ
unfolding hex_digit
hex_text zero n = []
hex_text (suc fuel) n =
    let rest = hex_text fuel (n / 16) in
    if ltb n 16 then hex_digit n ∷ [] else rest ++ hex_digit (n % 16) ∷ []

-- `ss << std::hex << std::setw(8) << std::setfill('0') << word`.
unfoldable pub word_hex : ℕ → List ℕ
unfolding hex_text
word_hex word = let text = hex_text 16 word in replicate (8 - length text) b'0' ++ text

-- A lowercase hexadecimal digit.
abbrev pub IsHex : ℕ → Type 0
IsHex c = (((b'0' ≤ c) × (c ≤ b'9')) ⊎ ((b'a' ≤ c) × (c ≤ b'f')))

hex_digit-IsHex : (d : ℕ) → d < 16 → IsHex (hex_digit d)
unfolding hex_digit
hex_digit-IsHex d h = ground arith

pub hex_text-IsHex : (fuel n : ℕ) → All IsHex (hex_text fuel n)
unfolding hex_text
hex_text-IsHex zero n = tt
hex_text-IsHex (suc fuel) n = elim (dec_lt n 16) [
  | yes small ↦ rw (lt→ltb n 16 small) (hex_digit-IsHex n small, tt)
  | no large ↦ rw (not_lt→ltb n 16 large) (
      All-append IsHex (hex_text fuel (n / 16)) (hex_digit (n % 16) ∷ [])
        (hex_text-IsHex fuel (n / 16)) (hex_digit-IsHex (n % 16) (omega arith), tt))
]

pub zeros-IsHex : (n : ℕ) → All IsHex (replicate n b'0')
zeros-IsHex zero = tt
zeros-IsHex (suc n) = (omega arith, zeros-IsHex n)

length-hex_text : (k fuel n : ℕ) → n < 16 ^ suc k → length (hex_text fuel n) ≤ suc k
unfolding hex_text
length-hex_text k zero n h = omega arith
length-hex_text zero (suc fuel) n h = ground arith
length-hex_text (suc k) (suc fuel) n h = ground (
  arith,
  pow-suc 16 (suc k),
  length-hex_text k fuel (n / 16),
  length-append (hex_text fuel (n / 16)) (hex_digit (n % 16) ∷ []),
)

-- A word is written in eight lowercase digits.
pub word_hex_lem :
    (word : ℕ) → word < 2 ^ 32 → (length (word_hex word) ≡ 8) × All IsHex (word_hex word)
unfolding word_hex
word_hex_lem word h = (
  omega (
    arith,
    length-hex_text 7 16 word h,
    length-append (replicate (8 - length (hex_text 16 word)) b'0') (hex_text 16 word),
    length-replicate {A = ℕ} (8 - length (hex_text 16 word)) b'0',
  ),
  All-append IsHex (replicate (8 - length (hex_text 16 word)) b'0') (hex_text 16 word)
      (zeros-IsHex _) (hex_text-IsHex 16 word),
)
