-- ===== src/Crypto/HexValue.antt =====
-- Reading hexadecimal text back: `std::stoull(text, nullptr, 16)`, for text that starts with a
-- digit (the C++ function also skips blanks, a sign and `0x`, which the digests do not hold).
use native.Mathlib.Decide.{dec_lt}
use native.Mathlib.Nat.{pow-suc, zero-add}
use akkon.Base.{
  ℕ, zero, suc, ◌+◌, ◌-◌, ◌*◌, ◌/◌, ◌%◌, ◌^◌, ◌<◌, ◌≡◌, refl, ◌∙◌, ap, ◌&&◌, Option, none, some,
  List, [], ◌∷◌, ◌++◌, All, length, replicate, inl, inr, lt→ltb, not_lt→ltb, arith, if◌then◌else◌,
  leb,
}
use akkon.Crypto.Hex.{
  hex_digit, hex_text, word_hex, IsHex, hex_text-IsHex, zeros-IsHex, word_hex_lem,
}

-- The value of a digit, of either case.
unfoldable pub hex_value : ℕ → Option ℕ
hex_value c =
    if leb b'0' c && leb c b'9'
    then some (c - b'0')
    else if leb b'a' c && leb c b'f'
    then some (c - 87)
    else if leb b'A' c && leb c b'F'
    then some (c - 55)
    else none

-- The digits up to the first character that is none, after the value `acc`.
pub read_hex : ℕ → List ℕ → ℕ
unfolding hex_value
read_hex acc [] = acc
read_hex acc (c ∷ cs) = elim (hex_value c) [ none ↦ acc | some d ↦ read_hex (acc * 16 + d) cs ]

-- `none` is the exception for text with no digit at its start.
unfoldable pub stoull_hex : List ℕ → Option ℕ
unfolding read_hex
stoull_hex [] = none
stoull_hex (c ∷ cs) = elim (hex_value c) [ none ↦ none | some d ↦ some (read_hex d cs) ]

hex_value_of_IsHex : (c : ℕ) → IsHex c → (d : ℕ) × (hex_value c ≡ some d)
unfolding hex_value
hex_value_of_IsHex c (inl h) = (c - b'0', ground arith)
hex_value_of_IsHex c (inr h) = (c - 87, ground arith)

hex_value-hex_digit : (d : ℕ) → d < 16 → hex_value (hex_digit d) ≡ some d
unfolding hex_value hex_digit
hex_value-hex_digit d h = ground arith

read_hex-append :
    (acc : ℕ) (xs ys : List ℕ)
    → All IsHex xs
    → read_hex acc (xs ++ ys) ≡ read_hex (read_hex acc xs) ys
unfolding read_hex
read_hex-append acc [] ys h = refl
read_hex-append acc (x ∷ xs) ys h =
    let (d, e) = hex_value_of_IsHex x h.0 in
    ground (arith, e, read_hex-append (acc * 16 + d) xs ys h.1)

read_hex_digit : (acc d : ℕ) → d < 16 → read_hex acc (hex_digit d ∷ []) ≡ acc * 16 + d
unfolding read_hex
read_hex_digit acc d h = ground (arith, hex_value-hex_digit d h)

read_hex-hex_text : (fuel n : ℕ) → n < 16 ^ fuel → read_hex 0 (hex_text fuel n) ≡ n
unfolding hex_text
read_hex-hex_text zero n h = unfold read_hex in omega arith
read_hex-hex_text (suc fuel) n h = elim (dec_lt n 16) [
  | yes small ↦ rw (lt→ltb n 16 small) (read_hex_digit 0 n small ∙ zero-add n)
  | no large ↦
      rw
        (
          not_lt→ltb n 16 large,
          read_hex-append 0 (hex_text fuel (n / 16)) (hex_digit (n % 16) ∷ [])
              (hex_text-IsHex fuel (n / 16)),
          read_hex-hex_text fuel (n / 16) (omega (arith, pow-suc 16 fuel)),
          read_hex_digit (n / 16) (n % 16) (omega arith),
        )
        (omega arith)
]

read_hex-zeros : (n : ℕ) → read_hex 0 (replicate n b'0') ≡ 0
unfolding read_hex hex_value
read_hex-zeros zero = refl
read_hex-zeros (suc n) = read_hex-zeros n

stoull_hex-read_hex :
    (text : List ℕ) → 0 < length text → All IsHex text → stoull_hex text ≡ some (read_hex 0 text)
unfolding stoull_hex
stoull_hex-read_hex [] h k = absurd (omega arith)
stoull_hex-read_hex (c ∷ cs) h k = let (d, e) = hex_value_of_IsHex c k.0 in ground (arith, e)

-- Eight digits of a word read back as the word.
pub stoull_hex-word_hex : (word : ℕ) → word < 2 ^ 32 → stoull_hex (word_hex word) ≡ some word
stoull_hex-word_hex word h =
    stoull_hex-read_hex (word_hex word) (omega (arith, (word_hex_lem word h).0))
      (word_hex_lem word h).1
    ∙ ap some value
  where
    value : read_hex 0 (word_hex word) ≡ word
    value =
        unfold word_hex in
        rw
          (
            read_hex-append 0 (replicate (8 - length (hex_text 16 word)) b'0') (hex_text 16 word)
                (zeros-IsHex _),
            read_hex-zeros,
            read_hex-hex_text 16 word (omega arith),
          )
          refl
