-- ===== src/Construction/Uuid.antt =====
-- `generateUUID` of src/construction/Utils.cpp. The random device is a parameter: `dis i` is the
-- number from 0 to 15 that is drawn for position `i`.
use Prim.Native.Nat.{bit_and, bit_or}
use akkon.Base.{
  ℕ, zero, suc, ◌+◌, ◌%◌, ◌<◌, ◌≡◌, ◌⊎◌, inl, inr, refl, ◌||◌, [], ◌∷◌, ◌++◌, if◌then◌else◌, ◌==◌,
  arith,
}
use akkon.Base.Bits.{bit_and-low_mask}
use akkon.Base.Text.{Text, codes}
use akkon.Crypto.Hex.{hex_digit}

-- The character at position `i`.
abbrev pub uuid_char : (ℕ → ℕ) → ℕ → ℕ
uuid_char dis i =
    if i == 8 || (i == 13 || (i == 18 || i == 23))
    then b'-'
    else if i == 14
    then b'4'
    else if i == 19
    then hex_digit (bit_or (bit_and (dis i) 3) 8)
    else hex_digit (dis i)

-- `n` rounds of the loop, from position `i` on.
abbrev pub uuid_chars : (ℕ → ℕ) → ℕ → ℕ → Text
uuid_chars dis i zero = []
uuid_chars dis i (suc n) = uuid_char dis i ∷ uuid_chars dis (i + 1) n

pub generate_uuid : (ℕ → ℕ) → Text
generate_uuid dis = uuid_chars dis 0 36

abbrev pub group : (ℕ → ℕ) → ℕ → ℕ → Text
group dis i zero = []
group dis i (suc n) = hex_digit (dis i) ∷ group dis (i + 1) n

-- The variant of RFC 4122: one of the digits 8, 9, a and b.
abbrev pub IsVariant : ℕ → Type 0
IsVariant v = (v ≡ b'8') ⊎ (v ≡ b'9') ⊎ (v ≡ b'a') ⊎ (v ≡ b'b')

IsVariant-low : (r : ℕ) → r < 4 → IsVariant (hex_digit (bit_or r 8))
unfolding hex_digit
IsVariant-low zero h = inl refl
IsVariant-low (suc zero) h = inr (inl refl)
IsVariant-low (suc (suc zero)) h = inr (inr (inl refl))
IsVariant-low (suc (suc (suc zero))) h = inr (inr (inr refl))
IsVariant-low (suc (suc (suc (suc r)))) h = absurd (omega arith)

IsVariant-digit : (d : ℕ) → IsVariant (hex_digit (bit_or (bit_and d 3) 8))
IsVariant-digit d = rw (bit_and-low_mask 2 d) (IsVariant-low (d % 4) (omega arith))

-- Whatever is drawn, the text has the layout of a version 4 identifier: five groups of hexadecimal
-- digits with hyphens between them, 4 at the head of the third, and 8, 9, a or b at the head of the
-- fourth.
pub generate_uuid_lem :
    (dis : ℕ → ℕ)
    → (v : ℕ) × IsVariant v
      × (generate_uuid dis
          ≡ group dis 0 8
            ++ (codes "-"
                ++ (group dis 9 4
                    ++ (codes "-4"
                        ++ (group dis 15 3
                            ++ (codes "-"
                                ++ (v ∷ group dis 20 3 ++ (codes "-" ++ group dis 24 12))))))))
unfolding generate_uuid
generate_uuid_lem dis = (_, IsVariant-digit (dis 19), refl)
