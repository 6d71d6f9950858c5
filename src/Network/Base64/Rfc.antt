-- ===== src/Network/Base64/Rfc.antt =====
-- RFC 4648, section 4: three bytes are four characters, and a last group of one or two bytes is
-- filled up with equals signs. `base64_encode` is that encoding.
use akkon.Base.{
  ℕ, zero, suc, ◌+◌, ◌*◌, ◌/◌, ◌%◌, ◌^◌, ◌<◌, ◌≡◌, refl, ap, ◌∙◌, List, [], ◌∷◌, ◌++◌, All, get_or,
  arith,
}
use akkon.Base.Bits.{bit_and-low_mask}
use akkon.Base.Text.{Text}
use akkon.Network.Base64.{alphabet, character, drain, encode_loop, push_equals, base64_encode}

-- The character for a number below 64.
abbrev pub letter : ℕ → ℕ
letter i = get_or alphabet i 0

unfoldable pub rfc4648 : List ℕ → Text
rfc4648 [] = []
rfc4648 (x ∷ []) = letter (x / 4) ∷ letter (x % 4 * 16) ∷ b'=' ∷ b'=' ∷ []
rfc4648 (x ∷ y ∷ []) =
    letter (x / 4) ∷ letter (x % 4 * 16 + y / 16) ∷ letter (y % 16 * 4) ∷ b'=' ∷ []
rfc4648 (x ∷ y ∷ z ∷ src) =
    letter (x / 4)
    ∷ letter (x % 4 * 16 + y / 16)
    ∷ letter (y % 16 * 4 + z / 64)
    ∷ letter (z % 64)
    ∷ rfc4648 src

character_lem : (index i : ℕ) → index % 64 ≡ i → character index ≡ letter i
character_lem index i e = ap letter (bit_and-low_mask 6 index ∙ e)

push_equals-four :
    (fuel a b c d : ℕ) (out : Text)
    → push_equals fuel (a ∷ b ∷ c ∷ d ∷ out) ≡ a ∷ b ∷ c ∷ d ∷ push_equals fuel out
unfolding push_equals
push_equals-four zero a b c d out = refl
push_equals-four (suc fuel) a b c d out =
    ground (arith, push_equals-four fuel a b c d (out ++ b'=' ∷ []))

-- Whatever bits are left of earlier bytes, a full group starts afresh.
encode_loop-group :
    (x y z val : ℕ) (src : List ℕ)
    → x < 256
    → y < 256
    → z < 256
    → encode_loop (x ∷ y ∷ z ∷ src) val 0
      ≡ letter (x / 4)
        ∷ letter (x % 4 * 16 + y / 16)
        ∷ letter (y % 16 * 4 + z / 64)
        ∷ letter (z % 64)
        ∷ encode_loop src
            ((((val * 2 ^ 8 + x) % 2 ^ 32 * 2 ^ 8 + y) % 2 ^ 32 * 2 ^ 8 + z) % 2 ^ 32)
            0
unfolding encode_loop drain
encode_loop-group x y z val src hx hy hz =
    let v = (val * 2 ^ 8 + x) % 2 ^ 32 in
    let w = (v * 2 ^ 8 + y) % 2 ^ 32 in
    let u = (w * 2 ^ 8 + z) % 2 ^ 32 in
    rw
      (
        character_lem (v / 4) (x / 4) (omega arith),
        character_lem (w / 16) (x % 4 * 16 + y / 16) (omega arith),
        character_lem (u / 64) (y % 16 * 4 + z / 64) (omega arith),
        character_lem (u / 1) (z % 64) (omega arith),
      )
      refl

encode_loop-two :
    (x y val : ℕ)
    → x < 256
    → y < 256
    → encode_loop (x ∷ y ∷ []) val 0
      ≡ letter (x / 4) ∷ letter (x % 4 * 16 + y / 16) ∷ letter (y % 16 * 4) ∷ []
unfolding encode_loop drain
encode_loop-two x y val hx hy =
    let v = (val * 2 ^ 8 + x) % 2 ^ 32 in
    let w = (v * 2 ^ 8 + y) % 2 ^ 32 in
    rw
      (
        character_lem (v / 4) (x / 4) (omega arith),
        character_lem (w / 16) (x % 4 * 16 + y / 16) (omega arith),
        character_lem (w * 256 % 2 ^ 32 / 64) (y % 16 * 4) (omega arith),
      )
      refl

encode_loop-one :
    (x val : ℕ) → x < 256 → encode_loop (x ∷ []) val 0 ≡ letter (x / 4) ∷ letter (x % 4 * 16) ∷ []
unfolding encode_loop drain
encode_loop-one x val hx =
    let v = (val * 2 ^ 8 + x) % 2 ^ 32 in
    rw
      (
        character_lem (v / 4) (x / 4) (omega arith),
        character_lem (v * 256 % 2 ^ 32 / 16) (x % 4 * 16) (omega arith),
      )
      refl

push_equals-encode_loop :
    (src : List ℕ) (val : ℕ)
    → All (λ b. b < 256) src
    → push_equals 4 (encode_loop src val 0) ≡ rfc4648 src
unfolding rfc4648
push_equals-encode_loop [] val h = unfold encode_loop push_equals in refl
push_equals-encode_loop (x ∷ []) val h = rw (encode_loop-one x val h.0) (unfold push_equals in refl)
push_equals-encode_loop (x ∷ y ∷ []) val h =
    rw (encode_loop-two x y val h.0 h.1.0) (unfold push_equals in refl)
push_equals-encode_loop (x ∷ y ∷ z ∷ src) val h =
    rw (encode_loop-group x y z val src h.0 h.1.0 h.1.1.0) (
      push_equals-four 4 _ _ _ _ _
      ∙ ap
          (λ t.
            letter (x / 4)
            ∷ letter (x % 4 * 16 + y / 16)
            ∷ letter (y % 16 * 4 + z / 64)
            ∷ letter (z % 64)
            ∷ t)
          (push_equals-encode_loop src
            ((((val * 2 ^ 8 + x) % 2 ^ 32 * 2 ^ 8 + y) % 2 ^ 32 * 2 ^ 8 + z) % 2 ^ 32) h.1.1.1))

-- On any bytes, `base64_encode` gives the encoding of RFC 4648, its padding included.
pub base64_encode-rfc4648 :
    (src : List ℕ) → All (λ b. b < 256) src → base64_encode src ≡ rfc4648 src
unfolding base64_encode
base64_encode-rfc4648 src h = push_equals-encode_loop src 0 h
