-- ===== src/Base/Decimal.antt =====
-- `std::to_string` of a number below 2 ^ 64, and the number that a decimal text stands for.
use Prim.Native.Nat.{ℕ, zero, suc, ◌+◌, ◌-◌, ◌*◌, ◌/◌, ◌%◌, ◌^◌, ◌≤◌, ◌<◌}
use mathlib.Core.Path.{◌≡◌, refl}
use mathlib.Core.List.{[], ◌∷◌, ◌++◌}
use native.Mathlib.Nat.{pow-suc}
use native.Mathlib.Omega.{arith}
use native.Mathlib.Decide.{dec_lt}
use akkon.Base.Tests.{ltb, if◌then◌else◌, lt→ltb, not_lt→ltb}
use akkon.Base.Lists.{All, All-append}
use akkon.Base.Text.{Text}

unfoldable pub decimal_text : ℕ → ℕ → Text
decimal_text zero n = []
decimal_text (suc fuel) n =
    let front = decimal_text fuel (n / 10) in
    if ltb n 10 then (b'0' + n) ∷ [] else front ++ (b'0' + n % 10) ∷ []

-- Twenty digits are enough for a 64-bit number.
unfoldable pub to_string : ℕ → Text
unfolding decimal_text
to_string n = decimal_text 20 n

-- The value of a decimal text behind the number `acc`.
pub decimal_value : ℕ → Text → ℕ
decimal_value acc [] = acc
decimal_value acc (c ∷ text) = decimal_value (acc * 10 + (c - b'0')) text

abbrev pub IsDigit : ℕ → Type 0
IsDigit c = (b'0' ≤ c) × (c ≤ b'9')

decimal_value-append :
    (acc : ℕ) (front back : Text)
    → decimal_value acc (front ++ back) ≡ decimal_value (decimal_value acc front) back
unfolding decimal_value
decimal_value-append acc [] back = refl
decimal_value-append acc (c ∷ front) back = decimal_value-append (acc * 10 + (c - b'0')) front back

decimal_value-decimal_text :
    (fuel n : ℕ) → n < 10 ^ fuel → decimal_value 0 (decimal_text fuel n) ≡ n
unfolding decimal_text
decimal_value-decimal_text zero n h = unfold decimal_value in omega arith
decimal_value-decimal_text (suc fuel) n h = elim (dec_lt n 10) [
  | yes small ↦ rw (decimal_text, lt→ltb n 10 small) (unfold decimal_value in omega arith)
  | no large ↦
      rw
        (
          decimal_text,
          not_lt→ltb n 10 large,
          decimal_value-append 0 (decimal_text fuel (n / 10)) ((b'0' + n % 10) ∷ []),
          decimal_value-decimal_text fuel (n / 10) (omega (arith, pow-suc 10 fuel)),
        )
        (unfold decimal_value in omega arith)
]

pub decimal_value-to_string : (n : ℕ) → n < 2 ^ 64 → decimal_value 0 (to_string n) ≡ n
unfolding to_string
decimal_value-to_string n h = decimal_value-decimal_text 20 n (omega arith)

decimal_text-IsDigit : (fuel n : ℕ) → All IsDigit (decimal_text fuel n)
unfolding decimal_text
decimal_text-IsDigit zero n = tt
decimal_text-IsDigit (suc fuel) n = elim (dec_lt n 10) [
  | yes small ↦ rw (decimal_text, lt→ltb n 10 small) ((omega arith, omega arith), tt)
  | no large ↦
      rw (decimal_text, not_lt→ltb n 10 large)
        (All-append IsDigit (decimal_text fuel (n / 10)) ((b'0' + n % 10) ∷ [])
          (decimal_text-IsDigit fuel (n / 10)) ((omega arith, omega arith), tt))
]

pub to_string-IsDigit : (n : ℕ) → All IsDigit (to_string n)
unfolding to_string
to_string-IsDigit n = decimal_text-IsDigit 20 n
