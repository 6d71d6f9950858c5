-- ===== src/Base/Bits.antt =====
-- Laws of the native bit operations at variables: one equation for the lowest digit, and from it
-- what the masks, the alignment and the unmasking of the program need.
use Prim.Native.Nat.{
  ℕ, zero, suc, ◌+◌, ◌-◌, ◌*◌, ◌/◌, ◌%◌, ◌^◌, ◌≤◌, ◌<◌, min, differ, digits, bitwise, bit_and,
  bit_xor, bit_and-bitwise, bit_xor-bitwise, bit_or, bit_or-bitwise, max,
}
use mathlib.Core.Path.{◌≡◌, refl}
use mathlib.Core.Bool.{Bool, true, ◌&&◌}
use native.Mathlib.Nat.{pow-suc, one-le-pow}
use native.Mathlib.Omega.{arith}
use akkon.Base.Tests.{◌==◌}

-- Any two fuels that reach the first operand give the same digits.
module _ (tail : ℕ → ℕ) (digit : ℕ → ℕ → ℕ) where
  refueled : (x y k l : ℕ) → (x ≤ k) × (x ≤ l) → digits tail digit l x y ≡ digits tail digit k x y
  refueled (suc x) y (suc k) (suc l) reach =
      rw (refueled (suc x / 2) (y / 2) k l (omega (arith, reach), omega (arith, reach)))
  refueled (suc x) y (suc k) zero reach = absurd (omega (arith, reach))
  refueled (suc x) y zero l reach = absurd (omega (arith, reach))
  refueled zero y (suc k) (suc l) reach = refl
  refueled zero y (suc k) zero reach = refl
  refueled zero y zero (suc l) reach = refl
  refueled zero y zero zero reach = refl

  lowest_digit :
      (x y : ℕ)
      → bitwise tail digit (suc x) y
        ≡ digit (suc x % 2) (y % 2) + 2 * bitwise tail digit (suc x / 2) (y / 2)
  lowest_digit x y =
      omega (arith, refueled (suc x / 2) (y / 2) x (suc x / 2) (omega arith, omega arith))

pub bit_and_halves : (x y : ℕ) → bit_and x y ≡ min (x % 2) (y % 2) + 2 * bit_and (x / 2) (y / 2)
bit_and_halves (suc x) y = simp bit_and-bitwise (lowest_digit (λ _. 0) min x y)
bit_and_halves zero y = simp bit_and-bitwise (omega arith)

pub bit_or_halves : (x y : ℕ) → bit_or x y ≡ max (x % 2) (y % 2) + 2 * bit_or (x / 2) (y / 2)
bit_or_halves (suc x) y = simp bit_or-bitwise (lowest_digit (λ t. t) max x y)
bit_or_halves zero y = simp bit_or-bitwise (omega arith)

pub bit_xor_halves : (x y : ℕ) → bit_xor x y ≡ differ (x % 2) (y % 2) + 2 * bit_xor (x / 2) (y / 2)
bit_xor_halves (suc x) y = simp bit_xor-bitwise (lowest_digit (λ t. t) differ x y)
bit_xor_halves zero y = simp bit_xor-bitwise (omega arith)

differ_digits : (x y : ℕ) → x < 2 → y < 2 → (differ x y < 2) × (differ (differ x y) y ≡ x)
differ_digits zero zero hx hy = (omega arith, refl)
differ_digits zero (suc zero) hx hy = (omega arith, refl)
differ_digits (suc zero) zero hx hy = (omega arith, refl)
differ_digits (suc zero) (suc zero) hx hy = (omega arith, refl)
differ_digits zero (suc (suc y)) hx hy = absurd (omega arith)
differ_digits (suc zero) (suc (suc y)) hx hy = absurd (omega arith)
differ_digits (suc (suc x)) y hx hy = absurd (omega arith)

differ-lt : (a b : ℕ) → differ (a % 2) (b % 2) < 2
differ-lt a b = (differ_digits (a % 2) (b % 2) (omega arith) (omega arith)).0

half-bit_xor : (a b : ℕ) → bit_xor a b / 2 ≡ bit_xor (a / 2) (b / 2)
half-bit_xor a b = omega (arith, bit_xor_halves a b, differ-lt a b)

parity-bit_xor : (a b : ℕ) → bit_xor a b % 2 ≡ differ (a % 2) (b % 2)
parity-bit_xor a b = omega (arith, bit_xor_halves a b, differ-lt a b)

xor_cancel_below : (n a b : ℕ) → a ≤ n → b ≤ n → bit_xor (bit_xor a b) b ≡ a
xor_cancel_below zero zero zero ha hb = refl
xor_cancel_below zero zero (suc b) ha hb = absurd (omega arith)
xor_cancel_below zero (suc a) b ha hb = absurd (omega arith)
xor_cancel_below (suc n) a b ha hb =
    rw (bit_xor_halves (bit_xor a b) b, half-bit_xor a b, parity-bit_xor a b)
      (omega (
        arith,
        xor_cancel_below n (a / 2) (b / 2) (omega arith) (omega arith),
        (differ_digits (a % 2) (b % 2) (omega arith) (omega arith)).1,
      ))

-- Applying the same mask twice gives the value back.
pub bit_xor_cancel : (a b : ℕ) → bit_xor (bit_xor a b) b ≡ a
bit_xor_cancel a b = xor_cancel_below (a + b) a b (omega arith) (omega arith)

pub bit_xor-lt : (k a b : ℕ) → a < 2 ^ k → b < 2 ^ k → bit_xor a b < 2 ^ k
bit_xor-lt zero zero zero ha hb = omega arith
bit_xor-lt zero zero (suc b) ha hb = absurd (omega arith)
bit_xor-lt zero (suc a) b ha hb = absurd (omega arith)
bit_xor-lt (suc k) a b ha hb = omega (
  arith,
  bit_xor_halves a b,
  differ-lt a b,
  pow-suc 2 k,
  bit_xor-lt k (a / 2) (b / 2) (omega (arith, pow-suc 2 k)) (omega (arith, pow-suc 2 k)),
)

bit_and_nothing : (bound x : ℕ) → x ≤ bound → bit_and x 0 ≡ 0
bit_and_nothing (suc bound) (suc x) small =
    omega (arith, bit_and_nothing bound (suc x / 2) (omega arith), bit_and_halves (suc x) 0)
bit_and_nothing zero (suc x) small = absurd (omega arith)
bit_and_nothing bound zero small = refl

pub bit_and_none : (x : ℕ) → bit_and x 0 ≡ 0
bit_and_none x = bit_and_nothing x x (omega arith)

low_mask_halves : (k : ℕ) → ((2 ^ suc k - 1) / 2 ≡ 2 ^ k - 1) × ((2 ^ suc k - 1) % 2 ≡ 1)
low_mask_halves k = omega (arith, pow-suc 2 k, one-le-pow k 2 (omega arith))

digits_halves :
    (k high low : ℕ)
    → ((high * 2 ^ suc k + low) / 2 ≡ high * 2 ^ k + low / 2)
      × ((high * 2 ^ suc k + low) % 2 ≡ low % 2)
digits_halves k high low = omega (arith, scaled)
  where
    scaled : high * 2 ^ suc k ≡ high * 2 ^ k * 2
    scaled = rw pow-suc (omega arith)

-- A mask of `k` ones keeps the low `k` digits `low` of a number.
bit_and_low_digits : (k high low : ℕ) → low < 2 ^ k → bit_and (high * 2 ^ k + low) (2 ^ k - 1) ≡ low
bit_and_low_digits zero high low h = rw bit_and_none (omega arith)
bit_and_low_digits (suc k) high low h =
    rw
      (
        bit_and_halves,
        (digits_halves k high low).0,
        (digits_halves k high low).1,
        (low_mask_halves k).0,
        (low_mask_halves k).1,
        bit_and_low_digits k high (low / 2) (omega (arith, pow-suc 2 k)),
      )
      (omega arith)

pub bit_and-low_mask : (k a : ℕ) → bit_and a (2 ^ k - 1) ≡ a % 2 ^ k
bit_and-low_mask k a =
    ground (arith, one-le-pow k 2 (omega arith), bit_and_low_digits k (a / 2 ^ k) (a % 2 ^ k))

-- `a & ~63` of a 64-bit word rounds down to a multiple of 64.
pub bit_and-align : (a : ℕ) → a < 2 ^ 64 → bit_and a (2 ^ 64 - 64) ≡ a / 64 * 64
bit_and-align a h = omega (
  arith,
  bit_and_halves a (2 ^ 64 - 64),
  bit_and_halves (a / 2) (2 ^ 63 - 32),
  bit_and_halves (a / 2 / 2) (2 ^ 62 - 16),
  bit_and_halves (a / 2 / 2 / 2) (2 ^ 61 - 8),
  bit_and_halves (a / 2 / 2 / 2 / 2) (2 ^ 60 - 4),
  bit_and_halves (a / 2 / 2 / 2 / 2 / 2) (2 ^ 59 - 2),
  bit_and-low_mask 58 (a / 2 / 2 / 2 / 2 / 2 / 2),
)

-- Disjoint digits: `(high << k) | low` is a sum where `low` fits below.
bit_or_nothing : (bound x : ℕ) → x ≤ bound → bit_or x 0 ≡ x
bit_or_nothing (suc bound) (suc x) small =
    omega (arith, bit_or_nothing bound (suc x / 2) (omega arith), bit_or_halves (suc x) 0)
bit_or_nothing zero (suc x) small = absurd (omega arith)
bit_or_nothing bound zero small = refl

scaled_halves : (k high : ℕ) → (high * 2 ^ suc k / 2 ≡ high * 2 ^ k) × (high * 2 ^ suc k % 2 ≡ 0)
scaled_halves k high = omega (arith, scaled)
  where
    scaled : high * 2 ^ suc k ≡ high * 2 ^ k * 2
    scaled = rw pow-suc (omega arith)

pub bit_or-disjoint :
    (k high low : ℕ) → low < 2 ^ k → bit_or (high * 2 ^ k) low ≡ high * 2 ^ k + low
bit_or-disjoint zero high low h = ground (arith, bit_or_nothing high high (omega arith))
bit_or-disjoint (suc k) high low h =
    rw
      (
        bit_or_halves,
        (scaled_halves k high).0,
        (scaled_halves k high).1,
        bit_or-disjoint k high (low / 2) (omega (arith, pow-suc 2 k)),
      )
      (omega (arith, scaled_halves k high))

-- A test that evaluation has found true of the first `k` numbers.
found_true : (ℕ → Bool) → ℕ → Bool
found_true test zero = true
found_true test (suc k) = found_true test k && test k

found_true-lt : (test : ℕ → Bool) (k i : ℕ) → i < k → found_true test k ≡ true → test i ≡ true
unfolding found_true
found_true-lt test (suc k) i small found = ground (arith, found_true-lt test k i)
found_true-lt test zero i small found = absurd (omega arith)

-- The masks that the frame codec applies to a byte.
masks_found :
    found_true
      (λ b.
        bit_and b 0x0f == b % 16 && bit_and b 0x7f == b % 128 && bit_and b 0x80 == b / 128 * 128)
      256
    ≡ true
unfolding found_true
masks_found = refl

pub byte_masks :
    (b : ℕ)
    → b < 256
    → (bit_and b 0x7f ≡ b % 128) × (bit_and b 0x80 ≡ b / 128 * 128) × (bit_and b 0x0f ≡ b % 16)
byte_masks b h = ground (arith, found_true-lt _ 256 b h masks_found)
