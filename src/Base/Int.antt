-- ===== src/Base/Int.antt =====
-- Whole numbers over the native ℕ; `negsuc n` is `- 1 - n`.
use Prim.Native.Nat.{ℕ, ◌+◌, ◌-◌}
use akkon.Base.Tests.{leb, if◌then◌else◌}

pub data ℤ : Type 0 where
  pos negsuc : ℕ → ℤ

-- `x -= n`.
abbrev pub minus : ℤ → ℕ → ℤ
minus (pos a) n = if leb n a then pos (a - n) else negsuc (n - a - 1)
minus (negsuc a) n = negsuc (a + n)

-- `if (x < 0) x = 0`.
abbrev pub at_least_zero : ℤ → ℤ
at_least_zero (pos a) = pos a
at_least_zero (negsuc a) = pos 0

-- The value of a number that is not negative.
abbrev pub to_nat : ℤ → ℕ
to_nat (pos a) = a
to_nat (negsuc a) = 0
