-- ===== src/Memory/Arena/Memset.antt =====
-- `memset` in a region that does not wrap.
use akkon.Base.{ℕ, ◌+◌, ◌^◌, ◌≤◌, ◌<◌, ◌≡◌, arith}
use akkon.Memory.Arena.{memset}

module _ (mem : ℕ → ℕ) (offset value count i : ℕ) (inside : offset + count ≤ 2 ^ 64) where
  pub memset-in : offset ≤ i → i < offset + count → memset mem offset value count i ≡ value
  memset-in p q = ground arith

  pub memset-below : i < offset → memset mem offset value count i ≡ mem i
  memset-below p = ground arith

  pub memset-above : offset + count ≤ i → i < 2 ^ 64 → memset mem offset value count i ≡ mem i
  memset-above p q = ground arith
