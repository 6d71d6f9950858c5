-- ===== src/Index/Bloom/Membership.antt =====
-- What `add` and `possiblyContains` promise each other.
use akkon.Base.{ℕ, ◌<◌, ◌≡◌, ◌∙◌, ap, true, some, List, length, arith}
use akkon.Index.Bloom.{BloomFilter, set_bits, test_bits, add, possibly_contains}
use akkon.Index.Bloom.Bits.{
  positions, hash-positions, positions_bound, length-set_bits, test_bits-set_bits,
  test_bits-set_bits_self,
}

-- The filter after an item was added.
abbrev pub added : BloomFilter → List ℕ → BloomFilter
added f item = record f { bits = set_bits f.bits (positions f item) }

pub add_lem :
    (f : BloomFilter) (item : List ℕ) → 0 < length f.bits → add f item ≡ some (added f item)
unfolding add
add_lem f item pos = ground (arith, hash-positions f item pos)

pub possibly_contains_lem :
    (f : BloomFilter) (item : List ℕ)
    → 0 < length f.bits
    → possibly_contains f item ≡ some (test_bits f.bits (positions f item))
unfolding possibly_contains
possibly_contains_lem f item pos = ground (arith, hash-positions f item pos)

pub length-added : (f : BloomFilter) (item : List ℕ) → length (added f item).bits ≡ length f.bits
length-added f item = length-set_bits f.bits (positions f item)

pub positions-added :
    (f : BloomFilter) (item other : List ℕ) → positions (added f item) other ≡ positions f other
positions-added f item other = rw (length-added f item)

-- A filter with at least one bit reports an item that was just added.
pub possibly_contains-added_self :
    (f : BloomFilter) (item : List ℕ)
    → 0 < length f.bits
    → possibly_contains (added f item) item ≡ some true
possibly_contains-added_self f item h =
    possibly_contains_lem (added f item) item (rw length-added h)
    ∙ ap some (
        rw (positions-added f item item)
          (test_bits-set_bits_self f.bits (positions f item) (positions_bound f item h)))

-- What it reports it goes on reporting.
pub possibly_contains-added :
    (f : BloomFilter) (item other : List ℕ)
    → 0 < length f.bits
    → possibly_contains f other ≡ some true
    → possibly_contains (added f item) other ≡ some true
possibly_contains-added f item other pos h =
    possibly_contains_lem (added f item) other (rw length-added pos)
    ∙ ap some (
        rw (positions-added f item other) (
          test_bits-set_bits f.bits (positions f item) (positions f other)
            (ground (arith, possibly_contains_lem f other pos))))
