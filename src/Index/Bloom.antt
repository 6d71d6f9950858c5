-- ===== src/Index/Bloom.antt =====
-- `BloomFilter` of src/index/BloomFilter.{h,cpp}. The arena that the bits are allocated in is the
-- business of the container.
pub mod Bits
pub mod Membership
use Prim.Native.Nat.{min}
use akkon.Base.{
  ℕ, zero, suc, ◌+◌, ◌-◌, ◌*◌, ◌%◌, ◌≤◌, ◌<◌, ◌≡◌, ◌≢◌, refl, Bool, true, false, ◌&&◌, Option, none,
  some, List, [], ◌∷◌, ◌++◌, length, length-set, get_or, set, take, drop, replicate, arith,
  if◌then◌else◌, ltb, ◌==◌,
}
use akkon.Crypto.Sha256.{sha256}
use akkon.Crypto.HexValue.{stoull_hex}

pub record BloomFilter : Type 0 where
  pub bits : List Bool
  pub num_hashes : ℕ

-- The constructor.
unfoldable pub make_filter : ℕ → ℕ → BloomFilter
make_filter size_in_bits num_hash_functions = record {
  bits = replicate size_in_bits false;
  num_hashes = num_hash_functions;
}

-- The loop of `hash` from index `i` on, with `n` rounds left. `none` is an exception of `stoull`, or a
-- division by zero, where the filter has no bits.
hash_chunks : List ℕ → ℕ → ℕ → ℕ → Option (List ℕ)
hash_chunks sha256_hex size i zero = some []
hash_chunks sha256_hex size i (suc n) =
    let rest = hash_chunks sha256_hex size (i + 1) n in
    elim (stoull_hex (take 8 (drop (i * 8) sha256_hex))) [
      | none ↦ none
      | some h ↦ elim rest [
        | none ↦ none
        | some hs ↦ if size == 0 then none else some ((h % size) ∷ hs)
      ]
    ]

-- `hash`: at most eight chunks of eight digits each.
pub hash : BloomFilter → List ℕ → Option (List ℕ)
hash f item = hash_chunks (sha256 item) (length f.bits) 0 (min f.num_hashes 8)

-- `m_bits[h] = true` for every hash.
pub set_bits : List Bool → List ℕ → List Bool
set_bits bits [] = bits
set_bits bits (h ∷ hs) = set_bits (set bits h true) hs

-- Every hash's bit is set.
pub test_bits : List Bool → List ℕ → Bool
test_bits bits [] = true
test_bits bits (h ∷ hs) = get_or bits h false && test_bits bits hs

-- `add`; `none` is an exception.
pub add : BloomFilter → List ℕ → Option BloomFilter
unfolding set_bits
add f item = elim (hash f item) [
  | none ↦ none
  | some hs ↦ some (record f { bits = set_bits f.bits hs })
]

-- `possiblyContains`; `none` is an exception.
pub possibly_contains : BloomFilter → List ℕ → Option Bool
unfolding test_bits
possibly_contains f item = elim (hash f item) [ none ↦ none | some hs ↦ some (test_bits f.bits hs) ]
