-- ===== src/Index/Bloom/Bits.antt =====
-- Which bits an item has, and that a bit once set stays set.
use Prim.Native.Nat.{min}
use native.Mathlib.Nat.{mod-lt}
use native.Mathlib.Numerals.{add-one}
use akkon.Base.{
  ℕ, zero, suc, ◌+◌, ◌%◌, ◌≤◌, ◌<◌, ◌≡◌, refl, ◌∙◌, Bool, true, false, some, List, [], ◌∷◌, map,
  All, length, length-set, get_or, get_or-set_self, set, take, drop, drop-get_or, arith,
}
use akkon.Crypto.Sha256.{sha256, digest_words, word_list}
use akkon.Crypto.Sha256.Digest.{sha256-chunk}
use akkon.Index.Bloom.{BloomFilter, hash_chunks, hash, set_bits, test_bits}

-- The positions of an item: the first words of its digest, modulo the size of the filter.
abbrev pub positions : BloomFilter → List ℕ → List ℕ
positions f item =
    map (λ w. w % length f.bits) (take (min f.num_hashes 8) (word_list (digest_words item)))

hash_chunks_lem :
    (item : List ℕ) (size i n : ℕ)
    → 0 < size
    → i + n ≤ 8
    → hash_chunks (sha256 item) size i n
      ≡ some (map (λ w. w % size) (take n (drop i (word_list (digest_words item)))))
unfolding hash_chunks
hash_chunks_lem item size i zero pos h = refl
hash_chunks_lem item size i (suc n) pos h = ground (
  arith,
  sha256-chunk item i,
  drop-get_or (word_list (digest_words item)) i 0,
  add-one i,
  hash_chunks_lem item size (i + 1) n,
)

-- `hash` on a filter with bits throws nothing, and returns the positions of the item.
pub hash-positions :
    (f : BloomFilter) (item : List ℕ) → 0 < length f.bits → hash f item ≡ some (positions f item)
unfolding hash
hash-positions f item pos =
    hash_chunks_lem item (length f.bits) 0 (min f.num_hashes 8) pos (omega arith)

pub positions_bound :
    (f : BloomFilter) (item : List ℕ)
    → 0 < length f.bits
    → All (λ j. j < length f.bits) (positions f item)
positions_bound f item h = bounded (take (min f.num_hashes 8) (word_list (digest_words item)))
  where
    bounded : (ws : List ℕ) → All (λ j. j < length f.bits) (map (λ w. w % length f.bits) ws)
    bounded [] = tt
    bounded (w ∷ ws) = (mod-lt w h, bounded ws)

pub length-set_bits : (bits : List Bool) (hs : List ℕ) → length (set_bits bits hs) ≡ length bits
unfolding set_bits
length-set_bits bits [] = refl
length-set_bits bits (h ∷ hs) = length-set_bits (set bits h true) hs ∙ length-set bits h true

set_keeps :
    (bits : List Bool) (h j : ℕ)
    → get_or bits j false ≡ true
    → get_or (set bits h true) j false ≡ true
set_keeps [] h j e = e
set_keeps (b ∷ bits) zero zero e = refl
set_keeps (b ∷ bits) zero (suc j) e = e
set_keeps (b ∷ bits) (suc h) zero e = e
set_keeps (b ∷ bits) (suc h) (suc j) e = set_keeps bits h j e

set_bits_keeps :
    (bits : List Bool) (hs : List ℕ) (j : ℕ)
    → get_or bits j false ≡ true
    → get_or (set_bits bits hs) j false ≡ true
unfolding set_bits
set_bits_keeps bits [] j e = e
set_bits_keeps bits (h ∷ hs) j e = set_bits_keeps (set bits h true) hs j (set_keeps bits h j e)

-- Setting further bits keeps a passed test passed.
pub test_bits-set_bits :
    (bits : List Bool) (hs js : List ℕ)
    → test_bits bits js ≡ true
    → test_bits (set_bits bits hs) js ≡ true
unfolding test_bits
test_bits-set_bits bits hs [] e = refl
test_bits-set_bits bits hs (j ∷ js) e =
    ground (arith, set_bits_keeps bits hs j, test_bits-set_bits bits hs js)

-- The bits that were set pass the test.
pub test_bits-set_bits_self :
    (bits : List Bool) (hs : List ℕ)
    → All (λ j. j < length bits) hs
    → test_bits (set_bits bits hs) hs ≡ true
unfolding test_bits set_bits
test_bits-set_bits_self bits [] h = refl
test_bits-set_bits_self bits (j ∷ hs) h = ground (
  arith,
  set_bits_keeps (set bits j true) hs j (get_or-set_self bits j true false h.0),
  test_bits-set_bits_self (set bits j true) hs (rw length-set h.1),
)
