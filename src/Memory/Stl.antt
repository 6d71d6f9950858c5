-- ===== src/Memory/Stl.antt =====
-- `ArenaAllocatorSTL` of src/memory/ArenaAllocatorSTL.h: the adapter that the containers use.
use akkon.Base.{ℕ, ◌*◌, ◌%◌, ◌^◌, ◌≤◌, ◌<◌, ◌≡◌, arith, Option, none, some}
use akkon.Memory.Arena.{Arena, allocate}
use akkon.Memory.Arena.Invariant.{IsValid, needed}
use akkon.Memory.Arena.Safety.{Granted, allocate_correct}

-- `std::malloc` is not the program's: it answers with an address or with the null pointer.
module _ (malloc : ℕ → Option ℕ) where
  -- `allocate(n)` for elements of `size_of` bytes, with the arena that `m_arena` points to. The
  -- result `none` is the exception `std::bad_alloc`.
  pub stl_allocate : Option Arena → ℕ → ℕ → Option ℕ × Option Arena
  stl_allocate none size_of n = (malloc (n * size_of % 2 ^ 64), none)
  stl_allocate (some arena) size_of n =
      let (ptr, arena') = allocate arena (n * size_of % 2 ^ 64) in (ptr, some arena')

  -- With a valid arena and a byte count below 2 ^ 63, `allocate` asks `malloc` for nothing: it
  -- throws and leaves the arena as it was exactly if the elements do not fit, and otherwise it
  -- hands out a block of `n * size_of` bytes of the arena.
  pub stl_allocate_arena :
      {a : Arena} (size_of n : ℕ)
      → IsValid a
      → n * size_of < 2 ^ 63
      → (a.capacity < needed a (n * size_of) → stl_allocate (some a) size_of n ≡ (none, some a))
        × (needed a (n * size_of) ≤ a.capacity
            → (address : ℕ) × (b : Arena) × (stl_allocate (some a) size_of n
                ≡ (some address, some b))
              × Granted a b (n * size_of) address)
  unfolding stl_allocate
  stl_allocate_arena {a} size_of n v small = rw wrap (
    λ full. rw (correct.0 full),
    λ fits.
        let (address, returned, granted) = correct.1 fits in
        (address, (allocate a (n * size_of)).1, rw returned, granted),
  )
    where
      wrap : n * size_of % 2 ^ 64 ≡ n * size_of
      wrap = omega arith

      correct :
          (a.capacity < needed a (n * size_of) → allocate a (n * size_of) ≡ (none, a))
          × (needed a (n * size_of) ≤ a.capacity
              → (address : ℕ) × ((allocate a (n * size_of)).0 ≡ some address)
                × Granted a (allocate a (n * size_of)).1 (n * size_of) address)
      correct = allocate_correct (n * size_of) v small
