-- ===== src/Memory/Arena/Invariant.antt =====
-- The invariant of an arena, and what `allocate` does to it.
use akkon.Base.{
  ℕ, ◌+◌, ◌*◌, ◌/◌, ◌%◌, ◌^◌, ◌≤◌, ◌<◌, ◌≡◌, refl, ap, ◌∙◌, true, false, none, some, [], ◌∷◌, ◌++◌,
  arith, length, length-append, ltb, add_size, sub_size,
}
use mathlib.Core.Path.{subst}
use native.Mathlib.Decide.{dec_lt}
use akkon.Memory.Arena.Memset.{memset-in, memset-below}
use akkon.Base.Bits.{bit_and-align}
use akkon.Memory.Arena.{
  Arena, make, align_up, padding, user_offset, consumption, exhausted, allocate, reset, canary,
  memset, block_intact, blocks_intact,
}
use akkon.Memory.Arena.Layout.{
  AgreeOn, block_intact-IsCanary, blocks_intact-append, Laid, Laid-append, Laid-bound,
  blocks_intact-ext,
}

pub record IsValid (a : Arena) : Type 0 where
  pub fits : a.used ≤ a.capacity
  pub sized : a.buffer_size ≡ a.capacity * 3 + 64
  pub placed : a.base + a.buffer_size ≤ 2 ^ 64
  pub counted : a.alloc_count ≡ length a.allocs
  pub laid : Laid a.base 0 a.allocs a.used
  pub intact : blocks_intact a.mem a.allocs ≡ true

align_up_lem : (c : ℕ) → c + 63 < 2 ^ 64 → align_up c ≡ (c + 63) / 64 * 64
unfolding align_up
align_up_lem c h = rw (bit_and-align (sub_size (add_size c 64) 1) (omega arith)) (omega arith)

-- Where the next block goes: no address calculation wraps.
pub record Placement (a : Arena) : Type 0 where
  pub small : padding a < 64
  pub user : user_offset a ≡ a.used + padding a + 64
  pub header : sub_size (align_up (add_size a.base a.used)) a.base ≡ a.used + padding a
  pub aligned : (a.base + (a.used + padding a)) % 64 ≡ 0

pub IsValid-Placement : {a : Arena} → IsValid a → Placement a
unfolding padding user_offset
IsValid-Placement {a} v =
    omega (arith, v.fits, v.sized, v.placed, align_up_lem (add_size a.base a.used) (omega arith))

-- The bytes that a request takes, without wrapping.
abbrev pub needed : Arena → ℕ → ℕ
needed a size = a.used + padding a + size + 128

pub exhausted_lem :
    {a : Arena} (size : ℕ)
    → IsValid a
    → size < 2 ^ 63
    → exhausted a size ≡ ltb a.capacity (needed a size)
unfolding exhausted
exhausted_lem {a} size v h =
    ap (λ n. ltb a.capacity n)
      (omega (arith, v.fits, v.sized, v.placed, (IsValid-Placement v).small))

module _ {a : Arena} (size : ℕ) (v : IsValid a) (small : size < 2 ^ 63) where
  -- The arena after a request that fits, with its canaries at plain offsets.
  abbrev pub grown : Arena
  grown = record a {
    mem =
        memset (memset a.mem (a.used + padding a) canary 64) (a.used + padding a + 64 + size) canary
          64;
    used = needed a size;
    alloc_count = a.alloc_count + 1;
    allocs = a.allocs ++ (record { offset = a.used + padding a + 64; size = size }) ∷ [];
  }

  pub allocate_fits :
      needed a size ≤ a.capacity
      → allocate a size ≡ (some (a.base + (a.used + padding a + 64)), grown)
  unfolding allocate
  allocate_fits fits = rw (fitting, at.user, at.header, footer, used, count, address)
    where
      at : Placement a
      at = IsValid-Placement v

      fitting : exhausted a size ≡ false
      fitting = rw (exhausted_lem size v small) (ground arith)

      footer : add_size (a.used + padding a + 64) size ≡ a.used + padding a + 64 + size
      footer = omega (arith, v.sized, v.placed)

      used : add_size (add_size a.used (padding a)) (consumption size) ≡ needed a size
      used = omega (arith, v.sized, v.placed)

      count : add_size a.alloc_count 1 ≡ a.alloc_count + 1
      count =
          omega (
            arith,
            v.counted,
            v.fits,
            v.sized,
            v.placed,
            Laid-bound a.base 0 a.allocs a.used v.laid,
          )

      address : add_size a.base (a.used + padding a + 64) ≡ a.base + (a.used + padding a + 64)
      address = omega (arith, v.sized, v.placed)

  pub allocate_full : a.capacity < needed a size → allocate a size ≡ (none, a)
  unfolding allocate
  allocate_full full = rw (exhausted_lem size v small) (ground arith)

  -- The new memory agrees with the old one below the header of the new block.
  pub grown_agrees : needed a size ≤ a.capacity → AgreeOn a.mem grown.mem 0 a.used
  grown_agrees fits i p q =
      memset-below (memset a.mem (a.used + padding a) canary 64) (a.used + padding a + 64 + size)
        canary 64 i (omega (arith, v.sized, v.placed)) (omega arith)
      ∙ memset-below a.mem (a.used + padding a) canary 64 i (omega (arith, v.sized, v.placed))
          (omega arith)

  grown_canaries :
      needed a size ≤ a.capacity
      → block_intact grown.mem (record { offset = a.used + padding a + 64; size = size }) ≡ true
  grown_canaries fits =
      (block_intact-IsCanary grown.mem (record { offset = a.used + padding a + 64; size = size })
          (omega arith) (omega (arith, v.sized, v.placed))).1
        (
          λ i p q.
              memset-below (memset a.mem (a.used + padding a) canary 64)
                (a.used + padding a + 64 + size) canary 64 i (omega (arith, v.sized, v.placed))
                (omega arith)
              ∙ memset-in a.mem (a.used + padding a) canary 64 i (omega (arith, v.sized, v.placed))
                  (omega arith) (omega arith),
          λ i p q.
              memset-in (memset a.mem (a.used + padding a) canary 64)
                (a.used + padding a + 64 + size) canary 64 i (omega (arith, v.sized, v.placed)) p q,
        )

  grown-IsValid : needed a size ≤ a.capacity → IsValid grown
  grown-IsValid fits = record {
    fits = fits;
    sized = v.sized;
    placed = v.placed;
    counted = omega (
      arith,
      v.counted,
      length-append a.allocs ((record { offset = a.used + padding a + 64; size = size }) ∷ []),
    );
    laid =
        subst
          (Laid a.base 0
            (a.allocs ++ (record { offset = a.used + padding a + 64; size = size }) ∷ []))
          (omega arith)
          (Laid-append a.base 0 a.allocs a.used
            (record { offset = a.used + padding a + 64; size = size }) v.laid (omega arith)
            (omega (arith, (IsValid-Placement v).aligned)));
    intact =
        blocks_intact-append grown.mem a.allocs _
          (blocks_intact-ext a.mem grown.mem a.base 0 a.allocs a.used v.laid
              (omega (arith, v.sized, v.placed)) (grown_agrees fits)
            ∙ v.intact)
          (grown_canaries fits);
  }

-- A fresh arena whose buffer is in the address space is valid.
pub make-IsValid :
    (base capacity : ℕ)
    → 0 < base
    → base + (capacity * 3 + 64) ≤ 2 ^ 64
    → IsValid (make base capacity)
unfolding make blocks_intact
make-IsValid base capacity pos h = record {
  fits = omega arith;
  sized = omega arith;
  placed = omega arith;
  counted = refl;
  laid = omega arith;
  intact = refl;
}

-- Every request below 2 ^ 63 bytes, refused or not, keeps the invariant.
pub allocate-IsValid :
    {a : Arena} (size : ℕ) → IsValid a → size < 2 ^ 63 → IsValid (allocate a size).1
allocate-IsValid {a} size v small = elim (dec_lt a.capacity (needed a size)) [
  | yes full ↦ rw (allocate_full size v small full) v
  | no fits ↦
      rw (allocate_fits size v small (omega arith)) (grown-IsValid size v small (omega arith))
]

pub reset-IsValid : {a : Arena} → IsValid a → IsValid (reset a)
unfolding reset blocks_intact
reset-IsValid v = record {
  fits = omega arith;
  sized = v.sized;
  placed = v.placed;
  counted = refl;
  laid = omega arith;
  intact = refl;
}
