-- ===== src/Memory/Arena/Safety.antt =====
-- What the users of an arena rely on: blocks that are aligned, in range and apart, and a `verify`
-- that raises the alarm exactly for a damaged canary.
use akkon.Base.{
  ℕ, ◌+◌, ◌-◌, ◌*◌, ◌%◌, ◌^◌, ◌≤◌, ◌<◌, ◌≡◌, ◌≢◌, ap, ◌∙◌, ◌↔◌, true, false, none, some, [], ◌∷◌,
  ◌++◌, arith, ◌==◌, if◌then◌else◌, Bool-cases, inl, inr,
}
use akkon.Security.{LockdownState, immediate}
use akkon.Memory.Arena.{
  Arena, make, allocate, exhausted, reset, verify, check_access, canary_failed, out_of_space,
  blocks_intact, padding,
}
use akkon.Memory.Arena.Layout.{InUser, IsIntact, blocks_intact-IsIntact, blocks_intact-user}
use akkon.Memory.Arena.Invariant.{
  IsValid, IsValid-Placement, needed, allocate_fits, allocate_full, grown_agrees, allocate-IsValid,
  make-IsValid, reset-IsValid,
}

-- A client's write of one byte.
abbrev pub poke : Arena → ℕ → ℕ → Arena
poke a j value = record a { mem = λ i. if i == j then value else a.mem i }

-- What the program does with an arena: requests, writes into user data, resets.
pub data Step : Arena → Arena → Type 0 where
  request : (a : Arena) (size : ℕ) → size < 2 ^ 63 → Step a (allocate a size).1
  write : (a : Arena) (j value : ℕ) → InUser a.allocs j → Step a (poke a j value)
  clear : (a : Arena) → Step a (reset a)

pub data Reach (a : Arena) : Arena → Type 0 where
  here : Reach a a
  next : {b c : Arena} → Reach a b → Step b c → Reach a c

poke-IsValid : {a : Arena} (j value : ℕ) → InUser a.allocs j → IsValid a → IsValid (poke a j value)
poke-IsValid {a} j value u v = record {
  fits = v.fits;
  sized = v.sized;
  placed = v.placed;
  counted = v.counted;
  laid = v.laid;
  intact =
      blocks_intact-user a.mem (poke a j value).mem a.base 0 a.allocs a.used j v.laid
        (omega (arith, v.fits, v.sized, v.placed)) u (λ i ne. ground arith)
      ∙ v.intact;
}

Step-IsValid : {a b : Arena} → Step a b → IsValid a → IsValid b
Step-IsValid (request a size small) v = allocate-IsValid size v small
Step-IsValid (write a j value u) v = poke-IsValid j value u v
Step-IsValid (clear a) v = reset-IsValid v

Reach-IsValid : {a b : Arena} → Reach a b → IsValid a → IsValid b
Reach-IsValid here v = v
Reach-IsValid (next r s) v = Step-IsValid s (Reach-IsValid r v)

-- From a fresh arena (at a non-null address with its buffer inside the address space), no sequence
-- of requests below 2 ^ 63 bytes, resets and writes into user data makes `verify` throw or change
-- the lockdown state.
pub verify-Reach :
    (base capacity : ℕ) {a : Arena} (state : LockdownState)
    → 0 < base
    → base + (capacity * 3 + 64) ≤ 2 ^ 64
    → Reach (make base capacity) a
    → verify a state ≡ (none, state)
unfolding verify
verify-Reach base capacity state pos h r =
    rw ((Reach-IsValid r (make-IsValid base capacity pos h)).intact)

-- Whatever bytes stray writes leave in an arena that is reached from a fresh one (at a non-null
-- address with its buffer inside the address space): `verify` returns and
-- leaves the state alone if every canary byte of every block is in place, and otherwise it throws
-- and the lockdown state becomes IMMEDIATE.
pub verify_exact :
    (base capacity : ℕ) {a : Arena} (mem : ℕ → ℕ) (state : LockdownState)
    → 0 < base
    → base + (capacity * 3 + 64) ≤ 2 ^ 64
    → Reach (make base capacity) a
    → (IsIntact mem a.allocs → verify (record a { mem = mem }) state ≡ (none, state))
      × (¬ IsIntact mem a.allocs
          → verify (record a { mem = mem }) state ≡ (some canary_failed, immediate))
unfolding verify
verify_exact base capacity {a} mem state pos h r = (λ ok. rw (exact.1 ok), λ bad. rw (broken bad))
  where
    v : IsValid a
    v = Reach-IsValid r (make-IsValid base capacity pos h)

    exact : (blocks_intact mem a.allocs ≡ true) ↔ IsIntact mem a.allocs
    exact =
        blocks_intact-IsIntact mem a.base 0 a.allocs a.used v.laid
          (omega (arith, v.fits, v.sized, v.placed))

    broken : ¬ IsIntact mem a.allocs → blocks_intact mem a.allocs ≡ false
    broken bad = elim (Bool-cases (blocks_intact mem a.allocs)) [
      | inl e ↦ absurd (bad (exact.0 e))
      | inr e ↦ e
    ]

-- What a granted request of `size` bytes returns, from the arena `a` to the arena `b`.
pub record Granted (a b : Arena) (size address : ℕ) : Type 0 where
  pub aligned : address % 64 ≡ 0
  -- the header canary lies behind every block in use, the footer canary within the capacity
  pub behind : a.base + a.used + 64 ≤ address
  pub within : address + size + 64 ≤ a.base + a.capacity
  pub tight : b.used ≡ address + size + 64 - a.base
  pub keeps : (i : ℕ) → i < a.used → b.mem i ≡ a.mem i
  pub tracked : b.allocs ≡ a.allocs ++ (record { offset = address - a.base; size = size }) ∷ []

-- In a valid arena a request below 2 ^ 63 bytes is refused, and changes nothing, exactly if it does
-- not fit with its padding and two canaries; otherwise it is granted an aligned block that overlaps
-- no block in use, lies within the capacity, and is tracked.
pub allocate_correct :
    {a : Arena} (size : ℕ)
    → IsValid a
    → size < 2 ^ 63
    → (a.capacity < needed a size → allocate a size ≡ (none, a))
      × (needed a size ≤ a.capacity
          → (address : ℕ) × ((allocate a size).0 ≡ some address)
            × Granted a (allocate a size).1 size address)
allocate_correct {a} size v small = (
  allocate_full size v small,
  λ fits. (
    a.base + (a.used + padding a + 64),
    rw (allocate_fits size v small fits),
    rw (allocate_fits size v small fits) (record {
      aligned = omega (arith, (IsValid-Placement v).aligned);
      behind = omega arith;
      within = omega arith;
      tight = omega arith;
      keeps = λ i p. grown_agrees size v small fits i (omega arith) p;
      tracked = ap (λ (n : ℕ). a.allocs ++ (record { offset = n; size = size }) ∷ []) (omega arith);
    }),
  ),
)

-- In an arena whose capacity ends below 2 ^ 64, a non-null access that does not wrap passes `check_access` exactly if it lies between the start
-- of the buffer and the capacity; otherwise the call throws and the state becomes IMMEDIATE.
pub check_access_exact :
    (a : Arena) (ptr size : ℕ) (state : LockdownState)
    → ptr ≢ 0
    → ptr + size < 2 ^ 64
    → a.base + a.capacity < 2 ^ 64
    → ((a.base ≤ ptr) × (ptr + size ≤ a.base + a.capacity)
        → check_access a ptr size state ≡ (none, state))
      × (¬ ((a.base ≤ ptr) × (ptr + size ≤ a.base + a.capacity))
          → check_access a ptr size state ≡ (some out_of_space, immediate))
unfolding check_access
check_access_exact a ptr size state ne h k = (λ ok. ground arith, λ bad. ground arith)

-- In a valid arena with a capacity of at least 64, a request of 2 ^ 64 - 128 + `extra` bytes, for
-- `extra` below 128 and no greater than what is free after the padding, is granted, and takes no more
-- than the padding and `extra` bytes: its consumption wraps.
pub allocate_overflow :
    {a : Arena} (extra : ℕ)
    → IsValid a
    → extra < 128
    → 64 ≤ a.capacity
    → a.used + padding a + extra ≤ a.capacity
    → ((allocate a (2 ^ 64 - 128 + extra)).0 ≡ some (a.base + (a.used + padding a + 64)))
      × ((allocate a (2 ^ 64 - 128 + extra)).1.used ≡ a.used + padding a + extra)
unfolding allocate
allocate_overflow {a} extra v h room fits = rw fitting (
  ap some (omega (arith, v.sized, v.placed, (IsValid-Placement v).user)),
  omega (arith, v.sized, v.placed, (IsValid-Placement v).small),
)
  where
    fitting : exhausted a (2 ^ 64 - 128 + extra) ≡ false
    fitting =
        unfold exhausted in ground (arith, v.sized, v.placed, v.fits, (IsValid-Placement v).small)
