-- ===== src/Memory/Arena/Tests.antt =====
-- The arena at concrete sizes: a buffer of 3064 bytes at address 4096, with a capacity of 1000.
use akkon.Base.{ℕ, ◌+◌, ◌-◌, ◌^◌, ◌≤◌, ◌<◌, ◌≡◌, inl, none, some, [], arith}
use akkon.Security.{safe, immediate}
use akkon.Memory.Arena.{
  Arena, make, allocate, reset, exhausted, padding, user_offset, align_up, verify, canary_failed,
}
use akkon.Memory.Arena.Layout.{InUser, IsIntact}
use akkon.Memory.Arena.Invariant.{IsValid, needed, make-IsValid}
use akkon.Memory.Arena.Safety.{
  Reach, here, next, request, write, clear, poke, Granted, verify-Reach, verify_exact,
  allocate_correct, allocate_overflow,
}

abbrev empty : Arena
empty = make 4096 1000

abbrev used : Arena
used = (allocate empty 100).1

used-user : InUser used.allocs 70
unfolding allocate exhausted user_offset align_up make padding
used-user = inl (omega arith, omega arith)

used-Reach : Reach empty (reset (allocate (poke used 70 7) 200).1)
used-Reach =
    next
      (next (next (next here (request empty 100 (omega arith))) (write used 70 7 used-user))
        (request (poke used 70 7) 200 (omega arith)))
      (clear (allocate (poke used 70 7) 200).1)

verify-Reach_example : verify (reset (allocate (poke used 70 7) 200).1) safe ≡ (none, safe)
verify-Reach_example = verify-Reach 4096 1000 safe (omega arith) (omega arith) used-Reach

empty-IsValid : IsValid empty
empty-IsValid = make-IsValid 4096 1000 (omega arith) (omega arith)

verify_exact_example :
    (IsIntact (λ _. 0) used.allocs → verify (record used { mem = λ _. 0 }) safe ≡ (none, safe))
    × (¬ IsIntact (λ _. 0) used.allocs
        → verify (record used { mem = λ _. 0 }) safe ≡ (some canary_failed, immediate))
verify_exact_example =
    verify_exact 4096 1000 (λ _. 0) safe (omega arith) (omega arith)
      (next here (request empty 100 (omega arith)))

allocate_correct_example :
    (empty.capacity < needed empty 100 → allocate empty 100 ≡ (none, empty))
    × (needed empty 100 ≤ empty.capacity
        → (address : ℕ) × ((allocate empty 100).0 ≡ some address)
          × Granted empty (allocate empty 100).1 100 address)
allocate_correct_example = allocate_correct 100 empty-IsValid (omega arith)

abbrev plain : Arena
plain = record {
  base = 4096;
  buffer_size = 3064;
  mem = λ _. 0;
  capacity = 1000;
  used = 0;
  alloc_count = 0;
  allocs = [];
}

empty-wide : 64 ≤ empty.capacity
unfolding make
empty-wide = omega arith

empty-room : empty.used + padding empty + 8 ≤ empty.capacity
unfolding make padding align_up
empty-room = omega arith

allocate_overflow_example :
    ((allocate empty (2 ^ 64 - 128 + 8)).0 ≡ some (empty.base + (empty.used + padding empty + 64)))
    × ((allocate empty (2 ^ 64 - 128 + 8)).1.used ≡ empty.used + padding empty + 8)
allocate_overflow_example = allocate_overflow 8 empty-IsValid (omega arith) empty-wide empty-room
