-- ===== src/Memory/Arena.antt =====
-- `ArenaAllocator` of src/memory/ArenaAllocator.{h,cpp}.
-- The buffer is its address and a function from offsets to bytes. Address arithmetic wraps at
-- 2 ^ 64, as `uintptr_t` does.
mod Memset
pub mod Layout
pub mod Invariant
pub mod Safety
mod Tests
use Prim.Native.Nat.{bit_and}
use akkon.Base.{
  ℕ, zero, suc, ◌+◌, ◌-◌, ◌*◌, ◌%◌, ◌&&◌, ◌||◌, Bool, true, false, Option, none, some, List, [],
  ◌∷◌, ◌++◌, ltb, ◌==◌, if◌then◌else◌, add_size, sub_size, size_mod,
}
use akkon.Security.{LockdownState, immediate}

abbrev pub alignment : ℕ
alignment = 64

abbrev pub canary_size : ℕ
canary_size = 64

abbrev pub canary : ℕ
canary = 0xdb

pub record AllocInfo : Type 0 where
  pub offset : ℕ
  pub size : ℕ

pub record Arena : Type 0 where
  pub base : ℕ
  pub buffer_size : ℕ
  pub mem : ℕ → ℕ
  pub capacity : ℕ
  pub used : ℕ
  pub alloc_count : ℕ
  pub allocs : List AllocInfo

-- The constructor; the allocator of the C++ library chooses the address of the buffer.
pub make : ℕ → ℕ → Arena
make base capacity = record {
  base = base;
  buffer_size = add_size (capacity * 3 % size_mod) alignment;
  mem = λ _. 0;
  capacity = capacity;
  used = 0;
  alloc_count = 0;
  allocs = [];
}

-- `memset(buffer + offset, value, count)`: which offsets it writes, wrapping included.
abbrev pub memset : (ℕ → ℕ) → ℕ → ℕ → ℕ → ℕ → ℕ
memset mem offset value count i = if ltb (sub_size i offset) count then value else mem i

-- `(curr_addr + ALIGNMENT - 1) & ~(ALIGNMENT - 1)`.
pub align_up : ℕ → ℕ
align_up curr_addr =
    bit_and (sub_size (add_size curr_addr alignment) 1) (size_mod - 1 - (alignment - 1))

pub padding : Arena → ℕ
padding a = let curr_addr = add_size a.base a.used in sub_size (align_up curr_addr) curr_addr

abbrev pub consumption : ℕ → ℕ
consumption size = add_size (add_size canary_size size) canary_size

-- The offset of the user block that `allocate` would return.
pub user_offset : Arena → ℕ
user_offset a = sub_size (add_size (align_up (add_size a.base a.used)) canary_size) a.base

pub exhausted : Arena → ℕ → Bool
exhausted a size = ltb a.capacity (add_size (add_size a.used (padding a)) (consumption size))

-- `allocate`; the result is the address of the user block, `none` the null pointer.
pub allocate : Arena → ℕ → Option ℕ × Arena
allocate a size =
    let header = sub_size (align_up (add_size a.base a.used)) a.base in
    let user = user_offset a in
    let footer = add_size user size in
    if exhausted a size then (none, a) else (
      some (add_size a.base user),
      record a {
        mem = memset (memset a.mem header canary canary_size) footer canary canary_size;
        used = add_size (add_size a.used (padding a)) (consumption size);
        alloc_count = add_size a.alloc_count 1;
        allocs = a.allocs ++ (record { offset = user; size = size }) ∷ [];
      },
    )

pub reset : Arena → Arena
reset a = record a { used = 0; alloc_count = 0; allocs = [] }

-- The exceptions that `verify` and `check_access` throw.
pub data Violation : Type 0 where
  canary_failed out_of_space : Violation

-- One of the two loops over `CANARY_SIZE` bytes: `n` rounds are left.
pub canary_intact : (ℕ → ℕ) → ℕ → ℕ → Bool
canary_intact mem offset zero = true
canary_intact mem offset (suc n) =
    let rest = canary_intact mem (add_size offset 1) n in
    if mem offset == canary then rest else false

-- The header canary of a block, and then its footer canary.
pub block_intact : (ℕ → ℕ) → AllocInfo → Bool
block_intact mem b =
    canary_intact mem (sub_size b.offset canary_size) canary_size
    && canary_intact mem (add_size b.offset b.size) canary_size

pub blocks_intact : (ℕ → ℕ) → List AllocInfo → Bool
blocks_intact mem [] = true
blocks_intact mem (b ∷ bs) = block_intact mem b && blocks_intact mem bs

-- `verify` with the lockdown state that it may change; `some` is the exception.
pub verify : Arena → LockdownState → Option Violation × LockdownState
verify a state =
    if blocks_intact a.mem a.allocs then (none, state) else (some canary_failed, immediate)

-- `check_access(ptr, size)`.
pub check_access : Arena → ℕ → ℕ → LockdownState → Option Violation × LockdownState
check_access a ptr size state =
    if ptr == 0
    then (none, state)
    else if ltb ptr a.base || ltb (add_size a.base a.capacity) (add_size ptr size)
    then (some out_of_space, immediate)
    else (none, state)
