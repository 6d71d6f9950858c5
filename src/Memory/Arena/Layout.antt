-- ===== src/Memory/Arena/Layout.antt =====
-- How the blocks of an arena lie in its buffer, and which writes leave their canaries alone.
use native.Mathlib.Decide.{ℕ_discrete}
use akkon.Base.{
  ℕ, zero, suc, ◌+◌, ◌-◌, ◌*◌, ◌%◌, ◌^◌, ◌≤◌, ◌<◌, ◌≡◌, refl, ◌⊎◌, inl, inr, ◌↔◌, Bool, true, false,
  ◌&&◌, List, [], ◌∷◌, ◌++◌, arith, &&-true, ap₂, ◌≢◌, length, if◌then◌else◌, ◌==◌,
}
use akkon.Memory.Arena.{AllocInfo, canary, canary_intact, block_intact, blocks_intact}

-- The blocks lie one behind the other between `lo` and `hi`, each with its canaries around it and
-- its data at an aligned address.
abbrev pub Laid : ℕ → ℕ → List AllocInfo → ℕ → Type 0
Laid base lo [] hi = lo ≤ hi
Laid base lo (b ∷ bs) hi =
    (lo + 64 ≤ b.offset) × ((base + b.offset) % 64 ≡ 0) × Laid base (b.offset + b.size + 64) bs hi

-- The offset lies in the user data of a block.
abbrev pub InUser : List AllocInfo → ℕ → Type 0
InUser [] j = ⊥
InUser (b ∷ bs) j = ((b.offset ≤ j) × (j < b.offset + b.size)) ⊎ InUser bs j

pub Laid-bound :
    (base lo : ℕ) (bs : List AllocInfo) (hi : ℕ) → Laid base lo bs hi → lo + 128 * length bs ≤ hi
Laid-bound base lo [] hi h = omega arith
Laid-bound base lo (b ∷ bs) hi h = omega (arith, Laid-bound base (b.offset + b.size + 64) bs hi h.2)

pub Laid-append :
    (base lo : ℕ) (bs : List AllocInfo) (hi : ℕ) (b : AllocInfo)
    → Laid base lo bs hi
    → hi + 64 ≤ b.offset
    → (base + b.offset) % 64 ≡ 0
    → Laid base lo (bs ++ b ∷ []) (b.offset + b.size + 64)
Laid-append base lo [] hi b h fits aligned = omega arith
Laid-append base lo (c ∷ bs) hi b h fits aligned =
    (h.0, h.1, Laid-append base (c.offset + c.size + 64) bs hi b h.2 fits aligned)

InUser-bound :
    (base lo : ℕ) (bs : List AllocInfo) (hi j : ℕ)
    → Laid base lo bs hi
    → InUser bs j
    → (lo + 64 ≤ j) × (j + 64 < hi)
InUser-bound base lo [] hi j h u = absurd u
InUser-bound base lo (b ∷ bs) hi j h (inl u) =
    omega (arith, Laid-bound base (b.offset + b.size + 64) bs hi h.2)
InUser-bound base lo (b ∷ bs) hi j h (inr u) =
    omega (arith, InUser-bound base (b.offset + b.size + 64) bs hi j h.2 u)

-- Two memories agree from `lo` to `hi`.
abbrev pub AgreeOn : (ℕ → ℕ) → (ℕ → ℕ) → ℕ → ℕ → Type 0
AgreeOn mem mem' lo hi = (i : ℕ) → lo ≤ i → i < hi → mem' i ≡ mem i

module _ (mem mem' : ℕ → ℕ) where
  canary_intact-ext :
      (offset n : ℕ)
      → offset + n < 2 ^ 64
      → AgreeOn mem mem' offset (offset + n)
      → canary_intact mem' offset n ≡ canary_intact mem offset n
  unfolding canary_intact
  canary_intact-ext offset zero h agree = refl
  canary_intact-ext offset (suc n) h agree =
      rw (agree offset (omega arith) (omega arith), next)
        (ap₂ (λ r t. if t == canary then r else false)
          (canary_intact-ext (offset + 1) n (omega arith)
            (λ i p q. agree i (omega arith) (omega arith)))
          refl)
    where
      next : (offset + 1) % 2 ^ 64 ≡ offset + 1
      next = omega arith

  block_intact-ext :
      (b : AllocInfo)
      → 64 ≤ b.offset
      → b.offset + b.size + 64 < 2 ^ 64
      → AgreeOn mem mem' (b.offset - 64) b.offset
      → AgreeOn mem mem' (b.offset + b.size) (b.offset + b.size + 64)
      → block_intact mem' b ≡ block_intact mem b
  unfolding block_intact
  block_intact-ext b h k header footer =
      rw (before, after)
        (ap₂ ◌&&◌
          (canary_intact-ext (b.offset - 64) 64 (omega arith) (λ i p q. header i p (omega arith)))
          (canary_intact-ext (b.offset + b.size) 64 k footer))
    where
      before : (b.offset + 2 ^ 64 - 64) % 2 ^ 64 ≡ b.offset - 64
      before = omega arith

      after : (b.offset + b.size) % 2 ^ 64 ≡ b.offset + b.size
      after = omega arith

  pub blocks_intact-ext :
      (base lo : ℕ) (bs : List AllocInfo) (hi : ℕ)
      → Laid base lo bs hi
      → hi < 2 ^ 64
      → AgreeOn mem mem' lo hi
      → blocks_intact mem' bs ≡ blocks_intact mem bs
  unfolding blocks_intact
  blocks_intact-ext base lo [] hi h k agree = refl
  blocks_intact-ext base lo (b ∷ bs) hi h k agree =
      ap₂ ◌&&◌
        (block_intact-ext b (omega arith) (omega (arith, ends))
          (λ i p q. agree i (omega arith) (omega (arith, ends)))
          (λ i p q. agree i (omega arith) (omega (arith, ends))))
        (blocks_intact-ext base (b.offset + b.size + 64) bs hi h.2 k
          (λ i p q. agree i (omega arith) q))
    where
      ends : b.offset + b.size + 64 + 128 * length bs ≤ hi
      ends = Laid-bound base (b.offset + b.size + 64) bs hi h.2

  -- A change inside user data is no change of a canary.
  pub blocks_intact-user :
      (base lo : ℕ) (bs : List AllocInfo) (hi j : ℕ)
      → Laid base lo bs hi
      → hi < 2 ^ 64
      → InUser bs j
      → ((i : ℕ) → i ≢ j → mem' i ≡ mem i)
      → blocks_intact mem' bs ≡ blocks_intact mem bs
  unfolding blocks_intact
  blocks_intact-user base lo [] hi j h k u same = refl
  blocks_intact-user base lo (b ∷ bs) hi j h k (inl u) same =
      ap₂ ◌&&◌
        (block_intact-ext b (omega arith)
          (omega (arith, Laid-bound base (b.offset + b.size + 64) bs hi h.2))
          (λ i p q. same i (omega arith)) (λ i p q. same i (omega arith)))
        (blocks_intact-ext base (b.offset + b.size + 64) bs hi h.2 k
          (λ i p q. same i (omega arith)))
  blocks_intact-user base lo (b ∷ bs) hi j h k (inr u) same =
      ap₂ ◌&&◌
        (block_intact-ext b (omega arith)
          (omega (arith, Laid-bound base (b.offset + b.size + 64) bs hi h.2))
          (λ i p q.
            same i (omega (arith, InUser-bound base (b.offset + b.size + 64) bs hi j h.2 u)))
          (λ i p q.
            same i (omega (arith, InUser-bound base (b.offset + b.size + 64) bs hi j h.2 u))))
        (blocks_intact-user base (b.offset + b.size + 64) bs hi j h.2 k u same)

next : (offset : ℕ) → offset + 1 < 2 ^ 64 → (offset + 1) % 2 ^ 64 ≡ offset + 1
next offset h = omega arith

-- The canary bytes from `offset` on are all in place.
abbrev pub IsCanary : (ℕ → ℕ) → ℕ → ℕ → Type 0
IsCanary mem offset n = (i : ℕ) → offset ≤ i → i < offset + n → mem i ≡ canary

-- The canaries of every block are in place, said of the bytes and not of the loops that read them.
abbrev pub IsIntact : (ℕ → ℕ) → List AllocInfo → Type 0
IsIntact mem [] = Unit
IsIntact mem (b ∷ bs) =
    IsCanary mem (b.offset - 64) 64 × IsCanary mem (b.offset + b.size) 64 × IsIntact mem bs

both_iff :
    {a b : Bool} {P Q R : Type 0}
    → (a ≡ true) ↔ (P × Q)
    → (b ≡ true) ↔ R
    → ((a && b) ≡ true) ↔ (P × Q × R)
both_iff {a} {b} f g = (
  λ e. let (p, q) = (&&-true a b).0 e in ((f.0 p).0, (f.0 p).1, g.0 q),
  λ all. (&&-true a b).1 (f.1 (all.0, all.1), g.1 all.2),
)

module _ (mem : ℕ → ℕ) where
  IsCanary-of_intact :
      (offset n : ℕ)
      → offset + n < 2 ^ 64
      → canary_intact mem offset n ≡ true
      → IsCanary mem offset n
  unfolding canary_intact
  IsCanary-of_intact offset zero h e i p q = absurd (omega arith)
  IsCanary-of_intact offset (suc n) h e i p q = elim (ℕ_discrete i offset) [
    | yes here ↦ rw here (ground arith)
    | no below ↦ IsCanary-of_intact (offset + 1) n (omega arith) rest i (omega arith) (omega arith)
  ]
    where
      rest : canary_intact mem (offset + 1) n ≡ true
      rest = ground (arith, next offset (omega arith))

  intact_of_canary :
      (offset n : ℕ)
      → offset + n < 2 ^ 64
      → IsCanary mem offset n
      → canary_intact mem offset n ≡ true
  unfolding canary_intact
  intact_of_canary offset zero h all = refl
  intact_of_canary offset (suc n) h all = ground (
    arith,
    next offset (omega arith),
    all offset (omega arith) (omega arith),
    intact_of_canary (offset + 1) n (omega arith) (λ i p q. all i (omega arith) (omega arith)),
  )

  pub block_intact-IsCanary :
      (b : AllocInfo)
      → 64 ≤ b.offset
      → b.offset + b.size + 64 < 2 ^ 64
      → (block_intact mem b ≡ true)
        ↔ (IsCanary mem (b.offset - 64) 64 × IsCanary mem (b.offset + b.size) 64)
  unfolding block_intact
  block_intact-IsCanary b h k =
      rw (before, after)
        (
          λ e.
              let (p, q) = (&&-true header footer).0 e in
              (
                IsCanary-of_intact (b.offset - 64) 64 (omega arith) p,
                IsCanary-of_intact (b.offset + b.size) 64 k q,
              ),
          λ c. (&&-true header footer).1 (
            intact_of_canary (b.offset - 64) 64 (omega arith) c.0,
            intact_of_canary (b.offset + b.size) 64 k c.1,
          ),
        )
    where
      header : Bool
      header = canary_intact mem (b.offset - 64) 64

      footer : Bool
      footer = canary_intact mem (b.offset + b.size) 64

      before : (b.offset + 2 ^ 64 - 64) % 2 ^ 64 ≡ b.offset - 64
      before = omega arith

      after : (b.offset + b.size) % 2 ^ 64 ≡ b.offset + b.size
      after = omega arith

  -- The loops of `verify` find nothing wrong exactly if every canary byte is in place.
  pub blocks_intact-IsIntact :
      (base lo : ℕ) (bs : List AllocInfo) (hi : ℕ)
      → Laid base lo bs hi
      → hi < 2 ^ 64
      → (blocks_intact mem bs ≡ true) ↔ IsIntact mem bs
  unfolding blocks_intact
  blocks_intact-IsIntact base lo [] hi h k = (λ _. tt, λ _. refl)
  blocks_intact-IsIntact base lo (b ∷ bs) hi h k =
      both_iff (block_intact-IsCanary b (omega arith) (omega (arith, Laid-bound base _ bs hi h.2)))
        (blocks_intact-IsIntact base (b.offset + b.size + 64) bs hi h.2 k)

pub blocks_intact-append :
    (mem : ℕ → ℕ) (bs : List AllocInfo) (b : AllocInfo)
    → blocks_intact mem bs ≡ true
    → block_intact mem b ≡ true
    → blocks_intact mem (bs ++ b ∷ []) ≡ true
unfolding blocks_intact
blocks_intact-append mem [] b h k = ground arith
blocks_intact-append mem (c ∷ bs) b h k = ground (arith, blocks_intact-append mem bs b)
