-- ===== src/Memory/Manager.antt =====
-- `MemoryManager` of src/memory/MemoryManager.{h,cpp}, with the domains of
-- src/memory/RuntimeDomain.h and the capacities of src/Defines.h.
use akkon.Base.{ℕ, ◌*◌, ◌≡◌, ◌≢◌, refl, arith, Option, none, some, List, [], ◌∷◌}
use mathlib.Core.Logic.{ite}
use mathlib.Core.Option
use akkon.Memory.Arena.{Arena, make, reset}

-- `RuntimeDomain`.
pub data RuntimeDomain : Type 0 where
  runtime request reserved verification lifecycle : RuntimeDomain

pub RuntimeDomain-discrete : Discrete RuntimeDomain
RuntimeDomain-discrete = hlevel

-- The capacities of src/Defines.h, in bytes.
abbrev pub capacity_of : RuntimeDomain → ℕ
capacity_of runtime = 10 * 1024 * 1024
capacity_of request = 5 * 1024 * 1024
capacity_of reserved = 1 * 1024 * 1024
capacity_of verification = 2 * 1024 * 1024
capacity_of lifecycle = 2 * 1024 * 1024

-- `m_domains`.
abbrev pub Manager : Type 0
Manager = List (RuntimeDomain × Arena)

-- The constructor; `bases` are the addresses of the five buffers.
pub make_manager : (RuntimeDomain → ℕ) → Manager
make_manager bases =
    (runtime, make (bases runtime) (capacity_of runtime))
    ∷ (request, make (bases request) (capacity_of request))
    ∷ (reserved, make (bases reserved) (capacity_of reserved))
    ∷ (verification, make (bases verification) (capacity_of verification))
    ∷ (lifecycle, make (bases lifecycle) (capacity_of lifecycle))
    ∷ []

-- `getDomain`; the arena that the pointer refers to, `none` for a null pointer.
pub get_domain : Manager → RuntimeDomain → Option Arena
get_domain [] d = none
get_domain ((e, a) ∷ m) d = ite (RuntimeDomain-discrete e d) (some a) (get_domain m d)

-- A method call through the pointer that `getDomain` returned; none for a null pointer.
pub with_domain : (Arena → Arena) → Manager → RuntimeDomain → Manager
with_domain f [] d = []
with_domain f ((e, a) ∷ m) d =
    ite (RuntimeDomain-discrete e d) ((e, f a) ∷ m) ((e, a) ∷ with_domain f m d)

-- `resetDomain`.
pub reset_domain : Manager → RuntimeDomain → Manager
reset_domain = with_domain reset

-- All five domains exist from the start, each with an empty arena of its configured capacity.
pub get_domain-make_manager :
    (bases : RuntimeDomain → ℕ) (d : RuntimeDomain)
    → get_domain (make_manager bases) d ≡ some (make (bases d) (capacity_of d))
unfolding get_domain make_manager RuntimeDomain-discrete
get_domain-make_manager bases runtime = refl
get_domain-make_manager bases request = refl
get_domain-make_manager bases reserved = refl
get_domain-make_manager bases verification = refl
get_domain-make_manager bases lifecycle = refl

-- What is done in one domain is seen there and in no other domain.
pub get_domain-with_domain :
    (f : Arena → Arena) (m : Manager) (d e : RuntimeDomain)
    → get_domain (with_domain f m d) e
      ≡ ite (RuntimeDomain-discrete d e) (Option.map f (get_domain m e)) (get_domain m e)
unfolding get_domain with_domain
get_domain-with_domain f [] d e = ground arith
get_domain-with_domain f ((c, a) ∷ m) d e = ground (arith, get_domain-with_domain f m d e)

pub get_domain-reset_domain :
    (m : Manager) (d e : RuntimeDomain)
    → (d ≡ e → get_domain (reset_domain m d) e ≡ Option.map reset (get_domain m e))
      × (d ≢ e → get_domain (reset_domain m d) e ≡ get_domain m e)
unfolding reset_domain
get_domain-reset_domain m d e =
    rw (get_domain-with_domain reset m d e)
      (elim (RuntimeDomain-discrete d e)
        as (λ c.
          (d ≡ e
            → ite c (Option.map reset (get_domain m e)) (get_domain m e)
              ≡ Option.map reset (get_domain m e))
          × (d ≢ e → ite c (Option.map reset (get_domain m e)) (get_domain m e) ≡ get_domain m e)) [
            | yes p ↦ (λ _. refl, λ n. absurd (n p))
            | no n ↦ (λ p. absurd (n p), λ _. refl)
          ])
