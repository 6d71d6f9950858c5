-- ===== src/Base/Find.antt =====
-- Searching in a text, as `std::string::find` and `substr` do.
use Prim.Native.Nat.{ℕ, ◌+◌}
use mathlib.Core.Path.{◌≡◌, refl}
use mathlib.Core.Logic.{◌≢◌}
use mathlib.Core.Bool.{Bool, true, false}
use mathlib.Core.Option.{Option, none, some}
use mathlib.Core.List.{[], ◌∷◌, ◌++◌, append-nil, append_assoc}
use native.Mathlib.Omega.{arith}
use akkon.Base.Tests.{ltb, ◌==◌, if◌then◌else◌, not_lt→ltb}
use akkon.Base.Lists.{
  length, take, drop, All, length-append, take-append_length, drop-append_length,
}
use akkon.Base.Text.{Text, starts_with}

-- The first match in the text that is left, which begins at index `at`.
unfoldable pub find_from : Text → ℕ → Text → Option ℕ
find_from needle at [] = if starts_with [] needle then some at else none
find_from needle at (c ∷ text) =
    let later = find_from needle (at + 1) text in
    if starts_with (c ∷ text) needle then some at else later

-- `text.find(needle, pos)`; `none` is `npos`.
unfoldable pub find : Text → Text → ℕ → Option ℕ
find text needle pos = if ltb (length text) pos then none else find_from needle pos (drop pos text)

-- `text.substr(pos, count)` for a position within the text.
abbrev pub substr : Text → ℕ → ℕ → Text
substr text pos count = take count (drop pos text)

-- No match begins in the first text, when the second follows it.
abbrev pub Absent : Text → Text → Text → Type 0
Absent needle [] rest = Unit
Absent needle (c ∷ text) rest =
    (starts_with (c ∷ text ++ rest) needle ≡ false) × Absent needle text rest

find_from-Absent :
    (needle text rest : Text) (at : ℕ)
    → Absent needle text rest
    → starts_with rest needle ≡ true
    → find_from needle at (text ++ rest) ≡ some (at + length text)
unfolding find_from
find_from-Absent needle [] [] at a h = ground arith
find_from-Absent needle [] (c ∷ rest) at a h = ground arith
find_from-Absent needle (c ∷ text) rest at a h =
    ground (arith, a.0, find_from-Absent needle text rest (at + 1) a.1 h)

find_from-none :
    (needle text : Text) (at : ℕ)
    → Absent needle text []
    → starts_with [] needle ≡ false
    → find_from needle at text ≡ none
unfolding find_from
find_from-none needle [] at a h = rw h refl
find_from-none needle (c ∷ text) at a h =
    ground (arith, a.0, append-nil text, find_from-none needle text (at + 1) a.1 h)

-- The search from the end of `front` finds the first match behind it.
pub find-Absent :
    (front text rest needle : Text) (pos : ℕ)
    → length front ≡ pos
    → Absent needle text rest
    → starts_with rest needle ≡ true
    → find (front ++ (text ++ rest)) needle pos ≡ some (pos + length text)
unfolding find
find-Absent front text rest needle pos e a h =
    rw
      (
        not_lt→ltb (length (front ++ (text ++ rest))) pos
            (λ p. omega (arith, length-append front (text ++ rest))),
        drop-append_length pos front (text ++ rest) e,
      )
      (find_from-Absent needle text rest pos a h)

pub starts_with-append : (text rest : Text) → starts_with (text ++ rest) text ≡ true
starts_with-append [] rest = refl
starts_with-append (c ∷ text) rest = ground (arith, starts_with-append text rest)

-- A text without a character matches nothing that begins with it.
pub Absent-lacking :
    (c : ℕ) (needle text rest : Text) → All (λ x. x ≢ c) text → Absent (c ∷ needle) text rest
Absent-lacking c needle [] rest h = tt
Absent-lacking c needle (x ∷ text) rest h =
    (ground (arith, h.0), Absent-lacking c needle text rest h.1)

-- A text that holds no match, and no beginning of one at its end.
pub find-none :
    (front text needle : Text) (pos : ℕ)
    → length front ≡ pos
    → Absent needle text []
    → starts_with [] needle ≡ false
    → find (front ++ text) needle pos ≡ none
unfolding find
find-none front text needle pos e a h =
    rw
      (
        not_lt→ltb (length (front ++ text)) pos (λ p. omega (arith, length-append front text)),
        drop-append_length pos front text e,
      )
      (find_from-none needle text pos a h)

-- The part between two texts.
pub substr-middle :
    (front middle rest : Text) (pos count : ℕ)
    → length front ≡ pos
    → length middle ≡ count
    → substr (front ++ (middle ++ rest)) pos count ≡ middle
substr-middle front middle rest pos count p c =
    rw (drop-append_length pos front (middle ++ rest) p) (take-append_length count middle rest c)

-- A test for `Absent`.
abbrev pub absent : Text → Text → Text → Bool
absent needle [] rest = true
absent needle (c ∷ text) rest =
    if starts_with (c ∷ text ++ rest) needle then false else absent needle text rest

pub absent-Absent :
    (needle text rest : Text) → absent needle text rest ≡ true → Absent needle text rest
absent-Absent needle [] rest h = tt
absent-Absent needle (c ∷ text) rest h =
    (ground (arith, h), absent-Absent needle text rest (ground (arith, h)))

pub Absent-append :
    (needle front back rest : Text)
    → Absent needle front (back ++ rest)
    → Absent needle back rest
    → Absent needle (front ++ back) rest
Absent-append needle [] back rest f b = b
Absent-append needle (c ∷ front) back rest f b =
    (rw (append_assoc (c ∷ front) back rest) f.0, Absent-append needle front back rest f.1 b)

-- A text in which a character does not occur.
abbrev pub lacks : ℕ → Text → Bool
lacks c [] = true
lacks c (x ∷ text) = if x == c then false else lacks c text

pub lacks-append :
    (c : ℕ) (xs ys : Text) → lacks c xs ≡ true → lacks c ys ≡ true → lacks c (xs ++ ys) ≡ true
lacks-append c [] ys h k = k
lacks-append c (x ∷ xs) ys h k = ground (arith, h, k, lacks-append c xs ys (ground (arith, h)) k)

pub lacks-All : (c : ℕ) (text : Text) → lacks c text ≡ true → All (λ x. x ≢ c) text
lacks-All c [] h = tt
lacks-All c (x ∷ text) h = ((λ e. ground (arith, h, e)), lacks-All c text (ground (arith, h)))
