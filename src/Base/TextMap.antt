-- ===== src/Base/TextMap.antt =====
-- A `std::map` from texts, as the list of its entries in the order of their keys.
use mathlib.Core.Path.{◌≡◌, subst}
use mathlib.Core.Logic.{inl, inr}
use mathlib.Core.Bool.{Bool, true, false}
use mathlib.Core.Option.{Option, none, some}
use mathlib.Core.List.{List, [], ◌∷◌, map}
use native.Mathlib.Omega.{arith}
use akkon.Base.Tests.{ltb, ◌==◌, if◌then◌else◌, Bool-cases}
use akkon.Base.Text.{Text, text_eq, text_eq_refl, eq_of_text_eq}

abbrev pub text_less : Text → Text → Bool
text_less [] [] = false
text_less [] (d ∷ ds) = true
text_less (c ∷ cs) [] = false
text_less (c ∷ cs) (d ∷ ds) = let rest = text_less cs ds in if c == d then rest else ltb c d

module _ {ℓ} {V : Type ℓ} where
  abbrev pub lookup : Text → List (Text × V) → Option V
  lookup key [] = none
  lookup key (entry ∷ entries) =
      let rest = lookup key entries in if text_eq key entry.0 then some entry.1 else rest

  -- `entries[key] = value`.
  unfoldable pub insert : Text → V → List (Text × V) → List (Text × V)
  insert key value [] = (key, value) ∷ []
  insert key value (entry ∷ entries) =
      let rest = insert key value entries in
      if text_eq key entry.0
      then (key, value) ∷ entries
      else if text_less key entry.0
      then (key, value) ∷ entry ∷ entries
      else entry ∷ rest

  abbrev pub keys : List (Text × V) → List Text
  keys = map (λ entry. entry.0)

  pub lookup-insert :
      (key : Text) (value : V) (entries : List (Text × V))
      → lookup key (insert key value entries) ≡ some value
  unfolding insert
  lookup-insert key value [] = ground (arith, text_eq_refl key)
  lookup-insert key value (entry ∷ entries) =
      ground (arith, text_eq_refl key, lookup-insert key value entries)

  pub lookup-insert_ne :
      (other key : Text) (value : V) (entries : List (Text × V))
      → text_eq other key ≡ false
      → lookup other (insert key value entries) ≡ lookup other entries
  unfolding insert
  lookup-insert_ne other key value [] h = ground (arith, h)
  lookup-insert_ne other key value (entry ∷ entries) h = elim (Bool-cases (text_eq key entry.0)) [
    | inl same ↦
        ground
          (arith, same, h, subst (λ k. text_eq other k ≡ false) (eq_of_text_eq key entry.0 same) h)
    | inr differs ↦ ground (arith, differs, h, lookup-insert_ne other key value entries h)
  ]
