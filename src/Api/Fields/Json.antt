-- ===== src/Api/Fields/Json.antt =====
-- What `extractJsonString` finds.
use mathlib.Core.List.{append_assoc}
use akkon.Base.{
  ℕ, ◌+◌, ◌-◌, ◌≡◌, ◌≢◌, refl, sym, some, [], ◌∷◌, ◌++◌, All, length, length-append, arith,
}
use akkon.Base.Text.{Text, codes}
use akkon.Base.Find.{find, Absent, Absent-lacking, find-Absent, starts_with-append, substr-middle}
use akkon.Api.Fields.{quote, between, value_at, extract_json_string}

-- The first character behind `front` that is not in `value` is found behind it.
pub find_end :
    (c : ℕ) (front value back : Text) (pos : ℕ)
    → length front ≡ pos
    → All (λ x. x ≢ c) value
    → find (front ++ (value ++ c ∷ back)) (c ∷ []) pos ≡ some (pos + length value)
find_end c front value back pos e clean =
    find-Absent front value (c ∷ back) (c ∷ []) pos e (Absent-lacking c [] value (c ∷ back) clean)
      (ground arith)

-- The text between two quotes, when the first of them is at the end of `front`.
pub between_lem :
    (front value back : Text) (pos : ℕ)
    → length front ≡ pos
    → All (λ c. c ≢ b'"') value
    → between (front ++ b'"' ∷ (value ++ b'"' ∷ back)) (some pos) ≡ value
between_lem front value back pos e clean =
    rw (sym (append_assoc front quote (value ++ b'"' ∷ back))) (
      rw (between, find_end b'"' (front ++ quote) value back (pos + 1) opened clean)
        (substr-middle (front ++ quote) value (b'"' ∷ back) (pos + 1)
          (pos + 1 + length value - pos - 1) opened (omega arith)))
  where
    opened : length (front ++ quote) ≡ pos + 1
    opened = omega (arith, length-append front quote, e)

-- The value behind a member's name, when the name is at the end of `before`.
pub value_at_lem :
    (before field value after : Text) (pos : ℕ)
    → length before ≡ pos
    → All (λ c. c ≢ b'"') value
    → value_at
        (before ++ ((quote ++ field ++ codes "\":\"") ++ (value ++ b'"' ∷ after)))
        field
        (some pos)
      ≡ value
value_at_lem before field value after pos e clean = rw shape (
    rw (value_at, find_end b'"' front [] (value ++ b'"' ∷ after) (pos + length field + 3) here tt)
      (between_lem front value after (pos + length field + 3 + 0) (omega (arith, here)) clean))
  where
    front : Text
    front = before ++ (quote ++ field ++ codes "\":")

    shape :
        before ++ ((quote ++ field ++ codes "\":\"") ++ (value ++ b'"' ∷ after))
        ≡ front ++ ([] ++ b'"' ∷ (value ++ b'"' ∷ after))
    shape = simp append_assoc

    here : length front ≡ pos + length field + 3
    here = omega (
      arith,
      e,
      length-append before (quote ++ field ++ codes "\":"),
      length-append (quote ++ field) (codes "\":"),
    )

-- `extractJsonString` returns the value of the first member `"field":"value"` of the text, whatever
-- stands before it and after it, if the value has no quote.
pub extract_json_string_lem :
    (before field value after : Text)
    → Absent
        (quote ++ field ++ codes "\":\"")
        before
        ((quote ++ field ++ codes "\":\"") ++ (value ++ b'"' ∷ after))
    → All (λ c. c ≢ b'"') value
    → extract_json_string
        (before ++ ((quote ++ field ++ codes "\":\"") ++ (value ++ b'"' ∷ after)))
        field
      ≡ value
unfolding extract_json_string
extract_json_string_lem before field value after first clean =
    rw
      (find-Absent [] before _ (quote ++ field ++ codes "\":\"") 0 refl first
        (starts_with-append (quote ++ field ++ codes "\":\"") (value ++ b'"' ∷ after)))
      (value_at_lem before field value after (0 + length before) (omega arith) clean)
