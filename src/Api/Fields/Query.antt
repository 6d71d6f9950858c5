-- ===== src/Api/Fields/Query.antt =====
-- What `extractQueryString` finds, and what an ampersand in a later header does to it.
use mathlib.Core.List.{append_assoc}
use akkon.Base.{
  ℕ, ◌+◌, ◌^◌, ◌<◌, ◌≡◌, ◌≢◌, refl, sym, ap, ◌∙◌, some, [], ◌∷◌, ◌++◌, All, All-append, length,
  length-append, arith, sub_size,
}
use akkon.Base.Text.{Text, codes}
use akkon.Base.Find.{
  find, find-none, substr, Absent, Absent-lacking, find-Absent, starts_with-append, substr-middle,
}
use akkon.Api.Fields.{extract_query_string}
use akkon.Api.Fields.Json.{find_end}

-- The request up to and behind the value of the field.
abbrev pub request_with : Text → Text → Text → Text → Text
request_with before field value after = before ++ ((field ++ codes "=") ++ (value ++ after))

field_found :
    (before field value after : Text)
    → Absent (field ++ codes "=") before ((field ++ codes "=") ++ (value ++ after))
    → find (request_with before field value after) (field ++ codes "=") 0 ≡ some (length before)
field_found before field value after first =
    find-Absent [] before _ (field ++ codes "=") 0 refl first
      (starts_with-append (field ++ codes "=") (value ++ after))
    ∙ ap some (omega arith)

-- The value is cut where the search for its end stops.
value_cut :
    (before field value after : Text)
    → length (request_with before field value after) < 2 ^ 64
    → substr (request_with before field value after) (length before + length (field ++ codes "=")) (
        sub_size
          (length before + length (field ++ codes "=") + length value)
          (length before + length (field ++ codes "=")))
      ≡ value
value_cut before field value after small =
    rw (sym (append_assoc before (field ++ codes "=") (value ++ after))) (
      substr-middle (before ++ (field ++ codes "=")) value after _ _
        (length-append before (field ++ codes "="))
        (omega (
          arith,
          length-append before ((field ++ codes "=") ++ (value ++ after)),
          length-append (field ++ codes "=") (value ++ after),
          length-append value after,
        )))

-- The first `c` behind the field's name is the one that ends the value.
stops_at :
    (c : ℕ) (before field value after : Text)
    → All (λ x. x ≢ c) (field ++ codes "=")
    → All (λ x. x ≢ c) value
    → find (request_with before field value (c ∷ after)) (c ∷ []) (length before)
      ≡ some (length before + length (field ++ codes "=") + length value)
stops_at c before field value after name clean = rw parts (
    find_end c before ((field ++ codes "=") ++ value) after (length before) refl
      (All-append (λ x. x ≢ c) (field ++ codes "=") value name clean)
    ∙ ap some (omega (arith, length-append (field ++ codes "=") value)))
  where
    parts :
        request_with before field value (c ∷ after)
        ≡ before ++ (((field ++ codes "=") ++ value) ++ c ∷ after)
    parts = simp append_assoc

-- In a request where the field's name occurs first behind `before` and no ampersand follows it, the
-- value up to the first space is returned.
pub extract_query_string_lem :
    (before field value after : Text)
    → length (request_with before field value (b' ' ∷ after)) < 2 ^ 64
    → Absent (field ++ codes "=") before ((field ++ codes "=") ++ (value ++ b' ' ∷ after))
    → All (λ x. x ≢ b'&') ((field ++ codes "=") ++ (value ++ b' ' ∷ after))
    → All (λ x. x ≢ b' ') (field ++ codes "=")
    → All (λ x. x ≢ b' ') value
    → extract_query_string (request_with before field value (b' ' ∷ after)) field ≡ value
unfolding extract_query_string
extract_query_string_lem before field value after small first no_more name clean =
    rw
      (
        extract_query_string,
        field_found before field value (b' ' ∷ after) first,
        find-none before ((field ++ codes "=") ++ (value ++ b' ' ∷ after)) (codes "&")
            (length before) refl
            (Absent-lacking b'&' [] ((field ++ codes "=") ++ (value ++ b' ' ∷ after)) [] no_more)
            refl,
        stops_at b' ' before field value after name clean,
      )
      (value_cut before field value (b' ' ∷ after) small)

-- Where an ampersand follows the field's name, everything up to the first one is returned, also
-- where spaces, line ends and headers stand in between.
pub extract_query_string-ampersand :
    (before field value after : Text)
    → length (request_with before field value (b'&' ∷ after)) < 2 ^ 64
    → Absent (field ++ codes "=") before ((field ++ codes "=") ++ (value ++ b'&' ∷ after))
    → All (λ x. x ≢ b'&') (field ++ codes "=")
    → All (λ x. x ≢ b'&') value
    → extract_query_string (request_with before field value (b'&' ∷ after)) field ≡ value
unfolding extract_query_string
extract_query_string-ampersand before field value after small first name clean =
    rw
      (
        extract_query_string,
        field_found before field value (b'&' ∷ after) first,
        stops_at b'&' before field value after name clean,
      )
      (value_cut before field value (b'&' ∷ after) small)
