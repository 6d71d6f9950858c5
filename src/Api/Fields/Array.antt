-- ===== src/Api/Fields/Array.antt =====
-- What `extractJsonArray` finds in an array of strings.
use mathlib.Core.List.{append_assoc, append-nil}
use akkon.Base.{
  ℕ, ◌+◌, ◌-◌, ◌≡◌, ◌≢◌, refl, sym, ap, ◌∙◌, List, [], ◌∷◌, ◌++◌, map, All, All-append, length,
  length-append, arith,
}
use akkon.Base.Text.{Text, codes}
use akkon.Base.Find.{find, substr, Absent, find-Absent, starts_with-append, substr-middle}
use akkon.Api.Fields.{quote, split_commas, unquote, unquote_all, items_between, extract_json_array}
use akkon.Api.Fields.Json.{find_end}

-- A string that the extraction can carry: no quote, no comma, no closing bracket.
abbrev pub IsItem : Text → Type 0
IsItem = All (λ c. (c ≢ b'"') × (c ≢ b',') × (c ≢ b']'))

abbrev pub quoted : Text → Text
quoted item = quote ++ item ++ quote

-- The members of the array behind the first, and the whole array without its brackets.
abbrev pub more_items : List Text → Text
more_items [] = []
more_items (item ∷ items) = b',' ∷ quoted item ++ more_items items

abbrev pub array_content : List Text → Text
array_content [] = []
array_content (item ∷ items) = quoted item ++ more_items items

split_commas-lacking :
    (text item rest : Text)
    → All (λ c. c ≢ b',') text
    → split_commas (text ++ rest) item ≡ split_commas rest (item ++ text)
unfolding split_commas
split_commas-lacking [] item rest clean = rw append-nil refl
split_commas-lacking (c ∷ text) item rest clean = ground (
  arith,
  clean.0,
  split_commas-lacking text (item ++ c ∷ []) rest clean.1,
  append_assoc item (c ∷ []) text,
)

quoted_lacking :
    (c : ℕ) (item : Text) → c ≢ b'"' → All (λ x. x ≢ c) item → All (λ x. x ≢ c) (quoted item)
quoted_lacking c item h clean =
    All-append (λ x. x ≢ c) (b'"' ∷ item) quote ((λ e. h (sym e)), clean) ((λ e. h (sym e)), tt)

items_lack :
    (item : Text)
    → IsItem item
    → All (λ x. x ≢ b'"') item × All (λ x. x ≢ b',') item × All (λ x. x ≢ b']') item
items_lack [] h = (tt, tt, tt)
items_lack (c ∷ item) h =
    let rest = items_lack item h.1 in ((h.0.0, rest.0), (h.0.1, rest.1), (h.0.2, rest.2))

split_commas_at_comma :
    (text item : Text) → split_commas (b',' ∷ text) item ≡ item ∷ split_commas text []
unfolding split_commas
split_commas_at_comma text item = refl

split_commas-items :
    (item : Text) (items : List Text)
    → IsItem item
    → All IsItem items
    → split_commas (quoted item ++ more_items items) [] ≡ quoted item ∷ map quoted items
split_commas-items item [] h all =
    split_commas-lacking (quoted item) [] []
      (quoted_lacking b',' item (omega arith) (items_lack item h).1)
    ∙ unfold split_commas in refl
split_commas-items item (next ∷ items) h all =
    split_commas-lacking (quoted item) [] (more_items (next ∷ items))
      (quoted_lacking b',' item (omega arith) (items_lack item h).1)
    ∙ split_commas_at_comma (quoted next ++ more_items items) (quoted item)
    ∙ ap (λ t. quoted item ∷ t) (split_commas-items next items all.0 all.1)

unquote-quoted :
    (item : Text) → IsItem item → unquote (quoted item) (find (quoted item) quote 0) ≡ item ∷ []
unfolding unquote
unquote-quoted item h =
    rw
      (
        unquote,
        find_end b'"' [] [] (item ++ quote) 0 refl tt,
        find_end b'"' quote item [] 1 refl (items_lack item h).0,
      )
      (ap (λ t. t ∷ [])
        (substr-middle quote item quote 1 (1 + length item - 0 - 1) refl (omega arith)))

unquote_all-quoted : (items : List Text) → All IsItem items → unquote_all (map quoted items) ≡ items
unfolding unquote_all
unquote_all-quoted [] h = refl
unquote_all-quoted (item ∷ items) h =
    rw (unquote-quoted item h.0, unquote_all-quoted items h.1) refl

items_found :
    (items : List Text)
    → All IsItem items
    → unquote_all (split_commas (array_content items) []) ≡ items
items_found [] h = unfold unquote_all split_commas in refl
items_found (item ∷ items) h =
    rw (split_commas-items item items h.0 h.1) (unquote_all-quoted (item ∷ items) h)

more_items_lack : (items : List Text) → All IsItem items → All (λ x. x ≢ b']') (more_items items)
more_items_lack [] h = tt
more_items_lack (item ∷ items) h = (
  omega arith,
  All-append (λ x. x ≢ b']') (quoted item) (more_items items)
      (quoted_lacking b']' item (omega arith) (items_lack item h.0).2) (more_items_lack items h.1),
)

array_content_lacks :
    (items : List Text) → All IsItem items → All (λ x. x ≢ b']') (array_content items)
array_content_lacks [] h = tt
array_content_lacks (item ∷ items) h = (more_items_lack (item ∷ items) h).1

-- The text between the first brackets behind `front`.
content_found :
    (front gap content after : Text) (pos : ℕ)
    → length front ≡ pos
    → All (λ x. x ≢ b'[') gap
    → All (λ x. x ≢ b']') content
    → items_between
        (front ++ (gap ++ b'[' ∷ (content ++ b']' ∷ after)))
        (find (front ++ (gap ++ b'[' ∷ (content ++ b']' ∷ after))) (codes "[") pos)
      ≡ unquote_all (split_commas content [])
content_found front gap content after pos e clean closed =
    rw (find_end b'[' front gap (content ++ b']' ∷ after) pos e clean) (
      rw (sym (append_assoc front gap (b'[' ∷ (content ++ b']' ∷ after)))) (
        rw
          (
            items_between,
            find_end b']' (front ++ gap) (b'[' ∷ content) after (pos + length gap) opened
                ((omega arith, closed)),
          )
          (ap (λ t. unquote_all (split_commas t [])) cut)))
  where
    opened : length (front ++ gap) ≡ pos + length gap
    opened = omega (arith, e, length-append front gap)

    cut :
        substr
          ((front ++ gap) ++ b'[' ∷ (content ++ b']' ∷ after))
          (pos + length gap + 1)
          (pos + length gap + length (b'[' ∷ content) - (pos + length gap) - 1)
        ≡ content
    cut = rw (sym (append_assoc (front ++ gap) (b'[' ∷ []) (content ++ b']' ∷ after))) (
        substr-middle ((front ++ gap) ++ b'[' ∷ []) content (b']' ∷ after) _ _
          (omega (arith, opened, length-append (front ++ gap) (b'[' ∷ []))) (omega arith))

-- `extractJsonArray` returns the strings of the first array member `"field": ["a","b",...]` of the
-- text, in order, if none of them holds a quote, a comma or a closing bracket, and no opening
-- bracket stands between the name and the array.
pub extract_json_array_lem :
    (before field gap after : Text) (items : List Text)
    → Absent
        (quote ++ field ++ quote)
        before
        ((quote ++ field ++ quote) ++ (gap ++ b'[' ∷ (array_content items ++ b']' ∷ after)))
    → All (λ c. c ≢ b'[') ((quote ++ field ++ quote) ++ gap)
    → All IsItem items
    → extract_json_array
        (before
          ++ ((quote ++ field ++ quote) ++ (gap ++ b'[' ∷ (array_content items ++ b']' ∷ after))))
        field
      ≡ items
unfolding extract_json_array
extract_json_array_lem before field gap after items first clean all =
    rw
      (
        extract_json_array,
        find-Absent [] before _ (quote ++ field ++ quote) 0 refl first (
            starts_with-append (quote ++ field ++ quote)
              (gap ++ b'[' ∷ (array_content items ++ b']' ∷ after))),
      )
      (rw whole (
          content_found before ((quote ++ field ++ quote) ++ gap) (array_content items) after
            (0 + length before) (omega arith) clean (array_content_lacks items all))
        ∙ items_found items all)
  where
    whole :
        before
          ++ ((quote ++ field ++ quote) ++ (gap ++ b'[' ∷ (array_content items ++ b']' ∷ after)))
        ≡ before
          ++ (((quote ++ field ++ quote) ++ gap) ++ b'[' ∷ (array_content items ++ b']' ∷ after))
    whole = simp append_assoc
