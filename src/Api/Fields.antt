-- ===== src/Api/Fields.antt =====
-- The extraction of fields from requests in src/main.cpp: `extractJsonString`, `extractJsonArray`
-- and `extractQueryString`.
pub mod Json
pub mod Array
pub mod Query
use akkon.Base.{
  ℕ, ◌+◌, ◌-◌, ◌%◌, ◌^◌, Bool, true, false, Option, none, some, List, [], ◌∷◌, ◌++◌, length,
  if◌then◌else◌, ◌==◌, sub_size,
}
use akkon.Base.Text.{Text, codes}
use akkon.Base.Find.{find, substr}

abbrev pub quote : Text
quote = b'"' ∷ []

abbrev pub or_else {ℓ} : {A : Type ℓ} → Option A → Option A → Option A
or_else none other = other
or_else (some a) other = some a

-- The text between the quotes, the first of which is searched from `pos` on. Where there is no
-- opening quote, the code searches the closing one from index 0 and returns the empty text anyhow.
abbrev pub between : Text → Option ℕ → Text
between json none = []
between json (some start) = elim (find json quote (start + 1)) [
  | none ↦ []
  | some end ↦ substr json (start + 1) (end - start - 1)
]

abbrev pub value_at : Text → Text → Option ℕ → Text
value_at json field none = []
value_at json field (some pos) = between json (find json quote (pos + length field + 3))

-- `extractJsonString`.
unfoldable pub extract_json_string : Text → Text → Text
extract_json_string json field = value_at json field (
    or_else (find json (quote ++ field ++ codes "\":\"") 0)
      (find json (quote ++ field ++ codes "\": \"") 0))

-- `std::getline(ss, item, ',')` until it fails: the text after the last comma is an item unless it
-- is empty. The second argument is the item so far.
pub split_commas : Text → Text → List Text
split_commas [] [] = []
split_commas [] (c ∷ item) = (c ∷ item) ∷ []
split_commas (c ∷ text) item =
    let ended = item ∷ split_commas text [] in
    let longer = split_commas text (item ++ c ∷ []) in if c == b',' then ended else longer

-- The loop over the items: one with no closing quote is left out.
pub unquote : Text → Option ℕ → List Text
unquote item none = []
unquote item (some start) = elim (find item quote (start + 1)) [
  | none ↦ []
  | some end ↦ substr item (start + 1) (end - start - 1) ∷ []
]

pub unquote_all : List Text → List Text
unquote_all [] = []
unquote_all (item ∷ items) = unquote item (find item quote 0) ++ unquote_all items

abbrev pub items_between : Text → Option ℕ → List Text
items_between json none = []
items_between json (some open_at) = elim (find json (codes "]") open_at) [
  | none ↦ []
  | some close_at ↦
      unquote_all (split_commas (substr json (open_at + 1) (close_at - open_at - 1)) [])
]

-- `extractJsonArray`.
pub extract_json_array : Text → Text → List Text
extract_json_array json field = elim (find json (quote ++ field ++ quote) 0) [
  | none ↦ []
  | some field_at ↦ items_between json (find json (codes "[") field_at)
]

-- `extractQueryString`; the count is a `std::size_t`.
pub extract_query_string : Text → Text → Text
extract_query_string path field = elim (find path (field ++ codes "=") 0) [
  | none ↦ []
  | some pos ↦ elim (or_else (find path (codes "&") pos) (find path (codes " ") pos)) [
    | none ↦ []
    | some end ↦
        substr path (pos + length (field ++ codes "="))
          (sub_size end (pos + length (field ++ codes "=")))
  ]
]
