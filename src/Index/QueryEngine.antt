-- ===== src/Index/QueryEngine.antt =====
-- `QueryEngine` of src/index/QueryEngine.{h,cpp}. The `std::unordered_set` is a list without
-- repetition: the program only inserts into it and looks items up.
pub mod Refines
use akkon.Base.{
  ℕ, ◌*◌, ◌%◌, ◌^◌, Bool, true, false, ◌||◌, Option, none, some, List, [], ◌∷◌, if◌then◌else◌,
}
use akkon.Base.Text.{Text, text_eq}
use akkon.Index.Bloom
use akkon.Index.Bloom.{BloomFilter}

pub data QueryResult : Type 0 where
  definitely_no probably_yes definitely_yes : QueryResult

pub record QueryEngine : Type 0 where
  pub filter : BloomFilter
  pub exact_store : List Text

-- The constructor; `expected_items * 10` is a `std::size_t`.
pub make_engine : ℕ → QueryEngine
make_engine expected_items = record {
  filter = Bloom.make_filter (expected_items * 10 % 2 ^ 64) 7;
  exact_store = [];
}

-- `m_exact_store.find(item) != m_exact_store.end()`.
abbrev pub contains : List Text → Text → Bool
contains [] item = false
contains (x ∷ xs) item = text_eq x item || contains xs item

-- `insert`; `none` is an exception of the filter.
pub insert : QueryEngine → Text → Option QueryEngine
insert e item = elim (Bloom.add e.filter item) [
  | none ↦ none
  | some filter' ↦ some (record {
    filter = filter';
    exact_store = if contains e.exact_store item then e.exact_store else item ∷ e.exact_store;
  })
]

-- `query`; `none` is an exception of the filter.
pub query : QueryEngine → Text → Option QueryResult
query e item = elim (Bloom.possibly_contains e.filter item) [
  | none ↦ none
  | some false ↦ some definitely_no
  | some true ↦ if contains e.exact_store item then some definitely_yes else some probably_yes
]

-- Insertions one after the other.
pub insert_all : QueryEngine → List Text → Option QueryEngine
insert_all e [] = some e
insert_all e (item ∷ items) = elim (insert e item) [ none ↦ none | some e' ↦ insert_all e' items ]
