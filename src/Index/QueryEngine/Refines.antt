-- ===== src/Index/QueryEngine/Refines.antt =====
-- The engine refines a set of texts: no false negative, and "definitely" means it.
use akkon.Base.{
  ℕ, ◌*◌, ◌%◌, ◌^◌, ◌<◌, ◌≡◌, refl, sym, ap, Bool, true, false, ◌||◌, ◌⊎◌, inl, inr, Bool-cases,
  some, if◌then◌else◌, List, [], ◌∷◌, length, length-replicate, arith,
}
use mathlib.Core.Path.{subst, fun_ext}
use akkon.Base.Text.{Text, text_eq, eq_of_text_eq}
use akkon.Index.Bloom.Bits.{positions}
use akkon.Index.Bloom.{make_filter, test_bits, possibly_contains}
use akkon.Index.Bloom.Membership.{
  added, add_lem, length-added, possibly_contains_lem, possibly_contains-added,
  possibly_contains-added_self,
}
use akkon.Index.QueryEngine.{
  QueryEngine, QueryResult, definitely_no, probably_yes, definitely_yes, make_engine, contains,
  insert, query, insert_all,
}

-- The engine holds exactly the texts of `seen`, and its filter reports each of them.
pub record Holds (e : QueryEngine) (seen : Text → Bool) : Type 0 where
  pub room : 0 < length e.filter.bits
  pub stored : (q : Text) → contains e.exact_store q ≡ seen q
  pub reported : (q : Text) → seen q ≡ true → possibly_contains e.filter q ≡ some true

-- The engine after an insertion.
abbrev pub inserted : QueryEngine → Text → QueryEngine
inserted e item = record {
  filter = added e.filter item;
  exact_store = if contains e.exact_store item then e.exact_store else item ∷ e.exact_store;
}

pub insert_lem :
    (e : QueryEngine) (item : Text)
    → 0 < length e.filter.bits
    → insert e item ≡ some (inserted e item)
unfolding insert
insert_lem e item pos = ground (arith, add_lem e.filter item pos)

-- A query answers, whatever the engine holds.
pub query_total :
    (e : QueryEngine) (item : Text)
    → 0 < length e.filter.bits
    → (r : QueryResult) × (query e item ≡ some r)
unfolding query
query_total e item pos = elim (Bool-cases (test_bits e.filter.bits (positions e.filter item))) [
  | inl set_all ↦ elim (Bool-cases (contains e.exact_store item)) [
    | inl old ↦
        (definitely_yes, rw (query, possibly_contains_lem e.filter item pos, set_all, old) refl)
    | inr new ↦
        (probably_yes, rw (query, possibly_contains_lem e.filter item pos, set_all, new) refl)
  ]
  | inr missing ↦ (definitely_no, rw (query, possibly_contains_lem e.filter item pos, missing) refl)
]

contains-text_eq :
    (xs : List Text) (x y : Text) → text_eq x y ≡ true → contains xs y ≡ contains xs x
contains-text_eq xs x y h = ap (contains xs) (sym (eq_of_text_eq x y h))

stored-inserted :
    {e : QueryEngine} (seen : Text → Bool) (item q : Text)
    → Holds e seen
    → contains (inserted e item).exact_store q ≡ (text_eq item q || seen q)
stored-inserted {e} seen item q h = elim (Bool-cases (contains e.exact_store item)) [
  | inl old ↦ ground (arith, old, h.stored q, contains-text_eq e.exact_store item q)
  | inr new ↦ rw new (ap (λ b. text_eq item q || b) (h.stored q))
]

pub inserted-Holds :
    {e : QueryEngine} (seen : Text → Bool) (item : Text)
    → Holds e seen
    → Holds (inserted e item) (λ q. text_eq item q || seen q)
inserted-Holds {e} seen item h = record {
  room = rw length-added h.room;
  stored = λ q. stored-inserted seen item q h;
  reported = λ q s. elim (Bool-cases (text_eq item q)) [
    | inl same ↦
        rw (← eq_of_text_eq item q same) (possibly_contains-added_self e.filter item h.room)
    | inr other ↦ possibly_contains-added e.filter item q h.room (h.reported q (ground arith))
  ];
}

pub query_lem :
    {e : QueryEngine} (seen : Text → Bool) (q : Text)
    → Holds e seen
    → (seen q ≡ true → query e q ≡ some definitely_yes)
      × (seen q ≡ false → (query e q ≡ some definitely_no) ⊎ (query e q ≡ some probably_yes))
unfolding query
query_lem {e} seen q h = (
  λ yes_seen. ground (arith, h.reported q yes_seen, h.stored q),
  λ not_seen. elim (Bool-cases (test_bits e.filter.bits (positions e.filter q))) [
    | inl set_all ↦ inr (ground (arith, possibly_contains_lem e.filter q h.room, h.stored q))
    | inr missing ↦ inl (ground (arith, possibly_contains_lem e.filter q h.room))
  ],
)

or_swap : (a b c : Bool) → ((a || b) || c) ≡ (b || (a || c))
or_swap a b c = ground arith

pub insert_all-Holds :
    (items : List Text) (e : QueryEngine) (seen : Text → Bool)
    → Holds e seen
    → (e' : QueryEngine) × (insert_all e items ≡ some e')
      × Holds e' (λ q. seen q || contains items q)
unfolding insert_all
insert_all-Holds [] e seen h = (e, refl, subst (Holds e) (fun_ext (λ q. ground arith)) h)
insert_all-Holds (x ∷ xs) e seen h =
    let (e', done, holds) =
      insert_all-Holds xs (inserted e x) (λ q. text_eq x q || seen q) (inserted-Holds seen x h) in
    (
      e',
      ground (arith, insert_lem e x h.room),
      subst (Holds e') (fun_ext (λ q. or_swap (text_eq x q) (seen q) (contains xs q))) holds,
    )

pub make_engine-Holds :
    (expected : ℕ)
    → 0 < expected
    → expected * 10 < 2 ^ 64
    → Holds (make_engine expected) (λ _. false)
unfolding make_engine make_filter
make_engine-Holds expected pos small = record {
  room = omega (arith, length-replicate (expected * 10 % 2 ^ 64) false);
  stored = λ q. refl;
  reported = λ q s. cc;
}

-- An engine for `expected` items, at least one and with `expected * 10` below 2 ^ 64, accepts any
-- insertions without an exception; afterwards a query for an inserted text answers DEFINITELY_YES,
-- and one for any other text answers DEFINITELY_NO or PROBABLY_YES.
pub query_refines :
    (expected : ℕ) (items : List Text)
    → 0 < expected
    → expected * 10 < 2 ^ 64
    → (e : QueryEngine) × (insert_all (make_engine expected) items ≡ some e)
      × ((q : Text)
          → (contains items q ≡ true → query e q ≡ some definitely_yes)
            × (contains items q ≡ false
                → (query e q ≡ some definitely_no) ⊎ (query e q ≡ some probably_yes)))
query_refines expected items pos small =
    let (e, done, holds) =
      insert_all-Holds items (make_engine expected) (λ _. false)
        (make_engine-Holds expected pos small) in
    (e, done, λ q. query_lem (λ q. contains items q) q holds)
