-- ===== src/Construction/SqlText.antt =====
-- `escapeSqlString` of src/construction/Utils.cpp, against the lexical rule for string literals of
-- SQL: a quote inside a literal is doubled, and a quote that stands alone ends it.
use akkon.Base.{
  ℕ, ◌≡◌, refl, ap, Bool, true, false, Option, none, some, List, [], ◌∷◌, ◌++◌, if◌then◌else◌, ◌==◌,
  Bool-cases, inl, inr, sym, ==_iff,
}

abbrev pub quote : ℕ
quote = 39

unfoldable pub escape_sql_string : List ℕ → List ℕ
escape_sql_string [] = []
escape_sql_string (c ∷ input) =
    let rest = escape_sql_string input in if c == quote then quote ∷ quote ∷ rest else c ∷ rest

-- What a lexer of SQL reads after the opening quote: the text of the literal, and what follows the
-- closing quote. The flag says that the last character was a quote not yet accounted for.
unfoldable pub push : ℕ → Option (List ℕ × List ℕ) → Option (List ℕ × List ℕ)
push c none = none
push c (some (text, rest)) = some (c ∷ text, rest)

unfoldable pub read_literal : Bool → List ℕ → Option (List ℕ × List ℕ)
read_literal false [] = none
read_literal true [] = some ([], [])
read_literal false (c ∷ cs) =
    let inside = read_literal false cs in
    let after_quote = read_literal true cs in if c == quote then after_quote else push c inside
read_literal true (c ∷ cs) =
    let inside = read_literal false cs in
    if c == quote then push quote inside else some ([], c ∷ cs)

-- Text that does not begin with a quote.
abbrev pub NoQuote : List ℕ → Type 0
NoQuote [] = Unit
NoQuote (c ∷ cs) = (c == quote) ≡ false

-- Whatever the text, escaped and put between quotes, with anything but a quote after it, it is read
-- as that text and nothing else: no text ends the literal it stands in.
pub read_literal-escape_sql_string :
    (text rest : List ℕ)
    → NoQuote rest
    → read_literal false (escape_sql_string text ++ quote ∷ rest) ≡ some (text, rest)
unfolding escape_sql_string read_literal push
read_literal-escape_sql_string [] [] h = refl
read_literal-escape_sql_string [] (c ∷ rest) h = rw h refl
read_literal-escape_sql_string (c ∷ text) rest h = elim (Bool-cases (c == quote)) [
  | inl e ↦
      rw (e, read_literal-escape_sql_string text rest h)
        (ap (λ q. some (q ∷ text, rest)) (sym ((==_iff c quote).0 e)))
  | inr e ↦ rw (e, e, read_literal-escape_sql_string text rest h) refl
]
