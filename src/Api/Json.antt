-- ===== src/Api/Json.antt =====
-- `escapeJsonString` of src/main.cpp, against the strings of RFC 8259.
use mathlib.Core.List.{append_assoc}
use akkon.Base.{
  ℕ, ◌≡◌, ◌≤◌, ◌⊎◌, refl, Bool, true, false, Option, none, some, List, [], ◌∷◌, ◌++◌, arith, All,
  if◌then◌else◌, ◌==◌, ltb,
}

abbrev pub escape_char : ℕ → List ℕ
escape_char c =
    if c == 34
    then 92 ∷ 34 ∷ []
    else if c == 92
    then 92 ∷ 92 ∷ []
    else if c == 10
    then 92 ∷ 110 ∷ []
    else if c == 13
    then 92 ∷ 114 ∷ []
    else if c == 9
    then 92 ∷ 116 ∷ []
    else c ∷ []

unfoldable pub escape_json_string : List ℕ → List ℕ
escape_json_string [] = []
escape_json_string (c ∷ input) = escape_char c ++ escape_json_string input

abbrev pub push : ℕ → Option (List ℕ × List ℕ) → Option (List ℕ × List ℕ)
push c none = none
push c (some (text, rest)) = some (c ∷ text, rest)

-- The two-character escapes of RFC 8259, section 7.
abbrev pub unescape_char : ℕ → Option ℕ
unescape_char c =
    if c == 34
    then some 34
    else if c == 92
    then some 92
    else if c == 47
    then some 47
    else if c == 98
    then some 8
    else if c == 102
    then some 12
    else if c == 110
    then some 10
    else if c == 114
    then some 13
    else if c == 116
    then some 9
    else none

abbrev pub push? : Option ℕ → Option (List ℕ × List ℕ) → Option (List ℕ × List ℕ)
push? none r = none
push? (some c) r = push c r

-- What a strict parser reads after the opening quote: the text, and what follows the closing quote.
-- It refuses control characters. The flag says that the last character was a backslash.
pub read_string : Bool → List ℕ → Option (List ℕ × List ℕ)
read_string escaped [] = none
read_string false (c ∷ cs) =
    let inside = read_string false cs in
    let after_backslash = read_string true cs in
    if c == 92
    then after_backslash
    else if c == 34
    then some ([], cs)
    else if ltb c 32
    then none
    else push c inside
read_string true (c ∷ cs) = push? (unescape_char c) (read_string false cs)

-- A character of text: no control character but the three that the code escapes.
abbrev pub IsTextChar : ℕ → Type 0
IsTextChar c = (32 ≤ c) ⊎ (c ≡ 9) ⊎ (c ≡ 10) ⊎ (c ≡ 13)

read_string-escape_char :
    (c : ℕ) (rest : List ℕ)
    → IsTextChar c
    → read_string false (escape_char c ++ rest) ≡ push c (read_string false rest)
unfolding read_string
read_string-escape_char c rest h = ground arith

-- A text of characters from 32 on, tabs, line feeds and carriage returns, escaped and put between
-- quotes, is read back by a strict parser, whatever follows the closing quote.
pub read_string-escape_json_string :
    (text rest : List ℕ)
    → All IsTextChar text
    → read_string false (escape_json_string text ++ 34 ∷ rest) ≡ some (text, rest)
unfolding escape_json_string
read_string-escape_json_string [] rest h = unfold read_string in refl
read_string-escape_json_string (c ∷ text) rest h =
    rw
      (
        append_assoc (escape_char c) (escape_json_string text) (34 ∷ rest),
        read_string-escape_char c (escape_json_string text ++ 34 ∷ rest) h.0,
        read_string-escape_json_string text rest h.1,
      )
      refl
