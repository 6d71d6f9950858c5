-- ===== src/Testsuite/Logs.antt =====
-- What `getLogs` returns of a log.
use akkon.Base.{
  ℕ, ◌-◌, ◌≡◌, refl, ◌∙◌, Bool, true, false, List, [], ◌++◌, length, take, drop, take-append-drop,
  length-drop, not_leb→lt, if◌then◌else◌, leb, ◌==◌, arith,
}
use akkon.Base.Text.{Text}
use akkon.Testsuite.Status.{last_lines}

-- How many lines are asked for: 0 asks for all.
abbrev pub asked : ℕ → ℕ → ℕ
asked n count = if n == 0 then count else if leb count n then count else n

-- What `getLogs` returns of a log is a suffix of its lines: all of them for 0, and otherwise as many as
-- are asked for, or all where there are fewer.
pub last_lines_lem :
    (n : ℕ) (lines : List Text)
    → (front : List Text) × (front ++ last_lines n lines ≡ lines)
      × (length (last_lines n lines) ≡ asked n (length lines))
unfolding last_lines
last_lines_lem n lines = by_tests (n == 0) (leb (length lines) n) refl
  where
    by_tests :
        (all few : Bool)
        → leb (length lines) n ≡ few
        → let result =
            if all then lines else if few then lines else drop (length lines - n) lines in
          (front : List Text) × (front ++ result ≡ lines)
          × (length result ≡ (if all then length lines else if few then length lines else n))
    by_tests true few e = ([], refl, refl)
    by_tests false true e = ([], refl, refl)
    by_tests false false e = (
      take (length lines - n) lines,
      take-append-drop (length lines - n) lines,
      length-drop (length lines - n) lines ∙ omega (arith, not_leb→lt (length lines) n e),
    )
