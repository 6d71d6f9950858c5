-- ===== src/Network/Http/Framing.antt =====
-- The length that a response announces is the length of its body.
use mathlib.Core.List.{append_assoc}
use akkon.Base.{
  ℕ, ◌+◌, ◌^◌, ◌-◌, ◌<◌, ◌≡◌, ◌≢◌, refl, sym, ap, ◌∙◌, some, none, Option, [], ◌∷◌, ◌++◌, All,
  length, drop, length-append, drop-append_length, arith,
}
use akkon.Base.Text.{Text, codes}
use akkon.Base.Decimal.{
  to_string, decimal_value, IsDigit, to_string-IsDigit, decimal_value-to_string,
}
use akkon.Base.Find.{
  find, substr, Absent, Absent-lacking, find-Absent, absent-Absent, Absent-append,
  starts_with-append, substr-middle,
}
use akkon.Network.Http.{response, blank_line}

-- What a client does: the digits behind the header's name up to the line's end, and the body behind
-- the blank line.
abbrev pub read_length : Text → Option ℕ → Option ℕ
read_length text none = none
read_length text (some at) = elim (find text (codes "\r") (at + 16)) [
  | none ↦ none
  | some end ↦ some (decimal_value 0 (substr text (at + 16) (end - (at + 16))))
]

abbrev pub read_body : Text → Option ℕ → Option Text
read_body text none = none
read_body text (some at) = some (drop (at + 4) text)

unfoldable pub content_length : Text → Option ℕ
content_length text = read_length text (find text (codes "Content-Length: ") 0)

unfoldable pub body_of : Text → Option Text
body_of text = read_body text (find text blank_line 0)

-- The two texts do not begin in the head of the response.
pub record IsHead (head : Text) : Type 0 where
  pub no_length : (rest : Text) → Absent (codes "Content-Length: ") head rest
  pub no_blank : (rest : Text) → Absent blank_line head (codes "Content-Length: " ++ rest)

-- The length in decimal.
read_length-digits :
    (front digits back : Text) (pos : ℕ)
    → length front ≡ pos
    → All (λ c. c ≢ b'\r') digits
    → read_length
        (front ++ (codes "Content-Length: " ++ (digits ++ (codes "\r" ++ back))))
        (some pos)
      ≡ some (decimal_value 0 digits)
read_length-digits front digits back pos e clean = rw shape (
    rw
      (
        read_length,
        find-Absent named digits (codes "\r" ++ back) (codes "\r") (pos + 16) at
            (Absent-lacking b'\r' [] digits (codes "\r" ++ back) clean)
            (starts_with-append (codes "\r") back),
      )
      (ap (λ t. some (decimal_value 0 t))
        (substr-middle named digits (codes "\r" ++ back) (pos + 16)
          (pos + 16 + length digits - (pos + 16)) at (omega arith))))
  where
    named : Text
    named = front ++ codes "Content-Length: "

    shape :
        front ++ (codes "Content-Length: " ++ (digits ++ (codes "\r" ++ back)))
        ≡ named ++ (digits ++ (codes "\r" ++ back))
    shape = sym (append_assoc front (codes "Content-Length: ") (digits ++ (codes "\r" ++ back)))

    at : length named ≡ pos + 16
    at = omega (arith, length-append front (codes "Content-Length: "))

digits_clean : (text : Text) → All IsDigit text → All (λ c. c ≢ b'\r') text
digits_clean [] h = tt
digits_clean (c ∷ text) h = ((λ e. omega (arith, e, h.0.0)), digits_clean text h.1)

-- A response whose head holds neither of the two texts announces the length of its body, which is
-- below 2 ^ 64, and the body is what follows the first blank line.
pub content_length-response :
    (head body : Text)
    → IsHead head
    → length body < 2 ^ 64
    → (content_length (response head body) ≡ some (length body))
      × (body_of (response head body) ≡ some body)
unfolding content_length body_of response
content_length-response head body is_head small = (
  rw (content_length, found)
      (read_length-digits head digits (codes "\nConnection: close\r\n\r\n" ++ body)
          (0 + length head) (omega arith) (digits_clean digits (to_string-IsDigit (length body)))
        ∙ ap some (decimal_value-to_string (length body) small)),
  rw
      (
        body_of,
        ap (λ t. find t blank_line 0) shape,
        blank_found,
        shape,
        ← append_assoc before blank_line body,
      )
      (ap some (
        drop-append_length (0 + length before + 4) (before ++ blank_line) body
          (omega (arith, length-append before blank_line)))),
)
  where
    digits : Text
    digits = to_string (length body)

    closing : Text
    closing = codes "\r\nConnection: close"

    found : find (response head body) (codes "Content-Length: ") 0 ≡ some (0 + length head)
    found = find-Absent [] head _ (codes "Content-Length: ") 0 refl (is_head.no_length _) (
        starts_with-append (codes "Content-Length: ")
          (digits ++ (codes "\r\nConnection: close\r\n\r\n" ++ body)))

    before : Text
    before = head ++ (codes "Content-Length: " ++ (digits ++ closing))

    shape : response head body ≡ before ++ (blank_line ++ body)
    shape = simp append_assoc

    lead :
        codes "Content-Length: " ++ (digits ++ closing) ++ (blank_line ++ body)
        ≡ codes "Content-Length: " ++ (digits ++ closing ++ (blank_line ++ body))
    lead = simp append_assoc

    no_blank : Absent blank_line before (blank_line ++ body)
    no_blank =
        Absent-append blank_line head (codes "Content-Length: " ++ (digits ++ closing))
          (blank_line ++ body)
          (rw lead (is_head.no_blank (digits ++ closing ++ (blank_line ++ body))))
          (Absent-append blank_line (codes "Content-Length: ") (digits ++ closing)
            (blank_line ++ body)
            (absent-Absent blank_line (codes "Content-Length: ")
              (digits ++ closing ++ (blank_line ++ body)) refl)
            (Absent-append blank_line digits closing (blank_line ++ body)
              (Absent-lacking b'\r' (codes "\n\r\n") digits (closing ++ (blank_line ++ body))
                (digits_clean digits (to_string-IsDigit (length body))))
              (absent-Absent blank_line closing (blank_line ++ body) refl)))

    blank_found : find (before ++ (blank_line ++ body)) blank_line 0 ≡ some (0 + length before)
    blank_found =
        find-Absent [] before (blank_line ++ body) blank_line 0 refl no_blank
          (starts_with-append blank_line body)
