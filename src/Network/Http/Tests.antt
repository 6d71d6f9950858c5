-- ===== src/Network/Http/Tests.antt =====
-- The heads of the responses, and one response.
use akkon.Base.{◌≡◌, refl, some, ◌++◌, arith}
use akkon.Base.Text.{Text, codes}
use akkon.Base.Find.{absent-Absent}
use akkon.Network.Http.{response, html_head, json_head, blank_line}
use akkon.Network.Http.Framing.{IsHead, content_length, body_of, content_length-response}

html_head-IsHead : IsHead html_head
html_head-IsHead = record {
  no_length = λ rest. absent-Absent (codes "Content-Length: ") html_head rest refl;
  no_blank = λ rest. absent-Absent blank_line html_head (codes "Content-Length: " ++ rest) refl;
}

abbrev conflict_head : Text
conflict_head = json_head (codes "409 Conflict")

conflict_head-IsHead : IsHead conflict_head
unfolding json_head
conflict_head-IsHead = record {
  no_length = λ rest. absent-Absent (codes "Content-Length: ") conflict_head rest refl;
  no_blank = λ rest. absent-Absent blank_line conflict_head (codes "Content-Length: " ++ rest) refl;
}

content_length-response_example :
    (content_length (response conflict_head (codes "{}")) ≡ some 2)
    × (body_of (response conflict_head (codes "{}")) ≡ some (codes "{}"))
content_length-response_example =
    content_length-response conflict_head (codes "{}") conflict_head-IsHead (omega arith)
