-- ===== src/Network/Http.antt =====
-- `HttpHandler` and `AkkonProtocolHandler` of src/network/protocols, and the JSON responses that
-- src/main.cpp writes out at each place.
pub mod Framing
mod Tests
use akkon.Base.{
  Bool, true, false, ◌||◌, List, [], ◌∷◌, ◌++◌, ℕ, length, if◌then◌else◌, leb, ltb, ◌==◌, ◌&&◌,
}
use akkon.Base.Text.{Text, codes, starts_with}
use akkon.Base.Decimal.{to_string}

pub is_http_request : Text → Bool
is_http_request request = starts_with request (codes "GET ") || starts_with request (codes "POST ")

pub is_akkon_protocol : Text → Bool
is_akkon_protocol request = starts_with request (codes "AKKON ")

abbrev pub akkon_response : Text
akkon_response = codes "AKKON_ACK\n"

-- `std::isspace` in the C locale.
abbrev pub is_space : ℕ → Bool
is_space c = c == 32 || leb 9 c && leb c 13

unfoldable pub skip_spaces : Text → Text
skip_spaces [] = []
skip_spaces (c ∷ text) = let rest = skip_spaces text in if is_space c then rest else c ∷ text

pub word_front : Text → Text
word_front [] = []
word_front (c ∷ text) = let rest = word_front text in if is_space c then [] else c ∷ rest

pub word_back : Text → Text
word_back [] = []
word_back (c ∷ text) = let rest = word_back text in if is_space c then c ∷ text else rest

-- `iss >> method >> path`.
unfoldable pub method_of : Text → Text
method_of request = word_front (skip_spaces request)

unfoldable pub path_of : Text → Text
path_of request = word_front (skip_spaces (word_back (skip_spaces request)))

abbrev pub blank_line : Text
blank_line = codes "\r\n\r\n"

-- A response with the length of its body: the status line and the headers before the length, and
-- the body.
unfoldable pub response : Text → Text → Text
response head body =
    head
    ++ (codes "Content-Length: "
        ++ (to_string (length body) ++ (codes "\r\nConnection: close\r\n\r\n" ++ body)))

abbrev pub html_head : Text
html_head = codes "HTTP/1.1 200 OK\r\nContent-Type: text/html\r\n"

-- `HttpHandler::handleRequest`.
unfoldable pub handle_http : Text → (Text → Text) → Text
handle_http request router = response html_head (router (path_of request))

-- The responses of the interface, by the status in the first line.
unfoldable pub json_head : Text → Text
json_head status =
    codes "HTTP/1.1 "
    ++ (status ++ codes "\r\nAccess-Control-Allow-Origin: *\r\nContent-Type: application/json\r\n")

unfoldable pub json_response : Text → Text → Text
json_response status body = response (json_head status) body
