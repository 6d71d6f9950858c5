-- ===== src/Api/Route.antt =====
-- The routing of the data handler of src/main.cpp: the method, the path, and the two short forms.
use akkon.Base.{ℕ, Bool, true, ◌||◌, ◌&&◌, none, some, [], ◌∷◌, drop, leb, length, ◌==◌}
use akkon.Base.Text.{Text, codes, text_eq, starts_with}
use akkon.Base.Find.{find, substr}
use akkon.Network.Http.{method_of, path_of}
use akkon.Network.Handshake.{is_some}

-- The path up to the first question mark.
pub clean_path : Text → Text
clean_path path = elim (find path (codes "?") 0) [ none ↦ path | some q_pos ↦ substr path 0 q_pos ]

-- `is_hex_str`, on the text from `start` on.
pub is_hex_str : Text → Bool
is_hex_str [] = true
is_hex_str (c ∷ s) =
    ((leb b'0' c && leb c b'9') || ((leb b'a' c && leb c b'f') || (leb b'A' c && leb c b'F')))
    && is_hex_str s

-- `clean_path.starts_with("/api/")`, the length, and `is_hex_str(clean_path, 5)`.
abbrev pub is_short_path : ℕ → Text → Bool
is_short_path size path =
    starts_with path (codes "/api/") && (length path == size && is_hex_str (drop 5 path))

pub is_short_insert : Text → Text → Bool
is_short_insert method path = text_eq method (codes "POST") && is_short_path 133 path

pub is_short_exists : Text → Text → Bool
is_short_exists method path = text_eq method (codes "GET") && is_short_path 69 path

-- `request.find(...) != npos`.
abbrev pub mentions : Text → Text → Bool
mentions request phrase = is_some (find request phrase 0)

pub is_insert : Text → Bool
is_insert request =
    mentions request (codes "POST /api/v1/insert")
    || (mentions request (codes "POST /api/v1/create")
        || is_short_insert (method_of request) (clean_path (path_of request)))

pub is_exists : Text → Bool
is_exists request =
    mentions request (codes "GET /api/v1/exists")
    || is_short_exists (method_of request) (clean_path (path_of request))

abbrev pub is_options : Text → Bool
is_options request = starts_with request (codes "OPTIONS ")
