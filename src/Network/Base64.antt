-- ===== src/Network/Base64.antt =====
-- `base64_encode` of src/network/protocols/WebSocketHandler.cpp. `valb + 6`, the number of bits that
-- are not yet written, is `bits`; `val` is an `int`, kept modulo 2 ^ 32, of which the code reads low
-- bits only.
pub mod Rfc
mod Tests
use Prim.Native.Nat.{bit_and}
use akkon.Base.{
  ℕ, zero, suc, ◌+◌, ◌-◌, ◌*◌, ◌/◌, ◌%◌, ◌^◌, List, [], ◌∷◌, ◌++◌, length, get_or, if◌then◌else◌,
  ltb, ◌==◌,
}
use akkon.Base.Text.{Text, codes}

abbrev pub alphabet : Text
alphabet = codes "ABCDEFGHIJKLMNOPQRSTUVWXYZabcdefghijklmnopqrstuvwxyz0123456789+/"

-- The character at an index that is masked with 0x3F.
abbrev pub character : ℕ → ℕ
character index = get_or alphabet (bit_and index 0x3f) 0

-- `while (valb >= 0)`, with what it writes and the bits it leaves; fewer than 14 bits are waiting,
-- so two rounds are enough.
pub drain : ℕ → ℕ → ℕ → Text × ℕ
drain zero val bits = ([], bits)
drain (suc fuel) val bits =
    let rest = drain fuel val (bits - 6) in
    if ltb bits 6 then ([], bits) else (character (val / 2 ^ (bits - 6)) ∷ rest.0, rest.1)

-- The loop over the bytes, and the character for the bits that remain.
pub encode_loop : List ℕ → ℕ → ℕ → Text
encode_loop [] val bits =
    if ltb 0 bits then character (val * 2 ^ 8 % 2 ^ 32 / 2 ^ (bits + 2)) ∷ [] else []
encode_loop (c ∷ src) val bits =
    let next = (val * 2 ^ 8 + c) % 2 ^ 32 in
    let written = drain 3 next (bits + 8) in written.0 ++ encode_loop src next written.1

-- `while (out.size() % 4) out.push_back('=');`
pub push_equals : ℕ → Text → Text
push_equals zero out = out
push_equals (suc fuel) out =
    let more = push_equals fuel (out ++ b'=' ∷ []) in if length out % 4 == 0 then out else more

pub base64_encode : List ℕ → Text
base64_encode src = push_equals 4 (encode_loop src 0 0)
