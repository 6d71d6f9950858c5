-- ===== src/Crypto/Sha256/Digest.antt =====
-- The text of a digest: its length, its alphabet and its words.
use akkon.Base.{
  ℕ, zero, suc, ◌+◌, ◌*◌, ◌^◌, ◌%◌, ◌/◌, ◌<◌, ◌≡◌, refl, ◌∙◌, ap, some, List, [], ◌∷◌, ◌++◌, All,
  All-append, length, get_or, take, drop, length-append, drop-drop, take-append_length,
  drop-append_length, arith,
}
use akkon.Crypto.Hex.{word_hex, word_hex_lem, IsHex}
use akkon.Crypto.Pad.{pad}
use akkon.Crypto.HexValue.{stoull_hex, stoull_hex-word_hex}
use akkon.Crypto.Sha256.{
  Words, add_words, initial_words, transform, word_list, hex_words, digest_words, sha256,
}

abbrev IsWord : ℕ → Type 0
IsWord w = w < 2 ^ 32

add_words-IsWord : (h v : Words) → All IsWord (word_list (add_words h v))
unfolding add_words
add_words-IsWord h v = omega arith

transform-IsWord :
    (message : List ℕ) (i blocks : ℕ) (h : Words)
    → All IsWord (word_list h)
    → All IsWord (word_list (transform message i blocks h))
unfolding transform
transform-IsWord message i zero h k = k
transform-IsWord message i (suc blocks) h k =
    transform-IsWord message (i + 1) blocks _ (add_words-IsWord h _)

pub digest_words-IsWord : (input : List ℕ) → All IsWord (word_list (digest_words input))
unfolding digest_words
digest_words-IsWord input =
    transform-IsWord (pad input) 0 (length (pad input) / 64 % 2 ^ 32) initial_words (omega arith)

hex_words_lem :
    (ws : List ℕ)
    → All IsWord ws
    → (length (hex_words ws) ≡ length ws * 8) × All IsHex (hex_words ws)
unfolding hex_words
hex_words_lem [] h = (refl, tt)
hex_words_lem (w ∷ ws) h = (
  omega (
    arith,
    length-append (word_hex w) (hex_words ws),
    (word_hex_lem w h.0).0,
    (hex_words_lem ws h.1).0,
  ),
  All-append IsHex (word_hex w) (hex_words ws) (word_hex_lem w h.0).1 (hex_words_lem ws h.1).1,
)

get_or-IsWord : (ws : List ℕ) (i : ℕ) → All IsWord ws → get_or ws i 0 < 2 ^ 32
get_or-IsWord [] i h = omega arith
get_or-IsWord (w ∷ ws) zero h = h.0
get_or-IsWord (w ∷ ws) (suc i) h = get_or-IsWord ws i h.1

-- The `i`-th group of eight digits writes the `i`-th word.
hex_words-chunk :
    (ws : List ℕ) (i : ℕ)
    → All IsWord ws
    → i < length ws
    → take 8 (drop (i * 8) (hex_words ws)) ≡ word_hex (get_or ws i 0)
unfolding hex_words
hex_words-chunk [] i h k = absurd (omega arith)
hex_words-chunk (w ∷ ws) zero h k =
    take-append_length 8 (word_hex w) (hex_words ws) (word_hex_lem w h.0).0
hex_words-chunk (w ∷ ws) (suc i) h k =
    ap (λ t. take 8 t) skip ∙ hex_words-chunk ws i h.1 (omega arith)
  where
    split : suc i * 8 ≡ 8 + i * 8
    split = omega arith

    skip : drop (suc i * 8) (word_hex w ++ hex_words ws) ≡ drop (i * 8) (hex_words ws)
    skip =
        rw (split, ← drop-drop (i * 8) 8 (word_hex w ++ hex_words ws))
          (ap (λ t. drop (i * 8) t)
            (drop-append_length 8 (word_hex w) (hex_words ws) (word_hex_lem w h.0).0))

-- Whatever the input, the digest is 64 lowercase hexadecimal digits.
pub sha256-IsHex : (input : List ℕ) → (length (sha256 input) ≡ 64) × All IsHex (sha256 input)
unfolding sha256
sha256-IsHex input = hex_words_lem (word_list (digest_words input)) (digest_words-IsWord input)

-- For `i` below 8, reading the `i`-th group of eight digits of a digest gives the `i`-th word of the
-- hash.
pub sha256-chunk :
    (input : List ℕ) (i : ℕ)
    → i < 8
    → stoull_hex (take 8 (drop (i * 8) (sha256 input)))
      ≡ some (get_or (word_list (digest_words input)) i 0)
unfolding sha256
sha256-chunk input i h =
    rw
      (hex_words-chunk (word_list (digest_words input)) i (digest_words-IsWord input) (omega arith))
      (stoull_hex-word_hex _
        (get_or-IsWord (word_list (digest_words input)) i (digest_words-IsWord input)))
