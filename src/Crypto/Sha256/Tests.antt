-- ===== src/Crypto/Sha256/Tests.antt =====
-- `Hash::sha256` on published test vectors, and the theorems on digests at concrete inputs.
use akkon.Base.{◌≡◌, refl, []}
use akkon.Base.Text.{codes}
use akkon.Crypto.Hex.{word_hex}
use akkon.Crypto.Pad.{pad, pad_zeros, push_length}
use akkon.Crypto.Sha256.{sha256, digest_words, transform, hex_words}

sha256_abc :
    sha256 (codes "abc") ≡ codes "ba7816bf8f01cfea414140de5dae2223b00361a396177a9cb410ff61f20015ad"
unfolding sha256 digest_words transform hex_words word_hex pad pad_zeros push_length
sha256_abc = refl

sha256_nil : sha256 [] ≡ codes "e3b0c44298fc1c149afbf4c8996fb92427ae41e4649b934ca495991b7852b855"
unfolding sha256 digest_words transform hex_words word_hex pad pad_zeros push_length
sha256_nil = refl
