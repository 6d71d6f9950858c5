-- ===== src/Crypto/Tests.antt =====
-- The theorems on padding and digests at a concrete text.
use akkon.Base.{◌≡◌, All, length}
use akkon.Base.Text.{codes}
use akkon.Crypto.Hex.{IsHex}
use akkon.Crypto.Sha256.{sha256}
use akkon.Crypto.Sha256.Digest.{sha256-IsHex}

sha256-IsHex_example : (length (sha256 (codes "abc")) ≡ 64) × All IsHex (sha256 (codes "abc"))
sha256-IsHex_example = sha256-IsHex (codes "abc")
