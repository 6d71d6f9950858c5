-- ===== src/Crypto.antt =====
-- src/crypto: the hash that names records and feeds the index.
pub mod Word
pub mod Pad
pub mod Hex
pub mod HexValue
pub mod Sha256
mod Tests
