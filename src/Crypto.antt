-- ===== src/Crypto.antt =====
-- crates/crypto/src: the formats that Skarbiec reads and writes itself.
pub mod OpenPgp
pub mod Base64
pub mod Bignum
pub mod Rsa
