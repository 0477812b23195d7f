-- ===== src/Crypto.antt =====
-- The package src/coldwatch/crypto: the stream cipher, the authenticator, and the AEAD of the two.
pub mod Xor
pub mod ChaCha20
pub mod Poly1305
pub mod Aead
mod Tests
