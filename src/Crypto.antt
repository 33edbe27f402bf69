-- ===== src/Crypto.antt =====
-- src/hotline/chacha20poly1305.c: the cipher, the authenticator and their combination.
pub mod ChaCha
pub mod Poly
pub mod Aead
