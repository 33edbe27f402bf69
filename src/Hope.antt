-- ===== src/Hope.antt =====
-- src/hotline/hope.c, HOPE: the MAC-based login and the two transport encryptions, RC4 and
-- ChaCha20-Poly1305. The hash functions are the platform's, and parameters here.
pub mod Rc4
pub mod Mac
pub mod Algorithm
pub mod Login
pub mod Frame
pub mod Stream
pub mod Reader
