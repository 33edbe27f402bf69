-- ===== src/Crypto/ChaCha/Tests.antt =====
-- The test vector of RFC 8439, section 2.3.2, and an instance of the theorem.
use lemoniscate.Common.{ℕ, ◌≡◌, refl, List, [], ◌∷◌, take}
use lemoniscate.Crypto.ChaCha.{chacha20_block}

abbrev key : List ℕ
key =
    0 ∷ 1 ∷ 2 ∷ 3 ∷ 4 ∷ 5 ∷ 6 ∷ 7 ∷ 8 ∷ 9 ∷ 10 ∷ 11 ∷ 12 ∷ 13 ∷ 14 ∷ 15 ∷ 16 ∷ 17 ∷ 18 ∷ 19 ∷ 20
    ∷ 21 ∷ 22 ∷ 23 ∷ 24 ∷ 25 ∷ 26 ∷ 27 ∷ 28 ∷ 29 ∷ 30 ∷ 31 ∷ []

abbrev nonce : List ℕ
nonce = 0 ∷ 0 ∷ 0 ∷ 9 ∷ 0 ∷ 0 ∷ 0 ∷ 74 ∷ 0 ∷ 0 ∷ 0 ∷ 0 ∷ []

block_vector :
    take 16 (chacha20_block key nonce 1)
    ≡ 0x10 ∷ 0xf1 ∷ 0xe7 ∷ 0xe4 ∷ 0xd1 ∷ 0x3b ∷ 0x59 ∷ 0x15 ∷ 0x50 ∷ 0x0f ∷ 0xdd ∷ 0x1f ∷ 0xa3
      ∷ 0x20 ∷ 0x71 ∷ 0xc4 ∷ []
unfolding chacha20_block lemoniscate.Crypto.ChaCha.add_row lemoniscate.Crypto.ChaCha.double_rounds
    lemoniscate.Crypto.ChaCha.diagonal_rounds lemoniscate.Crypto.ChaCha.initial_state
    lemoniscate.Crypto.ChaCha.quarter_round lemoniscate.Crypto.ChaCha.column_rounds
    lemoniscate.Crypto.ChaCha.load32_le lemoniscate.Crypto.ChaCha.rotl32
block_vector = refl
