-- ===== src/Crypto/Poly/Tests.antt =====
-- The test vector of RFC 8439, section 2.5.2, up to its full blocks.
use lemoniscate.Common.{ℕ, ◌≡◌, refl, List, [], ◌∷◌, true, false}
use lemoniscate.Crypto.Poly.{poly1305_init, poly1305_blocks, poly1305_final}

abbrev key : List ℕ
key =
    0x85 ∷ 0xd6 ∷ 0xbe ∷ 0x78 ∷ 0x57 ∷ 0x55 ∷ 0x6d ∷ 0x33 ∷ 0x7f ∷ 0x44 ∷ 0x52 ∷ 0xfe ∷ 0x42 ∷ 0xd5
    ∷ 0x06 ∷ 0xa8 ∷ 0x01 ∷ 0x03 ∷ 0x80 ∷ 0x8a ∷ 0xfb ∷ 0x0d ∷ 0xb2 ∷ 0xfd ∷ 0x4a ∷ 0xbf ∷ 0xf6
    ∷ 0xaf ∷ 0x41 ∷ 0x49 ∷ 0xf5 ∷ 0x1b ∷ []

-- "Cryptographic Forum Research Gro", then "up" and the closing 1 of a last block.
abbrev blocks : List ℕ
blocks =
    0x43 ∷ 0x72 ∷ 0x79 ∷ 0x70 ∷ 0x74 ∷ 0x6f ∷ 0x67 ∷ 0x72 ∷ 0x61 ∷ 0x70 ∷ 0x68 ∷ 0x69 ∷ 0x63 ∷ 0x20
    ∷ 0x46 ∷ 0x6f ∷ 0x72 ∷ 0x75 ∷ 0x6d ∷ 0x20 ∷ 0x52 ∷ 0x65 ∷ 0x73 ∷ 0x65 ∷ 0x61 ∷ 0x72 ∷ 0x63
    ∷ 0x68 ∷ 0x20 ∷ 0x47 ∷ 0x72 ∷ 0x6f ∷ []

abbrev last_block : List ℕ
last_block = 0x75 ∷ 0x70 ∷ 1 ∷ 0 ∷ 0 ∷ 0 ∷ 0 ∷ 0 ∷ 0 ∷ 0 ∷ 0 ∷ 0 ∷ 0 ∷ 0 ∷ 0 ∷ 0 ∷ []

tag_vector :
    poly1305_final
      (poly1305_blocks (poly1305_blocks (poly1305_init key) blocks false) last_block true)
    ≡ 0xa8 ∷ 0x06 ∷ 0x1d ∷ 0xc1 ∷ 0x30 ∷ 0x51 ∷ 0x36 ∷ 0xc6 ∷ 0xc2 ∷ 0x2b ∷ 0x8b ∷ 0xaf ∷ 0x0c
      ∷ 0x01 ∷ 0x27 ∷ 0xa9 ∷ []
unfolding poly1305_final lemoniscate.Crypto.Poly.add_pad lemoniscate.Crypto.Poly.reassemble
    lemoniscate.Crypto.Poly.select poly1305_init poly1305_blocks lemoniscate.Crypto.Poly.full_carry
    lemoniscate.Crypto.Poly.blocks_from lemoniscate.Crypto.Poly.reduce
    lemoniscate.Crypto.Poly.products lemoniscate.Crypto.Poly.add_message
    lemoniscate.Crypto.ChaCha.load32_le lemoniscate.Crypto.Poly.minus_p
    lemoniscate.Crypto.Poly.block_step
tag_vector = refl
