-- ===== src/Crypto/Aead.antt =====
-- src/hotline/chacha20poly1305.c, the AEAD of RFC 8439 section 2.8.
pub mod Laws
mod Blocks
pub mod Tag
mod Tests
use lemoniscate.Common.{
  ℕ, zero, suc, ◌+◌, ◌-◌, Bool, true, false, Option, none, some, List, [], ◌∷◌, ◌++◌, take, drop,
  length, replicate, leb, ◌==◌, if◌then◌else◌,
}
use lemoniscate.Crypto.ChaCha.{chacha20_block, chacha20_xor, store64_le}
use lemoniscate.Crypto.Poly.{PolyState, poly1305_init, poly1305_blocks, poly1305_final}
use Prim.Native.Nat.{bit_or, bit_xor}

-- The loop over the complete blocks of 16 bytes, then the tail in a block filled with zeros; with
-- fuel for the bytes.
unfoldable pub feed_padded : ℕ → PolyState → List ℕ → PolyState
feed_padded fuel st [] = st
feed_padded zero st (b ∷ bs) = st
feed_padded (suc fuel) st (b ∷ bs) =
    let full = feed_padded fuel (poly1305_blocks st (take 16 (b ∷ bs)) false) (drop 16 (b ∷ bs)) in
    if leb 16 (length (b ∷ bs))
    then full
    else poly1305_blocks st ((b ∷ bs) ++ replicate (16 - length (b ∷ bs)) 0) false

unfoldable pub aead_poly1305_tag : List ℕ → List ℕ → List ℕ → List ℕ
aead_poly1305_tag otk aad ciphertext =
    let st0 = poly1305_init otk in
    let st1 = feed_padded (length aad) st0 aad in
    let st2 = feed_padded (length ciphertext) st1 ciphertext in
    let len_block = store64_le (length aad) ++ store64_le (length ciphertext) in
    poly1305_final (poly1305_blocks st2 len_block false)

-- The first 32 bytes of the block of counter 0.
unfoldable pub one_time_key : List ℕ → List ℕ → List ℕ
one_time_key key nonce = take 32 (chacha20_block key nonce 0)

-- The ciphertext and the tag.
unfoldable pub chacha20_poly1305_encrypt : List ℕ → List ℕ → List ℕ → List ℕ × List ℕ
chacha20_poly1305_encrypt key nonce plaintext =
    let ciphertext = chacha20_xor key nonce 1 plaintext in
    (ciphertext, aead_poly1305_tag (one_time_key key nonce) [] ciphertext)

-- `diff |= computed_tag[i] ^ tag[i]` over the bytes of the computed tag.
unfoldable pub tag_diff : List ℕ → List ℕ → ℕ
tag_diff [] tag = 0
tag_diff (c ∷ cs) [] = 0
tag_diff (c ∷ cs) (t ∷ ts) = bit_or (bit_xor c t) (tag_diff cs ts)

-- `none` is the -1 of a tag mismatch.
unfoldable pub chacha20_poly1305_decrypt : List ℕ → List ℕ → List ℕ → List ℕ → Option (List ℕ)
chacha20_poly1305_decrypt key nonce ciphertext tag =
    let computed_tag = aead_poly1305_tag (one_time_key key nonce) [] ciphertext in
    if tag_diff computed_tag tag == 0 then some (chacha20_xor key nonce 1 ciphertext) else none
