-- ===== src/Crypto/Aead/Laws.antt =====
-- Encryption and decryption of the AEAD, one after the other.
use lemoniscate.Common.{
  ℕ, ◌≡◌, refl, ap, ap₂, sym, ◌∙◌, arith, none, some, ◌==◌, ==→eq, Bool-cases, inl, inr,
  if◌then◌else◌, List, [], ◌∷◌, length,
}
use lemoniscate.Common.Xor.{bit_xor_self, eq_of_xor, le_bit_or, bit_or_comm}
use lemoniscate.Crypto.ChaCha.{chacha20_xor}
use lemoniscate.Crypto.ChaCha.Stream.{chacha20_xor-chacha20_xor, length-chacha20_xor}
use lemoniscate.Crypto.Poly.{poly1305_final, add_pad}
use lemoniscate.Crypto.Aead.{
  aead_poly1305_tag, one_time_key, chacha20_poly1305_encrypt, chacha20_poly1305_decrypt, tag_diff,
}
use mathlib.Core.Option.{some-injective, none-ne-some}
use Prim.Native.Nat.{bit_or, bit_xor}

tag_diff_self : (t : List ℕ) → tag_diff t t ≡ 0
unfolding tag_diff
tag_diff_self [] = refl
tag_diff_self (x ∷ t) = ap₂ bit_or (bit_xor_self x) (tag_diff_self t)

eq_of_diff : (c t : List ℕ) → length c ≡ length t → tag_diff c t ≡ 0 → c ≡ t
unfolding tag_diff
eq_of_diff [] [] e d = refl
eq_of_diff [] (x ∷ t) e d = absurd (omega arith)
eq_of_diff (x ∷ c) [] e d = absurd (omega arith)
eq_of_diff (x ∷ c) (y ∷ t) e d =
    ap₂ (λ b l. b ∷ l) (eq_of_xor x y (omega (arith, le_bit_or (bit_xor x y) (tag_diff c t))))
      (eq_of_diff c t (omega arith) (
        omega (
          arith,
          le_bit_or (tag_diff c t) (bit_xor x y),
          bit_or_comm (tag_diff c t) (bit_xor x y),
        )))

pub length-aead_poly1305_tag :
    (otk aad ciphertext : List ℕ) → length (aead_poly1305_tag otk aad ciphertext) ≡ 16
unfolding aead_poly1305_tag poly1305_final add_pad
length-aead_poly1305_tag otk aad ciphertext = refl

module _ (key nonce : List ℕ) where
  -- What encrypt gives, ciphertext and tag, decrypt takes back to the plaintext, for every key,
  -- nonce and length.
  pub decrypt-encrypt :
      (plaintext : List ℕ)
      → chacha20_poly1305_decrypt key nonce
          (chacha20_poly1305_encrypt key nonce plaintext).0
          (chacha20_poly1305_encrypt key nonce plaintext).1
        ≡ some plaintext
  unfolding chacha20_poly1305_decrypt chacha20_poly1305_encrypt
  decrypt-encrypt plaintext =
      let ciphertext = chacha20_xor key nonce 1 plaintext in
      ap (λ d. if d == 0 then some (chacha20_xor key nonce 1 ciphertext) else none)
        (tag_diff_self (aead_poly1305_tag (one_time_key key nonce) [] ciphertext))
      ∙ ap some (chacha20_xor-chacha20_xor key nonce 1 plaintext)

  -- Decrypt accepts nothing else: if it returns a plaintext for a ciphertext and a tag of 16 bytes,
  -- then encrypt of that plaintext under the same key and nonce is exactly this ciphertext and tag.
  pub encrypt-decrypt :
      (ciphertext tag plaintext : List ℕ)
      → length tag ≡ 16
      → chacha20_poly1305_decrypt key nonce ciphertext tag ≡ some plaintext
      → chacha20_poly1305_encrypt key nonce plaintext ≡ (ciphertext, tag)
  unfolding chacha20_poly1305_decrypt chacha20_poly1305_encrypt
  encrypt-decrypt ciphertext tag plaintext l h =
      let computed_tag = aead_poly1305_tag (one_time_key key nonce) [] ciphertext in
      elim (Bool-cases (tag_diff computed_tag tag == 0)) [
        | inl e ↦
            let back : chacha20_xor key nonce 1 plaintext ≡ ciphertext =
              ap (chacha20_xor key nonce 1) (sym (some-injective _ _ (rw e at h)))
              ∙ chacha20_xor-chacha20_xor key nonce 1 ciphertext in
            ap (λ c. (c, aead_poly1305_tag (one_time_key key nonce) [] c)) back
            ∙ ap (λ t. (ciphertext, t))
                (eq_of_diff computed_tag tag
                  (length-aead_poly1305_tag (one_time_key key nonce) [] ciphertext ∙ sym l)
                  (==→eq (tag_diff computed_tag tag) 0 e))
        | inr e ↦ absurd (none-ne-some _ (rw e at h))
      ]

  pub length-encrypt :
      (plaintext : List ℕ)
      → (length (chacha20_poly1305_encrypt key nonce plaintext).0 ≡ length plaintext)
        × (length (chacha20_poly1305_encrypt key nonce plaintext).1 ≡ 16)
  unfolding chacha20_poly1305_encrypt
  length-encrypt plaintext = (
    length-chacha20_xor key nonce 1 plaintext,
    length-aead_poly1305_tag (one_time_key key nonce) [] (chacha20_xor key nonce 1 plaintext),
  )
