-- ===== src/Crypto/Aead/Tests.antt =====
-- A run of the AEAD on short inputs, and instances of the theorems.
use lemoniscate.Common.{ℕ, ◌≡◌, refl, arith, List, [], ◌∷◌, some}
use lemoniscate.Crypto.Poly.Limbs.{le_value}
use lemoniscate.Crypto.Aead.{
  aead_poly1305_tag, chacha20_poly1305_encrypt, chacha20_poly1305_decrypt,
}
use lemoniscate.Crypto.Aead.Tag.{rfc_tag, aead_poly1305_tag-rfc}
use lemoniscate.Crypto.Aead.Laws.{decrypt-encrypt, encrypt-decrypt}

abbrev key : List ℕ
key = 0 ∷ 1 ∷ 2 ∷ 3 ∷ 4 ∷ 5 ∷ 6 ∷ 7 ∷ []

abbrev nonce : List ℕ
nonce = 0 ∷ 0 ∷ 0 ∷ 9 ∷ []

abbrev hello : List ℕ
hello = 104 ∷ 101 ∷ 108 ∷ 108 ∷ 111 ∷ []

abbrev sealed : List ℕ × List ℕ
sealed = chacha20_poly1305_encrypt key nonce hello

aead_poly1305_tag-rfc_example :
    le_value 16 (aead_poly1305_tag key nonce hello) 0 ≡ rfc_tag key nonce hello
aead_poly1305_tag-rfc_example =
    aead_poly1305_tag-rfc key nonce hello
      (
        omega arith,
        (
          omega arith,
          (
            omega arith,
            (omega arith, (omega arith, (omega arith, (omega arith, (omega arith, tt))))),
          ),
        ),
      )
      (omega arith, (omega arith, (omega arith, (omega arith, tt))))
      (omega arith, (omega arith, (omega arith, (omega arith, (omega arith, tt))))) (omega arith)
      (omega arith)

decrypt-encrypt_example : chacha20_poly1305_decrypt key nonce sealed.0 sealed.1 ≡ some hello
decrypt-encrypt_example = decrypt-encrypt key nonce hello

encrypt-decrypt_example : chacha20_poly1305_encrypt key nonce hello ≡ (sealed.0, sealed.1)
unfolding chacha20_poly1305_encrypt aead_poly1305_tag lemoniscate.Crypto.Poly.poly1305_final
    lemoniscate.Crypto.Poly.add_pad
encrypt-decrypt_example =
    encrypt-decrypt key nonce sealed.0 sealed.1 hello refl (decrypt-encrypt key nonce hello)
