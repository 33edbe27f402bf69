-- ===== src/Hope/Stream/Tests.antt =====
-- The RC4 transport on a short transaction, with stand-ins for the hash functions, and instances of
-- the theorems.
use lemoniscate.Common.{ℕ, ◌≡◌, refl, List, [], ◌∷◌, ◌++◌, length, replicate, take, drop}
use lemoniscate.Hope.Rc4.{Rc4, rc4_init}
use lemoniscate.Hope.Mac.{Hashes, hmac_sha1}
use lemoniscate.Hope.Stream.{Inbound, phase_header, switch, decrypt_rest, encrypt_transaction}
use lemoniscate.Hope.Stream.Pieces.{decrypt_rest-append}
use lemoniscate.Hope.Stream.Rounds.{in_two}
use lemoniscate.Hope.Stream.Fuel.{decrypt_rest-step}
use lemoniscate.Hope.Stream.Stale.{view, inbound}
use lemoniscate.Hope.Stream.RoundTrip.{decrypt_rest-encrypt_transaction}

abbrev tables : Hashes
tables = record {
  hash_sha256 = λ m. replicate 32 (length m);
  hash_sha1 = λ m. replicate 20 (length m);
  hash_md5 = λ m. replicate 16 (length m);
}

abbrev session_key : List ℕ
session_key = replicate 64 7

abbrev shared : Rc4
shared = rc4_init (1 ∷ 2 ∷ 3 ∷ [])

abbrev fresh : Inbound
fresh = inbound (record { rc4 = shared; current_key = 1 ∷ 2 ∷ 3 ∷ [] }) phase_header 0 0 0

abbrev header : List ℕ
header = 0 ∷ 0 ∷ 0 ∷ 105 ∷ 0 ∷ 0 ∷ 0 ∷ 1 ∷ 0 ∷ 0 ∷ 0 ∷ 0 ∷ 0 ∷ 0 ∷ 0 ∷ 5 ∷ 0 ∷ 0 ∷ 0 ∷ 5 ∷ []

abbrev body : List ℕ
body = 104 ∷ 101 ∷ 108 ∷ 108 ∷ 111 ∷ []

abbrev wire : List ℕ
wire = (encrypt_transaction shared (header ++ body)).1

decrypt_rest-append_example :
    view (decrypt_rest tables hmac_sha1 session_key fresh (take 23 wire ++ drop 23 wire))
    ≡ view (in_two tables hmac_sha1 session_key fresh (take 23 wire) (drop 23 wire))
decrypt_rest-append_example =
    decrypt_rest-append tables hmac_sha1 session_key fresh (take 23 wire) (drop 23 wire)

decrypt_rest-encrypt_transaction_example :
    (s : ℕ) × (decrypt_rest tables hmac_sha1 session_key fresh wire ≡ (
      inbound
          (record {
            rc4 = (encrypt_transaction shared (header ++ body)).0;
            current_key = 1 ∷ 2 ∷ 3 ∷ [];
          })
          phase_header
          (length body)
          s
          0,
      header ++ body,
      [],
    ))
unfolding lemoniscate.Wire.read_u32
decrypt_rest-encrypt_transaction_example =
    decrypt_rest-encrypt_transaction tables hmac_sha1 session_key (1 ∷ 2 ∷ 3 ∷ []) shared 0 0 0
      header body refl refl refl

decrypt_rest-step_example :
    decrypt_rest tables hmac_sha1 session_key fresh (1 ∷ header)
    ≡ switch tables hmac_sha1 session_key phase_header
        (decrypt_rest tables hmac_sha1 session_key)
        fresh
        (1 ∷ header)
decrypt_rest-step_example = decrypt_rest-step tables hmac_sha1 session_key fresh 1 header
