-- ===== src/Hope/Login/Tests.antt =====
-- Logins, with stand-ins for the hash functions, and instances of the theorems.
use lemoniscate.Common.{
  ℕ, ◌≡◌, ◌≢◌, refl, arith, true, false, List, [], ◌∷◌, length, replicate, length-replicate,
  get_elem?, none, some, ok, fault,
}
use lemoniscate.Hope.Mac.{Hashes, IsPlatform, hmac_sha1, inverse, invert}
use lemoniscate.Hope.Login.{
  Account, verify_login, client_is_encrypted, name_requires_encryption, path_requires_encryption,
}
use lemoniscate.Hope.Login.Verify.{
  Proves, verify_login-Proves, verify_login-ne-fault, verify_login-overrun,
}

abbrev tables : Hashes
tables = record {
  hash_sha256 = λ m. replicate 32 (length m);
  hash_sha1 = λ m. replicate 20 (length m);
  hash_md5 = λ m. replicate 16 (length m);
}

tables-IsPlatform : IsPlatform tables
tables-IsPlatform = record {
  sha256_digest = λ m. length-replicate 32 (length m);
  sha1_digest = λ m. length-replicate 20 (length m);
  md5_digest = λ m. length-replicate 16 (length m);
}

abbrev session_key : List ℕ
session_key = replicate 64 7

-- "ann" with the password "pw".
abbrev ann : Account
ann = record { login = 97 ∷ 110 ∷ 110 ∷ []; password = 112 ∷ 119 ∷ [] }

abbrev hashed : Account
hashed = record { login = 97 ∷ 110 ∷ 110 ∷ []; password = 115 ∷ 104 ∷ 97 ∷ 49 ∷ 58 ∷ 48 ∷ [] }

-- The bytes of "ann" and of "pw", inverted.
abbrev ann_mac : List ℕ
ann_mac = 158 ∷ 145 ∷ 145 ∷ []

abbrev pw_mac : List ℕ
pw_mac = 143 ∷ 136 ∷ []

let_in :
    verify_login tables inverse session_key (some ann_mac) (some pw_mac) (hashed ∷ ann ∷ [])
    ≡ ok (some ann)
unfolding verify_login lemoniscate.Hope.Login.verify_accounts lemoniscate.Hope.Mac.mac_into
    lemoniscate.Hope.Mac.hope_mac lemoniscate.Hope.Login.check_password
let_in = refl

wrong_password :
    verify_login tables inverse session_key (some ann_mac) (some (1 ∷ 2 ∷ [])) (hashed ∷ ann ∷ [])
    ≡ ok none
unfolding verify_login lemoniscate.Hope.Login.verify_accounts lemoniscate.Hope.Mac.mac_into
    lemoniscate.Hope.Mac.hope_mac lemoniscate.Hope.Login.check_password
wrong_password = refl

inverse_is_plain : client_is_encrypted (some (true, true, inverse)) false false true ≡ false
unfolding client_is_encrypted
inverse_is_plain = refl

tls_required : client_is_encrypted (some (false, true, hmac_sha1)) true true false ≡ false
unfolding client_is_encrypted
tls_required = refl

-- "/srv/Secure/a" below "/srv", for the prefix "secu".
path_secure :
    path_requires_encryption
      (47 ∷ 115 ∷ 114 ∷ 118 ∷ 47 ∷ 83 ∷ 101 ∷ 99 ∷ 117 ∷ 114 ∷ 101 ∷ 47 ∷ 97 ∷ [])
      (47 ∷ 115 ∷ 114 ∷ 118 ∷ [])
      (115 ∷ 101 ∷ 99 ∷ 117 ∷ [])
    ≡ true
unfolding path_requires_encryption lemoniscate.Hope.Login.any_component
    lemoniscate.Hope.Login.below_root lemoniscate.Hope.Login.skip_one name_requires_encryption
path_secure = refl

verify_login-Proves_example :
    (i : ℕ) × (get_elem? (hashed ∷ ann ∷ []) i ≡ some ann)
    × Proves tables inverse session_key ann ann_mac (some pw_mac)
verify_login-Proves_example =
    verify_login-Proves tables inverse session_key ann_mac (some pw_mac) (hashed ∷ ann ∷ []) ann
      let_in

verify_login-ne-fault_example :
    verify_login tables hmac_sha1 session_key (some ann_mac) none (ann ∷ []) ≢ fault
verify_login-ne-fault_example =
    verify_login-ne-fault tables hmac_sha1 session_key (some ann_mac) none (ann ∷ [])
      tables-IsPlatform refl

abbrev long_login : Account
long_login = record { login = replicate 65 97; password = [] }

verify_login-overrun_example :
    verify_login tables inverse session_key (some []) none (long_login ∷ []) ≡ fault
verify_login-overrun_example =
    verify_login-overrun tables session_key [] none long_login [] refl (omega arith)
