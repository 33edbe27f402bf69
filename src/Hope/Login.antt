-- ===== src/Hope/Login.antt =====
-- src/hotline/hope.c, the verification of a login by MACs and the keys derived from the password.
pub mod Verify
mod Tests
use lemoniscate.Common.{
  ℕ, zero, suc, ◌+◌, Bool, true, false, ◌&&◌, ◌||◌, not, ltb, leb, ◌==◌, if◌then◌else◌, bytes_eq,
  Option, none, some,
}
use lemoniscate.Common.{
  List, [], ◌∷◌, ◌++◌, map, take, drop, length, Outcome, ok, fail, fault, ◌>>=◌, ◌>>◌, require,
  within,
}
use lemoniscate.Hope.Mac.{is_inverse, MacAlg, Hashes, inverse, mac_into, hkdf_sha256, hope_mac}
use lemoniscate.Hope.Algorithm.{tolower}
use lemoniscate.Hope.Rc4.{Rc4, rc4_init}
use lemoniscate.Hope.Stream.{Cipher}
use lemoniscate.Transaction.{Transaction, get_field}
use lemoniscate.Field.{Field}

-- The strings of an account that a login is checked against.
pub record Account : Type 0 where
  pub login : List ℕ
  pub password : List ℕ

-- `strncmp(pw, "sha1:", 5) == 0`
abbrev pub is_hashed : List ℕ → Bool
is_hashed pw = bytes_eq (take 5 pw) (115 ∷ 104 ∷ 97 ∷ 49 ∷ 58 ∷ [])

abbrev pub is_empty : List ℕ → Bool
is_empty [] = true
is_empty (x ∷ xs) = false

-- FIELD_USER_LOGIN of one byte 0.
unfoldable pub detect_probe : Transaction → Bool
detect_probe t = elim (get_field t.fields (0, 105)) [
  | none ↦ false
  | some f ↦ (f.data_len == 1) && bytes_eq (take 1 f.bytes) (0 ∷ [])
]

-- The labels of HKDF: "hope-chacha-" before "encode" and "decode", "hope-file-transfer", "hope-ft-ref".
abbrev pub hope_chacha : List ℕ
hope_chacha = 104 ∷ 111 ∷ 112 ∷ 101 ∷ 45 ∷ 99 ∷ 104 ∷ 97 ∷ 99 ∷ 104 ∷ 97 ∷ 45 ∷ []

abbrev pub hope_file_transfer : List ℕ
hope_file_transfer =
    104 ∷ 111 ∷ 112 ∷ 101 ∷ 45 ∷ 102 ∷ 105 ∷ 108 ∷ 101 ∷ 45 ∷ 116 ∷ 114 ∷ 97 ∷ 110 ∷ 115 ∷ 102 ∷ 101
    ∷ 114 ∷ []

abbrev pub hope_ft_ref : List ℕ
hope_ft_ref = 104 ∷ 111 ∷ 112 ∷ 101 ∷ 45 ∷ 102 ∷ 116 ∷ 45 ∷ 114 ∷ 101 ∷ 102 ∷ []

module _ (h : Hashes) (mac_alg : MacAlg) (session_key : List ℕ) where
  -- The account whose login has matched: 0 or the account.
  unfoldable pub check_password : Account → Option (List ℕ) → Outcome (Option Account)
  check_password a none = ok (if is_empty a.password then some a else none)
  check_password a (some []) = ok (if is_empty a.password then some a else none)
  check_password a (some (b ∷ bs)) = do
    mac ← mac_into h mac_alg session_key a.password
    ok (if bytes_eq mac (b ∷ bs) then some a else none)

  -- The loop over the accounts.
  unfoldable pub verify_accounts :
      List ℕ → Option (List ℕ) → List Account → Outcome (Option Account)
  verify_accounts f_login f_password [] = ok none
  verify_accounts f_login f_password (a ∷ accounts) =
      let rest = verify_accounts f_login f_password accounts in
      if is_hashed a.password then rest else (do
        mac ← mac_into h mac_alg session_key a.login
        if bytes_eq mac f_login then check_password a f_password else rest)

  unfoldable pub verify_login :
      Option (List ℕ) → Option (List ℕ) → List Account → Outcome (Option Account)
  verify_login none f_password accounts = ok none
  verify_login (some f_login) f_password accounts = verify_accounts f_login f_password accounts

  -- The two keys: the server's outbound one, and its inbound one.
  unfoldable pub transport_keys : List ℕ → Outcome (List ℕ × List ℕ)
  transport_keys password = do
    password_mac ← mac_into h mac_alg session_key password
    encode_key ← mac_into h mac_alg password_mac password
    decode_key ← mac_into h mac_alg encode_key password
    ok (encode_key, decode_key)

  abbrev pub cipher_of : List ℕ → Cipher
  cipher_of key = record { rc4 = rc4_init key; current_key = key }

  -- The ciphers of the two directions; `none` where they are cleared.
  unfoldable pub derive_keys : List ℕ → Outcome (Option (Cipher × Cipher))
  derive_keys password =
      if is_inverse mac_alg
      then ok none
      else (do keys ← transport_keys password; ok (some (cipher_of keys.0, cipher_of keys.1)))

  -- The keys of the AEAD: encode, decode and the base of the file transfers' keys.
  unfoldable pub aead_derive_keys : List ℕ → Outcome (List ℕ × List ℕ × List ℕ)
  aead_derive_keys password = do
    require (not (is_inverse mac_alg))
    keys ← transport_keys password
    let encode_key =
        hkdf_sha256 h keys.0 session_key (hope_chacha ++ (101 ∷ 110 ∷ 99 ∷ 111 ∷ 100 ∷ 101 ∷ [])) 32
    let decode_key =
        hkdf_sha256 h keys.1 session_key (hope_chacha ++ (100 ∷ 101 ∷ 99 ∷ 111 ∷ 100 ∷ 101 ∷ [])) 32
    ok (
      encode_key,
      decode_key,
      hkdf_sha256 h (encode_key ++ decode_key) session_key hope_file_transfer 32,
    )

  -- The key of one file transfer, from the base key where it is set.
  unfoldable pub aead_derive_transfer_key : Option (List ℕ) → List ℕ → Outcome (List ℕ)
  aead_derive_transfer_key none ref_num = fail
  aead_derive_transfer_key (some ft_base_key) ref_num =
      ok (hkdf_sha256 h ft_base_key ref_num hope_ft_ref 32)

-- What hl_client_is_encrypted reads of a connection with a HOPE state.
unfoldable pub client_is_encrypted : Option (Bool × Bool × MacAlg) → Bool → Bool → Bool → Bool
client_is_encrypted none require_aead require_tls is_tls = false
client_is_encrypted (some (active, aead_active, mac_alg)) require_aead require_tls is_tls =
    if not ((active || aead_active) && not (is_inverse mac_alg))
    then false
    else if require_aead && not aead_active
    then false
    else if require_tls && not is_tls
    then false
    else true

-- `strncasecmp(name, prefix, prefix_len) == 0`
unfoldable pub name_requires_encryption : List ℕ → List ℕ → Bool
name_requires_encryption name [] = false
name_requires_encryption name (c ∷ prefix) =
    if ltb (length name) (length (c ∷ prefix))
    then false
    else bytes_eq (map tolower (take (length (c ∷ prefix)) name)) (map tolower (c ∷ prefix))

-- `if (*rel == '/') rel++;`
unfoldable pub skip_one : List ℕ → List ℕ
skip_one [] = []
skip_one (c ∷ rel) = if c == 47 then rel else c ∷ rel

-- `strncmp(full_path, file_root, root_len) == 0` and the `/` after it.
unfoldable pub below_root : List ℕ → List ℕ → List ℕ
below_root full_path file_root =
    if bytes_eq (take (length file_root) full_path) file_root
    then skip_one (drop (length file_root) full_path)
    else full_path

-- The loop over the components; `component` is what has been read of the current one.
unfoldable pub any_component : List ℕ → List ℕ → List ℕ → Bool
any_component prefix component [] = name_requires_encryption component prefix
any_component prefix component (c ∷ rel) =
    let next = any_component prefix [] rel in
    let same = any_component prefix (component ++ c ∷ []) rel in
    if c == 47 then (if name_requires_encryption component prefix then true else next) else same

unfoldable pub path_requires_encryption : List ℕ → List ℕ → List ℕ → Bool
path_requires_encryption full_path file_root [] = false
path_requires_encryption full_path file_root (c ∷ prefix) =
    any_component (c ∷ prefix) [] (below_root full_path file_root)
