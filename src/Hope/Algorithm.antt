-- ===== src/Hope/Algorithm.antt =====
-- src/hotline/hope.c, the lists of names in the HOPE fields, the choice of the MAC algorithm and of
-- the cipher mode.
pub mod Listed
pub mod Spelling
pub mod Choice
pub mod Negotiation
mod Tests
use lemoniscate.Common.{
  ℕ, zero, suc, ◌+◌, ◌/◌, ◌%◌, ◌^◌, Bool, true, false, ◌&&◌, ◌||◌, not, leb, ltb, ◌==◌,
  if◌then◌else◌, bytes_eq, Option, none, some,
}
use lemoniscate.Common.{
  List, [], ◌∷◌, ◌++◌, map, take, drop, length, get_or, set, replicate, Outcome, ok, fail,
}
use lemoniscate.Hope.Mac.{MacAlg, hmac_sha256, hmac_sha1, sha1, hmac_md5, md5, inverse, is_inverse}
use lemoniscate.Wire.{read_u16, write_u16, list2}

-- tolower in the C locale, and strncasecmp on two strings of one length.
abbrev pub tolower : ℕ → ℕ
tolower c = if leb 65 c && leb c 90 then c + 32 else c

abbrev pub same_name : List ℕ → List ℕ → Bool
same_name a b = bytes_eq (map tolower a) (map tolower b)

abbrev pub mac_algs : List MacAlg
mac_algs = hmac_sha256 ∷ hmac_sha1 ∷ sha1 ∷ hmac_md5 ∷ md5 ∷ inverse ∷ []

-- "HMAC-SHA256", "HMAC-SHA1", "SHA1", "HMAC-MD5", "MD5", "INVERSE"
unfoldable pub mac_alg_name : MacAlg → List ℕ
mac_alg_name hmac_sha256 = 72 ∷ 77 ∷ 65 ∷ 67 ∷ 45 ∷ 83 ∷ 72 ∷ 65 ∷ 50 ∷ 53 ∷ 54 ∷ []
mac_alg_name hmac_sha1 = 72 ∷ 77 ∷ 65 ∷ 67 ∷ 45 ∷ 83 ∷ 72 ∷ 65 ∷ 49 ∷ []
mac_alg_name sha1 = 83 ∷ 72 ∷ 65 ∷ 49 ∷ []
mac_alg_name hmac_md5 = 72 ∷ 77 ∷ 65 ∷ 67 ∷ 45 ∷ 77 ∷ 68 ∷ 53 ∷ []
mac_alg_name md5 = 77 ∷ 68 ∷ 53 ∷ []
mac_alg_name inverse = 73 ∷ 78 ∷ 86 ∷ 69 ∷ 82 ∷ 83 ∷ 69 ∷ []

-- The first of the algorithms that has the name.
unfoldable pub parse_from : List MacAlg → List ℕ → Option MacAlg
parse_from [] name = none
parse_from (a ∷ as') name = if same_name (mac_alg_name a) name then some a else parse_from as' name

unfoldable pub parse_algorithm_name : List ℕ → Option MacAlg
parse_algorithm_name name = parse_from mac_algs name

unfoldable pub algorithm_allowed : MacAlg → Bool → Bool
algorithm_allowed alg true = true
algorithm_allowed hmac_sha256 false = true
algorithm_allowed hmac_sha1 false = true
algorithm_allowed hmac_md5 false = true
algorithm_allowed _ false = false

pub data CipherPolicy : Type 0 where
  prefer_aead require_aead rc4_only : CipherPolicy

-- "require-aead", "rc4-only"
unfoldable pub parse_cipher_policy : Option (List ℕ) → CipherPolicy
parse_cipher_policy none = prefer_aead
parse_cipher_policy (some str) =
    if same_name str (114 ∷ 101 ∷ 113 ∷ 117 ∷ 105 ∷ 114 ∷ 101 ∷ 45 ∷ 97 ∷ 101 ∷ 97 ∷ 100 ∷ [])
    then require_aead
    else if same_name str (114 ∷ 99 ∷ 52 ∷ 45 ∷ 111 ∷ 110 ∷ 108 ∷ 121 ∷ [])
    then rc4_only
    else prefer_aead

-- The loop over `<u8:len> <str:name>`: whether one of the names passes the test.
unfoldable pub any_name : (List ℕ → Bool) → ℕ → List ℕ → Bool
any_name test zero bytes = false
any_name test (suc c) [] = false
any_name test (suc c) (name_len ∷ bytes) =
    let rest = any_name test c (drop name_len bytes) in
    if ltb (length bytes) name_len then false else if test (take name_len bytes) then true else rest

-- "RC4", "RC4-128", "ARCFOUR"
unfoldable pub is_rc4 : List ℕ → Bool
is_rc4 name =
    same_name name (82 ∷ 67 ∷ 52 ∷ [])
    || (same_name name (82 ∷ 67 ∷ 52 ∷ 45 ∷ 49 ∷ 50 ∷ 56 ∷ [])
        || same_name name (65 ∷ 82 ∷ 67 ∷ 70 ∷ 79 ∷ 85 ∷ 82 ∷ []))

-- "CHACHA20-POLY1305", "CHACHA20POLY1305", "CHACHA20"
unfoldable pub is_chacha20 : List ℕ → Bool
is_chacha20 name =
    same_name name
      (67 ∷ 72 ∷ 65 ∷ 67 ∷ 72 ∷ 65 ∷ 50 ∷ 48 ∷ 45 ∷ 80 ∷ 79 ∷ 76 ∷ 89 ∷ 49 ∷ 51 ∷ 48 ∷ 53 ∷ [])
    || (same_name name
          (67 ∷ 72 ∷ 65 ∷ 67 ∷ 72 ∷ 65 ∷ 50 ∷ 48 ∷ 80 ∷ 79 ∷ 76 ∷ 89 ∷ 49 ∷ 51 ∷ 48 ∷ 53 ∷ [])
        || same_name name (67 ∷ 72 ∷ 65 ∷ 67 ∷ 72 ∷ 65 ∷ 50 ∷ 48 ∷ []))

-- A field that is absent, or has no room for the count, holds no name.
unfoldable pub field_contains : (List ℕ → Bool) → Option (List ℕ) → Bool
field_contains test (some (a ∷ b ∷ bytes)) = any_name test (read_u16 (a, b)) bytes
field_contains test _ = false

abbrev pub field_contains_rc4 : Option (List ℕ) → Bool
field_contains_rc4 f = field_contains is_rc4 f

abbrev pub field_contains_chacha20 : Option (List ℕ) → Bool
field_contains_chacha20 f = field_contains is_chacha20 f

abbrev pub mac_index : MacAlg → ℕ
mac_index hmac_sha256 = 0
mac_index hmac_sha1 = 1
mac_index sha1 = 2
mac_index hmac_md5 = 3
mac_index md5 = 4
mac_index inverse = 5

-- `if (idx >= 0) supported[idx] = 1;`, on the array as a function of the algorithm.
abbrev pub mark : Option MacAlg → (MacAlg → Bool) → MacAlg → Bool
mark none supported b = supported b
mark (some alg) supported b = if mac_index alg == mac_index b then true else supported b

-- The same loop, which notes the algorithms that it meets.
unfoldable pub supported_from : ℕ → List ℕ → (MacAlg → Bool) → MacAlg → Bool
supported_from zero bytes supported = supported
supported_from (suc c) [] supported = supported
supported_from (suc c) (name_len ∷ bytes) supported =
    let rest =
      supported_from c (drop name_len bytes)
        (mark (parse_algorithm_name (take name_len bytes)) supported) in
    if ltb (length bytes) name_len then supported else rest

abbrev pub fallback : Bool → Option MacAlg
fallback legacy_mode = if legacy_mode then some inverse else none

unfoldable pub first_allowed : List MacAlg → (MacAlg → Bool) → Bool → Option MacAlg
first_allowed [] supported legacy_mode = fallback legacy_mode
first_allowed (a ∷ as') supported legacy_mode =
    if supported a && algorithm_allowed a legacy_mode
    then some a
    else first_allowed as' supported legacy_mode

-- `none` is the -1 of strict mode.
unfoldable pub select_best_algorithm : List ℕ → Bool → Option MacAlg
select_best_algorithm (a ∷ b ∷ bytes) legacy_mode =
    first_allowed mac_algs (supported_from (read_u16 (a, b)) bytes (λ a. false)) legacy_mode
select_best_algorithm _ legacy_mode = fallback legacy_mode

unfoldable pub encode_cipher_selection : List ℕ → ℕ → Outcome (List ℕ)
encode_cipher_selection name buf_len =
    if ltb buf_len (2 + 1 + length name)
    then fail
    else ok (list2 (write_u16 1) ++ (length name % 256 ∷ name))

unfoldable pub encode_algorithm_selection : MacAlg → ℕ → Outcome (List ℕ)
encode_algorithm_selection alg buf_len = encode_cipher_selection (mac_alg_name alg) buf_len

pub data CipherMode : Type 0 where
  mode_none mode_rc4 mode_aead : CipherMode

-- The choice in hl_hope_build_negotiation_reply; `none` is its rejection of the client.
unfoldable pub choose_mode : CipherPolicy → Bool → Bool → Bool → Option CipherMode
choose_mode prefer_aead wants_rc4 wants_aead mac_supports_aead =
    if wants_aead && mac_supports_aead
    then some mode_aead
    else if wants_rc4 && mac_supports_aead
    then some mode_rc4
    else some mode_none
choose_mode require_aead wants_rc4 wants_aead mac_supports_aead =
    if wants_aead && mac_supports_aead then some mode_aead else none
choose_mode rc4_only wants_rc4 wants_aead mac_supports_aead =
    if wants_rc4 && mac_supports_aead then some mode_rc4 else some mode_none

-- The rest of the negotiation for the algorithm that was selected.
unfoldable pub settle :
    Option MacAlg → Option (List ℕ) → Option (List ℕ) → CipherPolicy → Option (MacAlg × CipherMode)
settle none f_ccip f_scip policy = none
settle (some alg) f_ccip f_scip policy =
    let wants_rc4 = field_contains_rc4 f_ccip || field_contains_rc4 f_scip in
    let wants_aead = field_contains_chacha20 f_ccip || field_contains_chacha20 f_scip in
    elim (choose_mode policy wants_rc4 wants_aead (not (is_inverse alg))) [
      | none ↦ none
      | some mode ↦ some (alg, mode)
    ]

-- The decisions of hl_hope_build_negotiation_reply, from the three fields of the probe: the
-- algorithm and the cipher mode that the server settles on, or its refusal.
unfoldable pub negotiate :
    Option (List ℕ)
    → Option (List ℕ)
    → Option (List ℕ)
    → Bool
    → CipherPolicy
    → Option (MacAlg × CipherMode)
negotiate none f_ccip f_scip legacy_mode policy = settle (fallback legacy_mode) f_ccip f_scip policy
negotiate (some f_mac) f_ccip f_scip legacy_mode policy =
    settle (select_best_algorithm f_mac legacy_mode) f_ccip f_scip policy
