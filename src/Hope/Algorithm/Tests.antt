-- ===== src/Hope/Algorithm/Tests.antt =====
-- Runs of the choices on lists of names, and instances of the theorems.
use lemoniscate.Common.{ℕ, ◌≡◌, refl, true, false, none, some, List, [], ◌∷◌}
use lemoniscate.Hope.Mac.{hmac_sha1, inverse}
use lemoniscate.Hope.Algorithm.{
  algorithm_allowed, parse_cipher_policy, select_best_algorithm, negotiate, mac_algs, CipherPolicy,
  prefer_aead, require_aead, rc4_only, CipherMode, mode_aead, mode_rc4,
}
use lemoniscate.Hope.Algorithm.Choice.{
  strongest, acceptable, otherwise, offers, IsHmac, select_best_algorithm-strongest,
}
use lemoniscate.Hope.Algorithm.Negotiation.{meets, IsNamed, negotiate_lem}

-- "md5", "HMAC-SHA1"
abbrev two_macs : List ℕ
two_macs = 0 ∷ 2 ∷ 3 ∷ 109 ∷ 100 ∷ 53 ∷ 9 ∷ 72 ∷ 77 ∷ 65 ∷ 67 ∷ 45 ∷ 83 ∷ 72 ∷ 65 ∷ 49 ∷ []

-- "RC4", "chacha20"
abbrev two_ciphers : List ℕ
two_ciphers = 0 ∷ 2 ∷ 3 ∷ 82 ∷ 67 ∷ 52 ∷ 8 ∷ 99 ∷ 104 ∷ 97 ∷ 99 ∷ 104 ∷ 97 ∷ 50 ∷ 48 ∷ []

select_two : select_best_algorithm two_macs false ≡ some hmac_sha1
unfolding select_best_algorithm lemoniscate.Hope.Algorithm.first_allowed
    lemoniscate.Hope.Algorithm.supported_from lemoniscate.Wire.read_u16
    lemoniscate.Hope.Algorithm.parse_algorithm_name lemoniscate.Hope.Algorithm.parse_from
    lemoniscate.Hope.Algorithm.mac_alg_name algorithm_allowed
select_two = refl

select_inverse :
    select_best_algorithm (0 ∷ 1 ∷ 7 ∷ 73 ∷ 78 ∷ 86 ∷ 69 ∷ 82 ∷ 83 ∷ 69 ∷ []) false ≡ none
unfolding select_best_algorithm lemoniscate.Hope.Algorithm.first_allowed
    lemoniscate.Hope.Algorithm.supported_from lemoniscate.Wire.read_u16
    lemoniscate.Hope.Algorithm.parse_algorithm_name lemoniscate.Hope.Algorithm.parse_from
    lemoniscate.Hope.Algorithm.mac_alg_name algorithm_allowed
select_inverse = refl

cut_short : select_best_algorithm (0 ∷ 9 ∷ 40 ∷ 77 ∷ []) true ≡ some inverse
unfolding select_best_algorithm lemoniscate.Hope.Algorithm.first_allowed
    lemoniscate.Hope.Algorithm.supported_from lemoniscate.Wire.read_u16
cut_short = refl

policy_require :
    parse_cipher_policy
      (some (82 ∷ 101 ∷ 113 ∷ 117 ∷ 105 ∷ 114 ∷ 101 ∷ 45 ∷ 65 ∷ 69 ∷ 65 ∷ 68 ∷ []))
    ≡ require_aead
unfolding parse_cipher_policy
policy_require = refl

negotiate_aead :
    negotiate (some two_macs) (some two_ciphers) none false prefer_aead
    ≡ some (hmac_sha1, mode_aead)
unfolding negotiate lemoniscate.Hope.Algorithm.settle select_best_algorithm
    lemoniscate.Hope.Algorithm.first_allowed lemoniscate.Hope.Algorithm.supported_from
    lemoniscate.Wire.read_u16 lemoniscate.Hope.Algorithm.parse_algorithm_name
    lemoniscate.Hope.Algorithm.parse_from lemoniscate.Hope.Algorithm.mac_alg_name algorithm_allowed
    lemoniscate.Hope.Algorithm.choose_mode lemoniscate.Hope.Algorithm.field_contains
    lemoniscate.Hope.Algorithm.any_name lemoniscate.Hope.Algorithm.is_chacha20
negotiate_aead = refl

negotiate_rc4 :
    negotiate (some two_macs) none (some two_ciphers) false rc4_only ≡ some (hmac_sha1, mode_rc4)
unfolding negotiate lemoniscate.Hope.Algorithm.settle select_best_algorithm
    lemoniscate.Hope.Algorithm.first_allowed lemoniscate.Hope.Algorithm.supported_from
    lemoniscate.Wire.read_u16 lemoniscate.Hope.Algorithm.parse_algorithm_name
    lemoniscate.Hope.Algorithm.parse_from lemoniscate.Hope.Algorithm.mac_alg_name algorithm_allowed
    lemoniscate.Hope.Algorithm.choose_mode lemoniscate.Hope.Algorithm.field_contains
    lemoniscate.Hope.Algorithm.any_name lemoniscate.Hope.Algorithm.is_rc4
negotiate_rc4 = refl

select_best_algorithm-strongest_example :
    select_best_algorithm two_macs true
    ≡ strongest (acceptable true) (offers two_macs) (otherwise true)
select_best_algorithm-strongest_example = select_best_algorithm-strongest two_macs true

negotiate_lem_example :
    IsHmac hmac_sha1
    × (meets require_aead mode_aead ≡ true)
    × IsNamed (some two_ciphers) none mode_aead
unfolding negotiate lemoniscate.Hope.Algorithm.settle select_best_algorithm
    lemoniscate.Hope.Algorithm.first_allowed lemoniscate.Hope.Algorithm.supported_from
    lemoniscate.Wire.read_u16 lemoniscate.Hope.Algorithm.parse_algorithm_name
    lemoniscate.Hope.Algorithm.parse_from lemoniscate.Hope.Algorithm.mac_alg_name algorithm_allowed
    lemoniscate.Hope.Algorithm.choose_mode lemoniscate.Hope.Algorithm.field_contains
    lemoniscate.Hope.Algorithm.any_name lemoniscate.Hope.Algorithm.is_chacha20
negotiate_lem_example =
    negotiate_lem (some two_macs) (some two_ciphers) none require_aead hmac_sha1 mode_aead refl
