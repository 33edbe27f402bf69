-- ===== src/Hope/Mac.antt =====
-- src/hotline/hope.c, the MACs on the platform's hash functions, and HKDF.
use lemoniscate.Common.{
  ap, ℕ, suc, ◌-◌, ◌≤◌, ◌≡◌, refl, arith, Bool, true, false, leb, ltb, ◌==◌, if◌then◌else◌,
}
use lemoniscate.Common.{
  List, [], ◌∷◌, ◌++◌, map, take, length, replicate, Outcome, ok, ◌>>◌, within,
}
use Prim.Native.Nat.{bit_xor}

pub data MacAlg : Type 0 where
  hmac_sha256 hmac_sha1 sha1 hmac_md5 md5 inverse : MacAlg

-- The hash functions of the platform, each on the whole of the data that the updates give it.
pub record Hashes : Type 0 where
  pub hash_sha256 : List ℕ → List ℕ
  pub hash_sha1 : List ℕ → List ℕ
  pub hash_md5 : List ℕ → List ℕ

-- Their documented digest lengths.
pub record IsPlatform (h : Hashes) : Type 0 where
  pub sha256_digest : (m : List ℕ) → length (h.hash_sha256 m) ≡ 32
  pub sha1_digest : (m : List ℕ) → length (h.hash_sha1 m) ≡ 20
  pub md5_digest : (m : List ℕ) → length (h.hash_md5 m) ≡ 16

-- `k_prime`: the key, or its hash where it is longer than a block, filled with zeros to 64 bytes.
unfoldable pub block_key : (List ℕ → List ℕ) → List ℕ → List ℕ
block_key hash key =
    let k = if ltb 64 (length key) then hash key else key in k ++ replicate (64 - length k) 0

abbrev pub padded : ℕ → List ℕ → List ℕ
padded byte k = map (λ b. bit_xor b byte) k

-- hmac_sha256, hmac_sha1 and hmac_md5, which differ in the hash function only.
unfoldable pub hmac : (List ℕ → List ℕ) → List ℕ → List ℕ → List ℕ
hmac hash key msg =
    let k_prime = block_key hash key in
    let inner_hash = hash (padded 0x36 k_prime ++ msg) in hash (padded 0x5c k_prime ++ inner_hash)

-- `(uint8_t)(~b)`
abbrev pub invert : ℕ → ℕ
invert b = 255 - b

-- `out`, of length `*out_len`.
unfoldable pub hope_mac : Hashes → MacAlg → List ℕ → List ℕ → List ℕ
hope_mac h hmac_sha256 msg key = hmac h.hash_sha256 key msg
hope_mac h hmac_sha1 msg key = hmac h.hash_sha1 key msg
hope_mac h sha1 msg key = h.hash_sha1 (key ++ msg)
hope_mac h hmac_md5 msg key = hmac h.hash_md5 key msg
hope_mac h md5 msg key = h.hash_md5 (key ++ msg)
hope_mac h inverse msg key = map invert key

-- The same into a buffer of 64 bytes, as every caller passes.
unfoldable pub mac_into : Hashes → MacAlg → List ℕ → List ℕ → Outcome (List ℕ)
mac_into h alg msg key = do
  within (leb (length (hope_mac h alg msg key)) 64)
  ok (hope_mac h alg msg key)

unfoldable pub hkdf_sha256 : Hashes → List ℕ → List ℕ → List ℕ → ℕ → List ℕ
hkdf_sha256 h ikm salt info out_len =
    let salt' = if length salt == 0 then replicate 32 0 else salt in
    let prk = hmac h.hash_sha256 salt' ikm in
    let t1 = hmac h.hash_sha256 prk (take 256 info ++ 1 ∷ []) in
    take (if ltb out_len 32 then out_len else 32) t1

pub length-invert : (k : List ℕ) → length (map invert k) ≡ length k
length-invert [] = refl
length-invert (x ∷ k) = ap suc (length-invert k)

abbrev pub is_inverse : MacAlg → Bool
is_inverse inverse = true
is_inverse _ = false

-- A digest fits a buffer of 64 bytes, however long the key.
pub hope_mac-digest :
    (h : Hashes) (alg : MacAlg) (msg key : List ℕ)
    → IsPlatform h
    → is_inverse alg ≡ false
    → length (hope_mac h alg msg key) ≤ 64
unfolding hope_mac hmac
hope_mac-digest h hmac_sha256 msg key p e = omega (
  arith,
  p.sha256_digest (
      padded 0x5c (block_key h.hash_sha256 key)
      ++ h.hash_sha256 (padded 0x36 (block_key h.hash_sha256 key) ++ msg)),
)
hope_mac-digest h hmac_sha1 msg key p e = omega (
  arith,
  p.sha1_digest (
      padded 0x5c (block_key h.hash_sha1 key)
      ++ h.hash_sha1 (padded 0x36 (block_key h.hash_sha1 key) ++ msg)),
)
hope_mac-digest h sha1 msg key p e = omega (arith, p.sha1_digest (key ++ msg))
hope_mac-digest h hmac_md5 msg key p e = omega (
  arith,
  p.md5_digest (
      padded 0x5c (block_key h.hash_md5 key)
      ++ h.hash_md5 (padded 0x36 (block_key h.hash_md5 key) ++ msg)),
)
hope_mac-digest h md5 msg key p e = omega (arith, p.md5_digest (key ++ msg))
hope_mac-digest h inverse msg key p e = absurd cc
