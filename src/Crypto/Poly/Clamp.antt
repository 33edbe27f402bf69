-- ===== src/Crypto/Poly/Clamp.antt =====
-- poly1305_init: the clamped r and the pad, as numbers.
use lemoniscate.Common.{ℕ, ◌+◌, ◌*◌, ◌/◌, ◌%◌, ◌^◌, ◌<◌, ◌≡◌, refl, ap, ap₂, ◌∙◌, arith, List, All}
use lemoniscate.Common.Xor.{bit_and_fields, bit_and_le}
use lemoniscate.Common.Bits.{bit_and_zero}
use lemoniscate.Wire.{IsByte}
use lemoniscate.Crypto.ChaCha.{load32_le}
use lemoniscate.Crypto.Poly.{Limbs, poly1305_init}
use lemoniscate.Crypto.Poly.Bounds.{value, IsNarrow, IsReduced}
use lemoniscate.Crypto.Poly.Limbs.{le_value, low_or_high, load32_le-value, get_or-IsByte}
use lemoniscate.Crypto.Poly.Final.{words_value, AreWords}
use Prim.Native.Nat.{bit_or, bit_and}

-- The mask of RFC 8439, section 2.5.
abbrev pub clamp_mask : ℕ
clamp_mask = 0x0ffffffc0ffffffc0ffffffc0fffffff

mask_26 : (x m : ℕ) → m < 2 ^ 26 → bit_and x m ≡ bit_and (x % 2 ^ 26) m
mask_26 x m h =
    ap₂ bit_and (let e : x ≡ x / 2 ^ 26 * 2 ^ 26 + x % 2 ^ 26 = omega arith in e)
      (let e : m ≡ 0 * 2 ^ 26 + m = omega arith in e)
    ∙ omega (
      arith,
      bit_and_fields 26 (x / 2 ^ 26) (x % 2 ^ 26) 0 m (omega arith) h,
      bit_and_zero (x / 2 ^ 26),
    )

-- A mask of the five limbs is a mask of the number.
mask_limbs :
    (f0 f1 f2 f3 f4 m0 m1 m2 m3 m4 : ℕ)
    → IsNarrow (f0, f1, f2, f3, f4)
    → IsNarrow (m0, m1, m2, m3, m4)
    → value (bit_and f0 m0, bit_and f1 m1, bit_and f2 m2, bit_and f3 m3, bit_and f4 m4)
      ≡ bit_and (value (f0, f1, f2, f3, f4)) (value (m0, m1, m2, m3, m4))
mask_limbs f0 f1 f2 f3 f4 m0 m1 m2 m3 m4 (a0, a1, a2, a3, a4) (b0, b1, b2, b3, b4) =
    let f34 = f4 * 2 ^ 26 + f3 in
    let m34 = m4 * 2 ^ 26 + m3 in
    let f24 = f34 * 2 ^ 26 + f2 in
    let m24 = m34 * 2 ^ 26 + m2 in
    let f14 = f24 * 2 ^ 26 + f1 in
    let m14 = m24 * 2 ^ 26 + m1 in
    omega (
      arith,
      ap₂ bit_and (let e : value (f0, f1, f2, f3, f4) ≡ f14 * 2 ^ 26 + f0 = omega arith in e)
          (let e : value (m0, m1, m2, m3, m4) ≡ m14 * 2 ^ 26 + m0 = omega arith in e),
      bit_and_fields 26 f4 f3 m4 m3 a3 b3,
      bit_and_fields 26 f34 f2 m34 m2 a2 b2,
      bit_and_fields 26 f24 f1 m24 m1 a1 b1,
      bit_and_fields 26 f14 f0 m14 m0 a0 b0,
    )

field : (x f m : ℕ) → m < 2 ^ 26 → x % 2 ^ 26 ≡ f → bit_and x m ≡ bit_and f m
field x f m h e = mask_26 x m h ∙ ap (λ (t : ℕ). bit_and t m) e

module _ (t0 t1 t2 t3 : ℕ) (w0 : t0 < 2 ^ 32) (w1 : t1 < 2 ^ 32) (w2 : t2 < 2 ^ 32)
    (w3 : t3 < 2 ^ 32) where
  clamped : Limbs
  clamped = (
    bit_and t0 0x3ffffff,
    bit_and (bit_or (t0 / 2 ^ 26) (t1 * 2 ^ 6 % 2 ^ 32)) 0x3ffff03,
    bit_and (bit_or (t1 / 2 ^ 20) (t2 * 2 ^ 12 % 2 ^ 32)) 0x3ffc0ff,
    bit_and (bit_or (t2 / 2 ^ 14) (t3 * 2 ^ 18 % 2 ^ 32)) 0x3f03fff,
    bit_and (t3 / 2 ^ 8) 0x00fffff,
  )

  joined1 : bit_or (t0 / 2 ^ 26) (t1 * 2 ^ 6 % 2 ^ 32) % 2 ^ 26 ≡ t0 / 2 ^ 26 + t1 % 2 ^ 20 * 2 ^ 6
  joined1 = omega (
    arith,
    ap (bit_or (t0 / 2 ^ 26))
        (let e : t1 * 2 ^ 6 % 2 ^ 32 ≡ t1 % 2 ^ 26 * 2 ^ 6 = omega arith in e),
    low_or_high 6 (t0 / 2 ^ 26) (t1 % 2 ^ 26) (omega arith),
  )

  joined2 :
      bit_or (t1 / 2 ^ 20) (t2 * 2 ^ 12 % 2 ^ 32) % 2 ^ 26 ≡ t1 / 2 ^ 20 + t2 % 2 ^ 14 * 2 ^ 12
  joined2 = omega (
    arith,
    ap (bit_or (t1 / 2 ^ 20))
        (let e : t2 * 2 ^ 12 % 2 ^ 32 ≡ t2 % 2 ^ 20 * 2 ^ 12 = omega arith in e),
    low_or_high 12 (t1 / 2 ^ 20) (t2 % 2 ^ 20) (omega arith),
  )

  joined3 : bit_or (t2 / 2 ^ 14) (t3 * 2 ^ 18 % 2 ^ 32) % 2 ^ 26 ≡ t2 / 2 ^ 14 + t3 % 2 ^ 8 * 2 ^ 18
  joined3 = omega (
    arith,
    ap (bit_or (t2 / 2 ^ 14))
        (let e : t3 * 2 ^ 18 % 2 ^ 32 ≡ t3 % 2 ^ 14 * 2 ^ 18 = omega arith in e),
    low_or_high 18 (t2 / 2 ^ 14) (t3 % 2 ^ 14) (omega arith),
  )

  clamped-value : value clamped ≡ bit_and (words_value (t0, t1, t2, t3)) clamp_mask
  unfolding clamped
  clamped-value =
      let f1 = t0 / 2 ^ 26 + t1 % 2 ^ 20 * 2 ^ 6 in
      let f2 = t1 / 2 ^ 20 + t2 % 2 ^ 14 * 2 ^ 12 in
      let f3 = t2 / 2 ^ 14 + t3 % 2 ^ 8 * 2 ^ 18 in
      omega (
        arith,
        field t0 (t0 % 2 ^ 26) 0x3ffffff (omega arith) refl,
        field (bit_or (t0 / 2 ^ 26) (t1 * 2 ^ 6 % 2 ^ 32)) f1 0x3ffff03 (omega arith) joined1,
        field (bit_or (t1 / 2 ^ 20) (t2 * 2 ^ 12 % 2 ^ 32)) f2 0x3ffc0ff (omega arith) joined2,
        field (bit_or (t2 / 2 ^ 14) (t3 * 2 ^ 18 % 2 ^ 32)) f3 0x3f03fff (omega arith) joined3,
        mask_limbs (t0 % 2 ^ 26) f1 f2 f3 (t3 / 2 ^ 8) 0x3ffffff 0x3ffff03 0x3ffc0ff 0x3f03fff
            0x00fffff (omega arith, omega arith, omega arith, omega arith, omega arith)
            (omega arith, omega arith, omega arith, omega arith, omega arith),
        ap (λ (t : ℕ). bit_and t clamp_mask)
            (let e : value (t0 % 2 ^ 26, f1, f2, f3, t3 / 2 ^ 8) ≡ words_value (t0, t1, t2, t3) =
                omega arith in
              e),
      )

  clamped-IsNarrow : IsNarrow clamped
  unfolding clamped
  clamped-IsNarrow = (
    omega (arith, bit_and_le t0 0x3ffffff),
    omega (arith, bit_and_le (bit_or (t0 / 2 ^ 26) (t1 * 2 ^ 6 % 2 ^ 32)) 0x3ffff03),
    omega (arith, bit_and_le (bit_or (t1 / 2 ^ 20) (t2 * 2 ^ 12 % 2 ^ 32)) 0x3ffc0ff),
    omega (arith, bit_and_le (bit_or (t2 / 2 ^ 14) (t3 * 2 ^ 18 % 2 ^ 32)) 0x3f03fff),
    omega (arith, bit_and_le (t3 / 2 ^ 8) 0x00fffff),
  )

module _ (key : List ℕ) (kb : All IsByte key) where
  word : (off : ℕ) → load32_le key off < 2 ^ 32
  word off =
      let b = get_or-IsByte key kb in
      omega (
        arith,
        load32_le-value key off kb,
        b off,
        b (off + 1),
        b (off + 1 + 1),
        b (off + 1 + 1 + 1),
      )

  -- The five masks together are the one of RFC 8439 on the first half of the key.
  pub poly1305_init-value : value (poly1305_init key).r ≡ bit_and (le_value 16 key 0) clamp_mask
  unfolding poly1305_init clamped
  poly1305_init-value =
      clamped-value (load32_le key 0) (load32_le key 4) (load32_le key 8) (load32_le key 12)
        (word 0) (word 4) (word 8) (word 12)
      ∙ ap (λ (t : ℕ). bit_and t clamp_mask)
          (omega (
            arith,
            load32_le-value key 0 kb,
            load32_le-value key 4 kb,
            load32_le-value key 8 kb,
            load32_le-value key 12 kb,
          ))

  pub poly1305_init-IsNarrow : IsNarrow (poly1305_init key).r
  unfolding poly1305_init clamped
  poly1305_init-IsNarrow =
      clamped-IsNarrow (load32_le key 0) (load32_le key 4) (load32_le key 8) (load32_le key 12)
        (word 0) (word 4) (word 8) (word 12)

  pub poly1305_init-IsReduced : IsReduced (poly1305_init key).h
  unfolding poly1305_init
  poly1305_init-IsReduced = (omega arith, omega arith, omega arith, omega arith, omega arith)

  pub poly1305_init-pad :
      AreWords (poly1305_init key).pad × (words_value (poly1305_init key).pad ≡ le_value 16 key 16)
  unfolding poly1305_init
  poly1305_init-pad = (
    (word 16, word 20, word 24, word 28),
    omega (
      arith,
      load32_le-value key 16 kb,
      load32_le-value key 20 kb,
      load32_le-value key 24 kb,
      load32_le-value key 28 kb,
    ),
  )

pub poly1305_init-zero : (key : List ℕ) → value (poly1305_init key).h ≡ 0
unfolding poly1305_init
poly1305_init-zero key = refl
