-- ===== src/Crypto/Poly/Bounds.antt =====
-- The sums of 64 bits in poly1305_blocks, their bounds and what they hold as numbers.
use lemoniscate.Common.{ℕ, ◌+◌, ◌-◌, ◌*◌, ◌/◌, ◌%◌, ◌^◌, ◌≤◌, ◌<◌, ◌≡◌, ap, arith}
use lemoniscate.Common.Xor.{bit_and_26}
use lemoniscate.Crypto.Poly.{Limbs, products, reduce, limb64, carry64}
use native.Mathlib.Nat.{mul-le-mul}

abbrev pub value : Limbs → ℕ
value (h0, h1, h2, h3, h4) = h0 + h1 * 2 ^ 26 + h2 * 2 ^ 52 + h3 * 2 ^ 78 + h4 * 2 ^ 104

abbrev pub p130 : ℕ
p130 = 2 ^ 130 - 5

-- Every limb has 26 bits.
abbrev pub IsNarrow : Limbs → Type 0
IsNarrow (r0, r1, r2, r3, r4) =
    (r0 < 2 ^ 26) × (r1 < 2 ^ 26) × (r2 < 2 ^ 26) × (r3 < 2 ^ 26) × (r4 < 2 ^ 26)

-- What the loop keeps: the second limb may hold a carry.
abbrev pub IsReduced : Limbs → Type 0
IsReduced (h0, h1, h2, h3, h4) =
    (h0 < 2 ^ 26) × (h1 < 2 ^ 26 + 2 ^ 6) × (h2 < 2 ^ 26) × (h3 < 2 ^ 26) × (h4 < 2 ^ 26)

-- After a message block is added.
abbrev pub IsWide : Limbs → Type 0
IsWide (h0, h1, h2, h3, h4) =
    (h0 < 2 ^ 27 + 2 ^ 6)
    × (h1 < 2 ^ 27 + 2 ^ 6)
    × (h2 < 2 ^ 27 + 2 ^ 6)
    × (h3 < 2 ^ 27 + 2 ^ 6)
    × (h4 < 2 ^ 27 + 2 ^ 6)

-- The sums are below what the 32-bit carries can take.
abbrev pub IsSum : Limbs → Type 0
IsSum (d0, d1, d2, d3, d4) =
    (d0 < 2 ^ 58 - 2 ^ 33)
    × (d1 < 2 ^ 58 - 2 ^ 33)
    × (d2 < 2 ^ 58 - 2 ^ 33)
    × (d3 < 2 ^ 58 - 2 ^ 33)
    × (d4 < 3 * 2 ^ 54)

term_bound : (h r : ℕ) → h < 2 ^ 27 + 2 ^ 6 → r < 2 ^ 26 → h * r ≤ (2 ^ 27 + 2 ^ 6) * 2 ^ 26
term_bound h r a b =
    let l : h ≤ 2 ^ 27 + 2 ^ 6 = omega arith in let m : r ≤ 2 ^ 26 = omega arith in mul-le-mul l m

-- The sums without the arithmetic modulo 2 ^ 64 and 2 ^ 32.
abbrev pub plain_products : Limbs → Limbs → Limbs
plain_products (h0, h1, h2, h3, h4) (r0, r1, r2, r3, r4) = (
  h0 * r0 + h1 * (r4 * 5) + h2 * (r3 * 5) + h3 * (r2 * 5) + h4 * (r1 * 5),
  h0 * r1 + h1 * r0 + h2 * (r4 * 5) + h3 * (r3 * 5) + h4 * (r2 * 5),
  h0 * r2 + h1 * r1 + h2 * r0 + h3 * (r4 * 5) + h4 * (r3 * 5),
  h0 * r3 + h1 * r2 + h2 * r1 + h3 * r0 + h4 * (r4 * 5),
  h0 * r4 + h1 * r3 + h2 * r2 + h3 * r1 + h4 * r0,
)

-- The terms of the product from the limb 2 ^ 130 on.
abbrev pub high_products : Limbs → Limbs → ℕ
high_products (h0, h1, h2, h3, h4) (r0, r1, r2, r3, r4) =
    (h1 * r4 + h2 * r3 + h3 * r2 + h4 * r1)
    + (h2 * r4 + h3 * r3 + h4 * r2) * 2 ^ 26
    + (h3 * r4 + h4 * r3) * 2 ^ 52
    + (h4 * r4) * 2 ^ 78

pub product_value :
    (h r : Limbs) → value h * value r ≡ value (plain_products h r) + high_products h r * p130
product_value (h0, h1, h2, h3, h4) (r0, r1, r2, r3, r4) = omega arith

pub plain_products-IsSum : (h r : Limbs) → IsWide h → IsNarrow r → IsSum (plain_products h r)
plain_products-IsSum (h0, h1, h2, h3, h4) (r0, r1, r2, r3, r4) (a0, a1, a2, a3, a4)
      (b0, b1, b2, b3, b4) =
    (
      omega (
        arith,
        term_bound h0 r0 a0 b0,
        term_bound h1 r4 a1 b4,
        term_bound h2 r3 a2 b3,
        term_bound h3 r2 a3 b2,
        term_bound h4 r1 a4 b1,
      ),
      omega (
        arith,
        term_bound h0 r1 a0 b1,
        term_bound h1 r0 a1 b0,
        term_bound h2 r4 a2 b4,
        term_bound h3 r3 a3 b3,
        term_bound h4 r2 a4 b2,
      ),
      omega (
        arith,
        term_bound h0 r2 a0 b2,
        term_bound h1 r1 a1 b1,
        term_bound h2 r0 a2 b0,
        term_bound h3 r4 a3 b4,
        term_bound h4 r3 a4 b3,
      ),
      omega (
        arith,
        term_bound h0 r3 a0 b3,
        term_bound h1 r2 a1 b2,
        term_bound h2 r1 a2 b1,
        term_bound h3 r0 a3 b0,
        term_bound h4 r4 a4 b4,
      ),
      omega (
        arith,
        term_bound h0 r4 a0 b4,
        term_bound h1 r3 a1 b3,
        term_bound h2 r2 a2 b2,
        term_bound h3 r1 a3 b1,
        term_bound h4 r0 a4 b0,
      ),
    )

exact : (d : ℕ) → d < 2 ^ 58 → d % 2 ^ 64 ≡ d
exact d h = omega arith

times_five : (r : ℕ) → r < 2 ^ 26 → r * 5 % 2 ^ 32 ≡ r * 5
times_five r h = omega arith

ap5 {ℓ κ} :
    {A : Type ℓ} {B : Type κ} (f : A → A → A → A → A → B) {a b c d e a' b' c' d' e' : A}
    → a ≡ a'
    → b ≡ b'
    → c ≡ c'
    → d ≡ d'
    → e ≡ e'
    → f a b c d e ≡ f a' b' c' d' e'
ap5 f p q r s t = λ i. f (p i) (q i) (r i) (s i) (t i)

pub products-exact : (h r : Limbs) → IsWide h → IsNarrow r → products h r ≡ plain_products h r
unfolding products
products-exact (h0, h1, h2, h3, h4) (r0, r1, r2, r3, r4) a (b0, b1, b2, b3, b4) =
    let (k0, k1, k2, k3, k4) =
      plain_products-IsSum (h0, h1, h2, h3, h4) (r0, r1, r2, r3, r4) a (b0, b1, b2, b3, b4) in
    rw (times_five r1 b1, times_five r2 b2, times_five r3 b3, times_five r4 b4)
      (ap5 (λ d0 d1 d2 d3 d4. (d0, d1, d2, d3, d4)) (exact _ (omega arith)) (exact _ (omega arith))
        (exact _ (omega arith)) (exact _ (omega arith)) (exact _ (omega arith)))

limb64_mod : (d : ℕ) → limb64 d ≡ d % 2 ^ 26
limb64_mod d = omega (arith, bit_and_26 (d % 2 ^ 32))

-- The carries without the arithmetic modulo 2 ^ 64 and 2 ^ 32.
abbrev pub plain_reduce : Limbs → Limbs
plain_reduce (d0, d1, d2, d3, d4) =
    let e1 = d1 + d0 / 2 ^ 26 in
    let e2 = d2 + e1 / 2 ^ 26 in
    let e3 = d3 + e2 / 2 ^ 26 in
    let e4 = d4 + e3 / 2 ^ 26 in
    let h0 = d0 % 2 ^ 26 + e4 / 2 ^ 26 * 5 in
    (h0 % 2 ^ 26, e1 % 2 ^ 26 + h0 / 2 ^ 26, e2 % 2 ^ 26, e3 % 2 ^ 26, e4 % 2 ^ 26)

carry_exact :
    (d e : ℕ) → d < 2 ^ 58 → e < 2 ^ 58 - 2 ^ 33 → (e + carry64 d) % 2 ^ 64 ≡ e + d / 2 ^ 26
carry_exact d e h k = omega arith

last_carry :
    (d e : ℕ)
    → d < 2 ^ 26
    → e < 3 * 2 ^ 54 + 2 ^ 33
    → (d + carry64 e * 5 % 2 ^ 32) % 2 ^ 32 ≡ d + e / 2 ^ 26 * 5
last_carry d e h k = omega arith

pub reduce-exact : (d : Limbs) → IsSum d → reduce d ≡ plain_reduce d
unfolding reduce
reduce-exact (d0, d1, d2, d3, d4) (k0, k1, k2, k3, k4) =
    let e1 = d1 + d0 / 2 ^ 26 in
    let e2 = d2 + e1 / 2 ^ 26 in
    let e3 = d3 + e2 / 2 ^ 26 in
    let e4 = d4 + e3 / 2 ^ 26 in
    let b1 : e1 < 2 ^ 58 = omega arith in
    let b2 : e2 < 2 ^ 58 = omega arith in
    let b3 : e3 < 2 ^ 58 = omega arith in
    rw (carry_exact d0 d1 (omega arith) k1) (
      rw (carry_exact e1 d2 b1 k2) (
        rw (carry_exact e2 d3 b2 k3) (
          rw (carry_exact e3 d4 b3 (omega arith)) (
            rw (limb64_mod d0, limb64_mod e1, limb64_mod e2, limb64_mod e3, limb64_mod e4)
              (rw
                (
                  last_carry (d0 % 2 ^ 26) e4 (omega arith) (omega arith),
                  bit_and_26 (d0 % 2 ^ 26 + e4 / 2 ^ 26 * 5),
                )
                (ap
                  (λ (t : ℕ). (
                    (d0 % 2 ^ 26 + e4 / 2 ^ 26 * 5) % 2 ^ 26,
                    t,
                    e2 % 2 ^ 26,
                    e3 % 2 ^ 26,
                    e4 % 2 ^ 26,
                  ))
                  (omega arith)))))))

pub reduce-IsReduced : (d : Limbs) → IsSum d → IsReduced (plain_reduce d)
reduce-IsReduced (d0, d1, d2, d3, d4) (k0, k1, k2, k3, k4) =
    (omega arith, omega arith, omega arith, omega arith, omega arith)

-- The carry out of the last limb.
abbrev pub top_carry : Limbs → ℕ
top_carry (d0, d1, d2, d3, d4) =
    (d4 + (d3 + (d2 + (d1 + d0 / 2 ^ 26) / 2 ^ 26) / 2 ^ 26) / 2 ^ 26) / 2 ^ 26

pub plain_reduce-value : (d : Limbs) → value d ≡ value (plain_reduce d) + top_carry d * p130
plain_reduce-value (d0, d1, d2, d3, d4) = omega arith
