-- ===== src/Crypto/Poly/Limbs.antt =====
-- A block step of poly1305_blocks as arithmetic modulo 2^130 - 5.
use lemoniscate.Common.{
  ℕ, zero, suc, ◌+◌, ◌*◌, ◌/◌, ◌%◌, ◌^◌, ◌<◌, ◌≡◌, subst, ap, sym, ◌∙◌, arith, List, [], ◌∷◌,
  get_or, All,
}
use lemoniscate.Common.Xor.{bit_and_26, bit_or_comm}
use lemoniscate.Common.Bits.{or_of_fields}
use lemoniscate.Wire.{IsByte}
use lemoniscate.Crypto.ChaCha.{load32_le}
use lemoniscate.Crypto.Poly.{Limbs, add_message, products, reduce, block_step}
use lemoniscate.Crypto.Poly.Bounds.{
  value, p130, IsNarrow, IsReduced, IsWide, plain_products, high_products, product_value,
  plain_products-IsSum, products-exact, plain_reduce, reduce-exact, reduce-IsReduced, top_carry,
  plain_reduce-value,
}
use native.Mathlib.Nat.{add-mul-mod_self_right}
use Prim.Native.Nat.{bit_or, bit_and}

pub get_or-IsByte : (p : List ℕ) → All IsByte p → (i : ℕ) → get_or p i 0 < 256
get_or-IsByte [] h i = omega arith
get_or-IsByte (x ∷ p) h zero = h.0
get_or-IsByte (x ∷ p) h (suc i) = get_or-IsByte p h.1 i

pub low_or_high : (k lo hi : ℕ) → lo < 2 ^ k → bit_or lo (hi * 2 ^ k) ≡ lo + hi * 2 ^ k
low_or_high k lo hi h = omega (arith, bit_or_comm lo (hi * 2 ^ k), or_of_fields k hi lo h)

-- `n` bytes from `off`, the least significant first.
abbrev pub le_value : ℕ → List ℕ → ℕ → ℕ
le_value zero p off = 0
le_value (suc n) p off = get_or p off 0 + 256 * le_value n p (off + 1)

or_of_bytes :
    (a b c d : ℕ)
    → a < 256
    → b < 256
    → c < 256
    → bit_or (bit_or (bit_or a (b * 2 ^ 8)) (c * 2 ^ 16)) (d * 2 ^ 24)
      ≡ a + 256 * (b + 256 * (c + 256 * d))
or_of_bytes a b c d ha hb hc =
    let e1 = low_or_high 8 a b ha in
    let e2 = low_or_high 16 (a + b * 2 ^ 8) c (omega arith) in
    let e3 = low_or_high 24 (a + b * 2 ^ 8 + c * 2 ^ 16) d (omega arith) in
    rw (e1, e2, e3) (omega arith)

at_same : (p : List ℕ) (i j : ℕ) → i ≡ j → get_or p i 0 ≡ get_or p j 0
at_same p i j e = ap (λ k. get_or p k 0) e

pub load32_le-value : (p : List ℕ) (off : ℕ) → All IsByte p → load32_le p off ≡ le_value 4 p off
unfolding load32_le
load32_le-value p off h =
    or_of_bytes (get_or p off 0) (get_or p (off + 1) 0) (get_or p (off + 2) 0)
      (get_or p (off + 3) 0) (get_or-IsByte p h off) (get_or-IsByte p h (off + 1))
      (get_or-IsByte p h (off + 2))
    ∙ omega (
      arith,
      at_same p (off + 2) (off + 1 + 1) (omega arith),
      at_same p (off + 3) (off + 1 + 1 + 1) (omega arith),
    )

-- The limbs of a block of 16 bytes.
abbrev pub message_limbs : List ℕ → Limbs
message_limbs p = (
  le_value 4 p 0 % 2 ^ 26,
  le_value 4 p 3 / 2 ^ 2 % 2 ^ 26,
  le_value 4 p 6 / 2 ^ 4 % 2 ^ 26,
  le_value 4 p 9 / 2 ^ 6 % 2 ^ 26,
  le_value 4 p 12 / 2 ^ 8,
)

pub message_limbs-value : (p : List ℕ) → All IsByte p → value (message_limbs p) ≡ le_value 16 p 0
message_limbs-value p h =
    let b = get_or-IsByte p h in
    omega
      (arith, b 0, b 1, b 2, b 3, b 4, b 5, b 6, b 7, b 8, b 9, b 10, b 11, b 12, b 13, b 14, b 15)

abbrev pub plain_add : Limbs → Limbs → Limbs
plain_add (h0, h1, h2, h3, h4) (m0, m1, m2, m3, m4) =
    (h0 + m0, h1 + m1, h2 + m2, h3 + m3, h4 + (m4 + 2 ^ 24))

pub message_limbs-IsNarrow : (p : List ℕ) → All IsByte p → IsNarrow (message_limbs p)
message_limbs-IsNarrow p h =
    let b = get_or-IsByte p h in
    (omega arith, omega arith, omega arith, omega arith, omega (arith, b 12, b 13, b 14, b 15))

last_limb :
    (p : List ℕ)
    → All IsByte p
    → bit_or (load32_le p 12 / 2 ^ 8) (2 ^ 24) ≡ le_value 4 p 12 / 2 ^ 8 + 2 ^ 24
last_limb p h =
    let b = get_or-IsByte p h in
    ap (λ (t : ℕ). bit_or (t / 2 ^ 8) (2 ^ 24)) (load32_le-value p 12 h)
    ∙ low_or_high 24 (le_value 4 p 12 / 2 ^ 8) 1 (omega (arith, b 12, b 13, b 14, b 15))

add_limb : (h m x : ℕ) → h < 2 ^ 26 + 2 ^ 6 → m < 2 ^ 27 → x ≡ m → (h + x) % 2 ^ 32 ≡ h + m
add_limb h m x a b e = omega arith

limb_of :
    (p : List ℕ) (off k : ℕ)
    → All IsByte p
    → bit_and (load32_le p off / 2 ^ k) 0x3ffffff ≡ le_value 4 p off / 2 ^ k % 2 ^ 26
limb_of p off k h =
    bit_and_26 (load32_le p off / 2 ^ k)
    ∙ ap (λ (t : ℕ). t / 2 ^ k % 2 ^ 26) (load32_le-value p off h)

pub add_message-exact :
    (h : Limbs) (p : List ℕ)
    → IsReduced h
    → All IsByte p
    → add_message h p (2 ^ 24) ≡ plain_add h (message_limbs p)
unfolding add_message
add_message-exact (h0, h1, h2, h3, h4) p (a0, a1, a2, a3, a4) h =
    let (b0, b1, b2, b3, b4) = message_limbs-IsNarrow p h in
    λ i. (
      add_limb h0 (le_value 4 p 0 % 2 ^ 26) (bit_and (load32_le p 0) 0x3ffffff) (omega arith)
          (omega arith)
          (bit_and_26 (load32_le p 0) ∙ ap (λ (t : ℕ). t % 2 ^ 26) (load32_le-value p 0 h)) i,
      add_limb h1 (le_value 4 p 3 / 2 ^ 2 % 2 ^ 26) (bit_and (load32_le p 3 / 2 ^ 2) 0x3ffffff) a1
          (omega arith) (limb_of p 3 2 h) i,
      add_limb h2 (le_value 4 p 6 / 2 ^ 4 % 2 ^ 26) (bit_and (load32_le p 6 / 2 ^ 4) 0x3ffffff)
          (omega arith) (omega arith) (limb_of p 6 4 h) i,
      add_limb h3 (le_value 4 p 9 / 2 ^ 6 % 2 ^ 26) (bit_and (load32_le p 9 / 2 ^ 6) 0x3ffffff)
          (omega arith) (omega arith) (limb_of p 9 6 h) i,
      add_limb h4 (le_value 4 p 12 / 2 ^ 8 + 2 ^ 24) (bit_or (load32_le p 12 / 2 ^ 8) (2 ^ 24))
          (omega arith) (omega arith) (last_limb p h) i,
    )

plain_add-value : (h m : Limbs) → value (plain_add h m) ≡ value h + value m + 2 ^ 128
plain_add-value (h0, h1, h2, h3, h4) (m0, m1, m2, m3, m4) = omega arith

plain_add-IsWide : (h m : Limbs) → IsReduced h → IsNarrow m → m.4 < 2 ^ 24 → IsWide (plain_add h m)
plain_add-IsWide (h0, h1, h2, h3, h4) (m0, m1, m2, m3, m4) (a0, a1, a2, a3, a4) (b0, b1, b2, b3, b4)
      c =
    (omega arith, omega arith, omega arith, omega arith, omega arith)

message_limbs-IsWide :
    (h : Limbs) (p : List ℕ) → IsReduced h → All IsByte p → IsWide (plain_add h (message_limbs p))
message_limbs-IsWide h p a b =
    let g = get_or-IsByte p b in
    plain_add-IsWide h (message_limbs p) a (message_limbs-IsNarrow p b)
      (omega (arith, g 12, g 13, g 14, g 15))

module _ (r h : Limbs) (p : List ℕ) (rn : IsNarrow r) (hr : IsReduced h) (pb : All IsByte p) where
  sums : Limbs
  sums = plain_products (plain_add h (message_limbs p)) r

  block_step-exact : block_step r h p (2 ^ 24) ≡ plain_reduce sums
  unfolding sums block_step
  block_step-exact =
      let wide = message_limbs-IsWide h p hr pb in
      ap (λ t. reduce (products t r)) (add_message-exact h p hr pb)
      ∙ ap reduce (products-exact (plain_add h (message_limbs p)) r wide rn)
      ∙ reduce-exact (plain_products (plain_add h (message_limbs p)) r)
          (plain_products-IsSum (plain_add h (message_limbs p)) r wide rn)

  -- The step keeps the limbs in the bounds that the next one needs.
  pub block_step-IsReduced : IsReduced (block_step r h p (2 ^ 24))
  unfolding sums
  block_step-IsReduced = subst IsReduced (sym block_step-exact) (
      reduce-IsReduced sums (
        plain_products-IsSum (plain_add h (message_limbs p)) r (message_limbs-IsWide h p hr pb) rn))

  -- A step of the loop on limbs in 32 and 64-bit words, with its partial carries, is one step of the
  -- polynomial of RFC 8439 modulo 2^130 - 5, without overflow, for a block of bytes and limbs in bounds.
  pub block_step-value :
      value (block_step r h p (2 ^ 24)) % p130
      ≡ (value h + le_value 16 p 0 + 2 ^ 128) * value r % p130
  unfolding sums
  block_step-value =
      let wide = plain_add h (message_limbs p) in
      let e = plain_reduce-value sums in
      let f = product_value wide r in
      ap (λ t. value t % p130) block_step-exact
      ∙ sym (
          add-mul-mod_self_right (value (plain_reduce sums)) (top_carry sums + high_products wide r)
            p130)
      ∙ ap (λ (t : ℕ). t % p130) (omega (arith, e, f))
      ∙ ap (λ (t : ℕ). t * value r % p130)
          (plain_add-value h (message_limbs p)
            ∙ ap (λ (t : ℕ). value h + t + 2 ^ 128) (message_limbs-value p pb))
