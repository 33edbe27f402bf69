-- ===== src/Crypto/Poly.antt =====
-- src/hotline/chacha20poly1305.c, Poly1305: the accumulator in five limbs of 26 bits.
pub mod Limbs
pub mod Bounds
pub mod Final
pub mod Clamp
mod Tests
use lemoniscate.Common.{
  ℕ, zero, suc, ◌+◌, ◌-◌, ◌*◌, ◌/◌, ◌%◌, ◌^◌, Bool, true, false, List, [], ◌∷◌, ◌++◌, take, drop,
  length, leb, if◌then◌else◌,
}
use lemoniscate.Crypto.ChaCha.{Quad, load32_le, store32_le}
use Prim.Native.Nat.{bit_or, bit_and}

abbrev pub Limbs : Type 0
Limbs = ℕ × ℕ × ℕ × ℕ × ℕ

pub record PolyState : Type 0 where
  pub r : Limbs
  pub h : Limbs
  pub pad : Quad

unfoldable pub poly1305_init : List ℕ → PolyState
poly1305_init key =
    let t0 = load32_le key 0 in
    let t1 = load32_le key 4 in
    let t2 = load32_le key 8 in
    let t3 = load32_le key 12 in
    record {
      r = (
        bit_and t0 0x3ffffff,
        bit_and (bit_or (t0 / 2 ^ 26) (t1 * 2 ^ 6 % 2 ^ 32)) 0x3ffff03,
        bit_and (bit_or (t1 / 2 ^ 20) (t2 * 2 ^ 12 % 2 ^ 32)) 0x3ffc0ff,
        bit_and (bit_or (t2 / 2 ^ 14) (t3 * 2 ^ 18 % 2 ^ 32)) 0x3f03fff,
        bit_and (t3 / 2 ^ 8) 0x00fffff,
      );
      h = (0, 0, 0, 0, 0);
      pad = (load32_le key 16, load32_le key 20, load32_le key 24, load32_le key 28);
    }

-- `h += m[i]`, with the bit 2 ^ 128 given as the bit 24 of the last limb.
unfoldable pub add_message : Limbs → List ℕ → ℕ → Limbs
add_message (h0, h1, h2, h3, h4) message hibit = (
  (h0 + bit_and (load32_le message 0) 0x3ffffff) % 2 ^ 32,
  (h1 + bit_and (load32_le message 3 / 2 ^ 2) 0x3ffffff) % 2 ^ 32,
  (h2 + bit_and (load32_le message 6 / 2 ^ 4) 0x3ffffff) % 2 ^ 32,
  (h3 + bit_and (load32_le message 9 / 2 ^ 6) 0x3ffffff) % 2 ^ 32,
  (h4 + bit_or (load32_le message 12 / 2 ^ 8) hibit) % 2 ^ 32,
)

-- `d0 .. d4`, sums of 64 bits, with `s = r * 5` in 32 bits.
unfoldable pub products : Limbs → Limbs → Limbs
products (h0, h1, h2, h3, h4) (r0, r1, r2, r3, r4) =
    let s1 = r1 * 5 % 2 ^ 32 in
    let s2 = r2 * 5 % 2 ^ 32 in
    let s3 = r3 * 5 % 2 ^ 32 in
    let s4 = r4 * 5 % 2 ^ 32 in
    (
      (h0 * r0 + h1 * s4 + h2 * s3 + h3 * s2 + h4 * s1) % 2 ^ 64,
      (h0 * r1 + h1 * r0 + h2 * s4 + h3 * s3 + h4 * s2) % 2 ^ 64,
      (h0 * r2 + h1 * r1 + h2 * r0 + h3 * s4 + h4 * s3) % 2 ^ 64,
      (h0 * r3 + h1 * r2 + h2 * r1 + h3 * r0 + h4 * s4) % 2 ^ 64,
      (h0 * r4 + h1 * r3 + h2 * r2 + h3 * r1 + h4 * r0) % 2 ^ 64,
    )

-- `c = (uint32_t)(d >> 26)` and `(uint32_t)d & 0x3ffffff`
abbrev pub carry64 : ℕ → ℕ
carry64 d = d / 2 ^ 26 % 2 ^ 32

abbrev pub limb64 : ℕ → ℕ
limb64 d = bit_and (d % 2 ^ 32) 0x3ffffff

unfoldable pub reduce : Limbs → Limbs
reduce (d0, d1, d2, d3, d4) =
    let e1 = (d1 + carry64 d0) % 2 ^ 64 in
    let e2 = (d2 + carry64 e1) % 2 ^ 64 in
    let e3 = (d3 + carry64 e2) % 2 ^ 64 in
    let e4 = (d4 + carry64 e3) % 2 ^ 64 in
    let h0 = (limb64 d0 + carry64 e4 * 5 % 2 ^ 32) % 2 ^ 32 in
    (bit_and h0 0x3ffffff, (limb64 e1 + h0 / 2 ^ 26) % 2 ^ 32, limb64 e2, limb64 e3, limb64 e4)

-- One round of the loop.
unfoldable pub block_step : Limbs → Limbs → List ℕ → ℕ → Limbs
block_step r h message hibit = reduce (products (add_message h message hibit) r)

-- `while (len >= 16)`, with fuel for the bytes.
unfoldable pub blocks_from : ℕ → Limbs → Limbs → List ℕ → ℕ → Limbs
blocks_from zero r h message hibit = h
blocks_from (suc fuel) r h message hibit =
    let rest = blocks_from fuel r (block_step r h message hibit) (drop 16 message) hibit in
    if leb 16 (length message) then rest else h

unfoldable pub poly1305_blocks : PolyState → List ℕ → Bool → PolyState
poly1305_blocks st message is_final_block = record {
  r = st.r;
  h = blocks_from (length message) st.r st.h message (if is_final_block then 0 else 2 ^ 24);
  pad = st.pad;
}

-- `c = h1 >> 26; h1 &= 0x3ffffff; h2 += c; ...`
unfoldable pub full_carry : Limbs → Limbs
full_carry (h0, h1, h2, h3, h4) =
    let k2 = (h2 + h1 / 2 ^ 26) % 2 ^ 32 in
    let k3 = (h3 + k2 / 2 ^ 26) % 2 ^ 32 in
    let k4 = (h4 + k3 / 2 ^ 26) % 2 ^ 32 in
    let k0 = (h0 + k4 / 2 ^ 26 * 5 % 2 ^ 32) % 2 ^ 32 in
    (
      bit_and k0 0x3ffffff,
      (bit_and h1 0x3ffffff + k0 / 2 ^ 26) % 2 ^ 32,
      bit_and k2 0x3ffffff,
      bit_and k3 0x3ffffff,
      bit_and k4 0x3ffffff,
    )

-- `g = h + 5 - 2 ^ 130`, its last limb in 32 bits with the sign in bit 31.
unfoldable pub minus_p : Limbs → Limbs
minus_p (h0, h1, h2, h3, h4) =
    let g0 = (h0 + 5) % 2 ^ 32 in
    let g1 = (h1 + g0 / 2 ^ 26) % 2 ^ 32 in
    let g2 = (h2 + g1 / 2 ^ 26) % 2 ^ 32 in
    let g3 = (h3 + g2 / 2 ^ 26) % 2 ^ 32 in
    (
      bit_and g0 0x3ffffff,
      bit_and g1 0x3ffffff,
      bit_and g2 0x3ffffff,
      bit_and g3 0x3ffffff,
      (h4 + g3 / 2 ^ 26 + (2 ^ 32 - 2 ^ 26)) % 2 ^ 32,
    )

-- `mask = (g4 >> 31) - 1`, `~mask`, and `(h & ~mask) | (g & mask)`
abbrev pub select_mask : ℕ → ℕ
select_mask g4 = (g4 / 2 ^ 31 + (2 ^ 32 - 1)) % 2 ^ 32

abbrev pub choose : ℕ → ℕ → ℕ → ℕ
choose mask h g = bit_or (bit_and h (2 ^ 32 - 1 - mask)) (bit_and g mask)

unfoldable pub select : ℕ → Limbs → Limbs → Limbs
select mask (h0, h1, h2, h3, h4) (g0, g1, g2, g3, g4) =
    (choose mask h0 g0, choose mask h1 g1, choose mask h2 g2, choose mask h3 g3, choose mask h4 g4)

-- The limbs as four words of 32 bits.
unfoldable pub reassemble : Limbs → Quad
reassemble (h0, h1, h2, h3, h4) = (
  bit_or h0 (h1 * 2 ^ 26 % 2 ^ 32),
  bit_or (h1 / 2 ^ 6) (h2 * 2 ^ 20 % 2 ^ 32),
  bit_or (h2 / 2 ^ 12) (h3 * 2 ^ 14 % 2 ^ 32),
  bit_or (h3 / 2 ^ 18) (h4 * 2 ^ 8 % 2 ^ 32),
)

-- `f = (uint64_t)h + pad + (f >> 32); h = (uint32_t)f`, then the four stores.
unfoldable pub add_pad : Quad → Quad → List ℕ
add_pad (h0, h1, h2, h3) (p0, p1, p2, p3) =
    let f0 = (h0 + p0) % 2 ^ 64 in
    let f1 = (h1 + p1 + f0 / 2 ^ 32) % 2 ^ 64 in
    let f2 = (h2 + p2 + f1 / 2 ^ 32) % 2 ^ 64 in
    let f3 = (h3 + p3 + f2 / 2 ^ 32) % 2 ^ 64 in
    store32_le (f0 % 2 ^ 32)
    ++ (store32_le (f1 % 2 ^ 32) ++ (store32_le (f2 % 2 ^ 32) ++ store32_le (f3 % 2 ^ 32)))

unfoldable pub poly1305_final : PolyState → List ℕ
poly1305_final st =
    let h = full_carry st.h in
    let g = minus_p h in add_pad (reassemble (select (select_mask g.4) h g)) st.pad
