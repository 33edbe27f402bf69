-- ===== src/Crypto/Poly/Final.antt =====
-- poly1305_final: the full reduction, the four words and the sum with the pad.
use lemoniscate.Common.{
  ℕ, lt_or_le, ◌+◌, ◌-◌, ◌*◌, ◌/◌, ◌%◌, ◌^◌, ◌<◌, ◌≡◌, refl, subst, ap, sym, ◌∙◌, arith, inl, inr,
}
use lemoniscate.Common.Xor.{bit_and_26, bit_and_32, bit_or_comm}
use lemoniscate.Common.Bits.{bit_and_zero, bit_or_zero}
use lemoniscate.Crypto.ChaCha.{Quad}
use lemoniscate.Crypto.Poly.{
  Limbs, full_carry, minus_p, select, select_mask, choose, reassemble, add_pad, PolyState,
  poly1305_final,
}
use lemoniscate.Crypto.Poly.Bounds.{value, p130, IsNarrow, IsReduced}
use lemoniscate.Crypto.Poly.Limbs.{le_value, low_or_high}
use Prim.Native.Nat.{bit_or}

abbrev pub plain_carry : Limbs → Limbs
plain_carry (h0, h1, h2, h3, h4) =
    let k2 = h2 + h1 / 2 ^ 26 in
    let k3 = h3 + k2 / 2 ^ 26 in
    let k4 = h4 + k3 / 2 ^ 26 in
    let k0 = h0 + k4 / 2 ^ 26 * 5 in
    (k0 % 2 ^ 26, h1 % 2 ^ 26 + k0 / 2 ^ 26, k2 % 2 ^ 26, k3 % 2 ^ 26, k4 % 2 ^ 26)

small : (x : ℕ) → x < 2 ^ 32 → x % 2 ^ 32 ≡ x
small x h = omega arith

full_carry-exact : (h : Limbs) → IsReduced h → full_carry h ≡ plain_carry h
unfolding full_carry
full_carry-exact (h0, h1, h2, h3, h4) (a0, a1, a2, a3, a4) =
    let k2 = h2 + h1 / 2 ^ 26 in
    let k3 = h3 + k2 / 2 ^ 26 in
    let k4 = h4 + k3 / 2 ^ 26 in
    let k0 = h0 + k4 / 2 ^ 26 * 5 in
    rw (small k2 (omega arith)) (
      rw (small k3 (omega arith)) (
        rw (small k4 (omega arith)) (
          rw (small (k4 / 2 ^ 26 * 5) (omega arith)) (
            rw
              (
                small k0 (omega arith),
                bit_and_26 k0,
                bit_and_26 h1,
                bit_and_26 k2,
                bit_and_26 k3,
                bit_and_26 k4,
              )
              (ap (λ (t : ℕ). (k0 % 2 ^ 26, t, k2 % 2 ^ 26, k3 % 2 ^ 26, k4 % 2 ^ 26))
                (omega arith))))))

-- The carry propagation leaves every limb in 26 bits: no carry into the second one is left over.
plain_carry-IsNarrow : (h : Limbs) → IsReduced h → IsNarrow (plain_carry h)
plain_carry-IsNarrow (h0, h1, h2, h3, h4) (a0, a1, a2, a3, a4) =
    (omega arith, omega arith, omega arith, omega arith, omega arith)

wraps : Limbs → ℕ
wraps (h0, h1, h2, h3, h4) = (h4 + (h3 + (h2 + h1 / 2 ^ 26) / 2 ^ 26) / 2 ^ 26) / 2 ^ 26

plain_carry-value : (h : Limbs) → value h ≡ value (plain_carry h) + wraps h * p130
unfolding wraps
plain_carry-value (h0, h1, h2, h3, h4) = omega arith

-- `h - p` where it is not negative, limb by limb.
abbrev low_g : Limbs → ℕ → Limbs
low_g (h0, h1, h2, h3, h4) g4 =
    let g0 = h0 + 5 in
    let g1 = h1 + g0 / 2 ^ 26 in
    let g2 = h2 + g1 / 2 ^ 26 in
    let g3 = h3 + g2 / 2 ^ 26 in (g0 % 2 ^ 26, g1 % 2 ^ 26, g2 % 2 ^ 26, g3 % 2 ^ 26, g4)

-- The last limb of `h + 5` before 2 ^ 26 is taken off.
abbrev over : Limbs → ℕ
over (h0, h1, h2, h3, h4) = h4 + (h3 + (h2 + (h1 + (h0 + 5) / 2 ^ 26) / 2 ^ 26) / 2 ^ 26) / 2 ^ 26

minus_p-exact :
    (h : Limbs) → IsNarrow h → minus_p h ≡ low_g h ((over h + (2 ^ 32 - 2 ^ 26)) % 2 ^ 32)
unfolding minus_p
minus_p-exact (h0, h1, h2, h3, h4) (a0, a1, a2, a3, a4) =
    let g0 = h0 + 5 in
    let g1 = h1 + g0 / 2 ^ 26 in
    let g2 = h2 + g1 / 2 ^ 26 in
    let g3 = h3 + g2 / 2 ^ 26 in
    rw (small g0 (omega arith)) (
      rw (small g1 (omega arith)) (
        rw (small g2 (omega arith)) (
          rw (small g3 (omega arith), bit_and_26 g0, bit_and_26 g1, bit_and_26 g2, bit_and_26 g3)
            refl)))

choose_all : (h g : ℕ) → g < 2 ^ 32 → choose 0xffffffff h g ≡ g
choose_all h g a =
    rw (bit_and_zero h, bit_and_32 g)
      (omega (arith, bit_or_comm 0 (g % 2 ^ 32), bit_or_zero (g % 2 ^ 32)))

choose_none : (h g : ℕ) → h < 2 ^ 32 → choose 0 h g ≡ h
choose_none h g a = rw (bit_and_zero g, bit_and_32 h) (omega (arith, bit_or_zero (h % 2 ^ 32)))

abbrev chosen : Limbs → Limbs
chosen h = let g = low_g h ((over h + (2 ^ 32 - 2 ^ 26)) % 2 ^ 32) in select (select_mask g.4) h g

-- The selection by masks: `h` below the modulus, `h - p` from it on.
select-value : (h : Limbs) → IsNarrow h → IsNarrow (chosen h) × (value (chosen h) ≡ value h % p130)
unfolding select
select-value (h0, h1, h2, h3, h4) (a0, a1, a2, a3, a4) =
    let h : Limbs = (h0, h1, h2, h3, h4) in
    let v = over h in
    let g4 = (v + (2 ^ 32 - 2 ^ 26)) % 2 ^ 32 in
    elim (lt_or_le v (2 ^ 26)) [
      | inl lt ↦
          let m : select_mask g4 ≡ 0 = omega arith in
          let e : chosen h ≡ h = rw m (
            rw
              (
                choose_none h0 _ (omega arith),
                choose_none h1 _ (omega arith),
                choose_none h2 _ (omega arith),
                choose_none h3 _ (omega arith),
                choose_none h4 _ (omega arith),
              )
              refl) in
          subst (λ k. IsNarrow k × (value k ≡ value h % p130)) (sym e)
            ((a0, a1, a2, a3, a4), omega arith)
      | inr le ↦
          let m : select_mask g4 ≡ 0xffffffff = omega arith in
          let k : Limbs = low_g h g4 in
          let e : chosen h ≡ k = rw m (
            rw
              (
                choose_all h0 k.0 (omega arith),
                choose_all h1 k.1 (omega arith),
                choose_all h2 k.2 (omega arith),
                choose_all h3 k.3 (omega arith),
                choose_all h4 k.4 (omega arith),
              )
              refl) in
          subst (λ k. IsNarrow k × (value k ≡ value h % p130)) (sym e)
            ((omega arith, omega arith, omega arith, omega arith, omega arith), omega arith)
    ]

abbrev pub words_value : Quad → ℕ
words_value (a, b, c, d) = a + b * 2 ^ 32 + c * 2 ^ 64 + d * 2 ^ 96

abbrev pub AreWords : Quad → Type 0
AreWords (a, b, c, d) = (a < 2 ^ 32) × (b < 2 ^ 32) × (c < 2 ^ 32) × (d < 2 ^ 32)

abbrev plain_words : Limbs → Quad
plain_words (h0, h1, h2, h3, h4) = (
  h0 + h1 % 2 ^ 6 * 2 ^ 26,
  h1 / 2 ^ 6 + h2 % 2 ^ 12 * 2 ^ 20,
  h2 / 2 ^ 12 + h3 % 2 ^ 18 * 2 ^ 14,
  h3 / 2 ^ 18 + h4 % 2 ^ 24 * 2 ^ 8,
)

reassemble-exact : (h : Limbs) → IsNarrow h → reassemble h ≡ plain_words h
unfolding reassemble
reassemble-exact (h0, h1, h2, h3, h4) (a0, a1, a2, a3, a4) = λ i. (
  (ap (bit_or h0) (let e : h1 * 2 ^ 26 % 2 ^ 32 ≡ h1 % 2 ^ 6 * 2 ^ 26 = omega arith in e)
        ∙ low_or_high 26 h0 (h1 % 2 ^ 6) a0)
      i,
  (ap (bit_or (h1 / 2 ^ 6)) (let e : h2 * 2 ^ 20 % 2 ^ 32 ≡ h2 % 2 ^ 12 * 2 ^ 20 = omega arith in e)
        ∙ low_or_high 20 (h1 / 2 ^ 6) (h2 % 2 ^ 12) (omega arith))
      i,
  (ap (bit_or (h2 / 2 ^ 12))
          (let e : h3 * 2 ^ 14 % 2 ^ 32 ≡ h3 % 2 ^ 18 * 2 ^ 14 = omega arith in e)
        ∙ low_or_high 14 (h2 / 2 ^ 12) (h3 % 2 ^ 18) (omega arith))
      i,
  (ap (bit_or (h3 / 2 ^ 18)) (let e : h4 * 2 ^ 8 % 2 ^ 32 ≡ h4 % 2 ^ 24 * 2 ^ 8 = omega arith in e)
        ∙ low_or_high 8 (h3 / 2 ^ 18) (h4 % 2 ^ 24) (omega arith))
      i,
)

plain_words-value :
    (h : Limbs)
    → IsNarrow h
    → AreWords (plain_words h) × (words_value (plain_words h) ≡ value h % 2 ^ 128)
plain_words-value (h0, h1, h2, h3, h4) (a0, a1, a2, a3, a4) =
    ((omega arith, omega arith, omega arith, omega arith), omega arith)

pub word_bytes :
    (w : ℕ)
    → w < 2 ^ 32
    → w % 256 + 256 * (w / 2 ^ 8 % 256 + 256 * (w / 2 ^ 16 % 256 + 256 * (w / 2 ^ 24 % 256))) ≡ w
word_bytes w h = omega arith

add_pad-value :
    (w s : Quad)
    → AreWords w
    → AreWords s
    → le_value 16 (add_pad w s) 0 ≡ (words_value w + words_value s) % 2 ^ 128
unfolding add_pad
add_pad-value (h0, h1, h2, h3) (p0, p1, p2, p3) (a0, a1, a2, a3) (b0, b1, b2, b3) =
    let f0 = (h0 + p0) % 2 ^ 64 in
    let f1 = (h1 + p1 + f0 / 2 ^ 32) % 2 ^ 64 in
    let f2 = (h2 + p2 + f1 / 2 ^ 32) % 2 ^ 64 in
    let f3 = (h3 + p3 + f2 / 2 ^ 32) % 2 ^ 64 in
    let sum : ℕ =
      f0 % 2 ^ 32 + f1 % 2 ^ 32 * 2 ^ 32 + f2 % 2 ^ 32 * 2 ^ 64 + f3 % 2 ^ 32 * 2 ^ 96 in
    let e : sum
        ≡ (h0 + p0 + (h1 + p1) * 2 ^ 32 + (h2 + p2) * 2 ^ 64 + (h3 + p3) * 2 ^ 96) % 2 ^ 128 =
      omega arith in
    omega (
      arith,
      e,
      word_bytes (f0 % 2 ^ 32) (omega arith),
      word_bytes (f1 % 2 ^ 32) (omega arith),
      word_bytes (f2 % 2 ^ 32) (omega arith),
      word_bytes (f3 % 2 ^ 32) (omega arith),
    )

-- The final step, on limbs in bounds and a pad of words: the accumulator is reduced modulo
-- 2^130 - 5 by masks and not by a branch, and the tag is its sum with the pad modulo 2^128, in
-- 16 bytes with the least significant first.
pub poly1305_final-value :
    (st : PolyState)
    → IsReduced st.h
    → AreWords st.pad
    → le_value 16 (poly1305_final st) 0 ≡ (value st.h % p130 + words_value st.pad) % 2 ^ 128
unfolding poly1305_final
poly1305_final-value st a b =
    let k = plain_carry st.h in
    let narrow = plain_carry-IsNarrow st.h a in
    let (fine, e) = select-value k narrow in
    let (ws, f) = plain_words-value (chosen k) fine in
    let g : full_carry st.h ≡ k = full_carry-exact st.h a in
    ap
      (λ t.
        le_value 16 (add_pad (reassemble (select (select_mask (minus_p t).4) t (minus_p t))) st.pad)
          0)
      g
    ∙ ap (λ t. le_value 16 (add_pad (reassemble (select (select_mask t.4) k t)) st.pad) 0)
        (minus_p-exact k narrow)
    ∙ ap (λ t. le_value 16 (add_pad t st.pad) 0) (reassemble-exact (chosen k) fine)
    ∙ add_pad-value (plain_words (chosen k)) st.pad ws b
    ∙ omega (arith, e, f, plain_carry-value st.h)
