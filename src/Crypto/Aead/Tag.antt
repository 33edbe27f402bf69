-- ===== src/Crypto/Aead/Tag.antt =====
-- The tag of RFC 8439, the polynomial over the padded blocks modulo 2^130 - 5, and that of the code.
use lemoniscate.Common.{
  ℕ, zero, suc, ◌+◌, ◌-◌, ◌*◌, ◌/◌, ◌%◌, ◌^◌, ◌≤◌, ◌<◌, ◌≡◌, refl, subst, ap, ap₂, sym, ◌∙◌, arith,
  false, leb, Bool-cases, leb→le, inl, inr, All,
}
use lemoniscate.Common.{
  List, [], ◌∷◌, ◌++◌, take, drop, length, replicate, length-append, length-take, length-drop,
  length-replicate, drop-beyond, All-append,
}
use lemoniscate.Wire.{IsByte}
use lemoniscate.Crypto.ChaCha.{store64_le, store32_le}
use lemoniscate.Crypto.Poly.{
  Limbs, PolyState, poly1305_init, poly1305_blocks, blocks_from, block_step,
}
use lemoniscate.Crypto.Poly.Bounds.{value, p130, IsNarrow, IsReduced}
use lemoniscate.Crypto.Poly.Limbs.{le_value, block_step-value, block_step-IsReduced}
use lemoniscate.Crypto.Poly.Final.{poly1305_final-value, words_value, AreWords, word_bytes}
use lemoniscate.Crypto.Poly.Clamp.{
  clamp_mask, poly1305_init-value, poly1305_init-IsNarrow, poly1305_init-IsReduced,
  poly1305_init-pad, poly1305_init-zero,
}
use lemoniscate.Crypto.Aead.{feed_padded, aead_poly1305_tag}
use native.Mathlib.Nat.{add-mul-mod_self_right}
use Prim.Native.Nat.{bit_and}
use lemoniscate.Crypto.Aead.Blocks.{
  le_value-take, le_value-pad, take-IsByte, drop-IsByte, zeros-IsByte,
}

-- The polynomial of the RFC: every block of 16 bytes, the last one filled with zeros, with the bit
-- 2 ^ 128 set.
unfoldable pub rfc_poly : ℕ → ℕ → ℕ → List ℕ → ℕ
rfc_poly fuel r acc [] = acc
rfc_poly zero r acc (b ∷ bs) = acc
rfc_poly (suc fuel) r acc (b ∷ bs) =
    rfc_poly fuel r ((acc + le_value 16 (b ∷ bs) 0 + 2 ^ 128) * r % p130) (drop 16 (b ∷ bs))

-- The tag of the RFC, as a number: the data, the ciphertext and the block of the two lengths.
unfoldable pub rfc_tag : List ℕ → List ℕ → List ℕ → ℕ
rfc_tag otk aad ciphertext =
    let r = bit_and (le_value 16 otk 0) clamp_mask in
    let acc = rfc_poly (length ciphertext) r (rfc_poly (length aad) r 0 aad) ciphertext in
    let lens = length aad + length ciphertext * 2 ^ 64 in
    ((acc + lens + 2 ^ 128) * r % p130 + le_value 16 otk 16) % 2 ^ 128

-- The state holds `r` and `pad` as given, and an accumulator that is `acc` modulo 2 ^ 130 - 5.
abbrev pub Holds : PolyState → PolyState → ℕ → Type 0
Holds st0 st acc =
    (st.r ≡ st0.r) × (st.pad ≡ st0.pad) × IsReduced st.h × (value st.h % p130 ≡ acc % p130)

blocks_from-short :
    (fuel : ℕ) (r h : Limbs) (p : List ℕ) (hibit : ℕ)
    → length p < 16
    → blocks_from fuel r h p hibit ≡ h
unfolding blocks_from
blocks_from-short zero r h p hibit l = refl
blocks_from-short (suc fuel) r h p hibit l = ground arith

blocks_from-one :
    (fuel : ℕ) (r h : Limbs) (p : List ℕ) (hibit : ℕ)
    → length p ≡ 16
    → blocks_from (suc fuel) r h p hibit ≡ block_step r h p hibit
unfolding blocks_from
blocks_from-one fuel r h p hibit e = rw e (
    blocks_from-short fuel r (block_step r h p hibit) (drop 16 p) hibit
      (omega (arith, length-drop 16 p)))

poly1305_blocks-one :
    (st : PolyState) (p : List ℕ)
    → length p ≡ 16
    → poly1305_blocks st p false
      ≡ record { r = st.r; h = block_step st.r st.h p (2 ^ 24); pad = st.pad }
unfolding poly1305_blocks
poly1305_blocks-one st p e =
    ap (λ h. record { r = st.r; h = h; pad = st.pad })
      (ap (λ n. blocks_from n st.r st.h p (2 ^ 24)) e ∙ blocks_from-one 15 st.r st.h p (2 ^ 24) e)

mod_times : (a b c r : ℕ) → a % p130 ≡ b % p130 → (a + c) * r % p130 ≡ (b + c) * r % p130
mod_times a b c r e =
    sym (add-mul-mod_self_right ((a + c) * r) (b / p130 * r) p130)
    ∙ ap (λ (t : ℕ). t % p130)
        (let f : (a + c) * r + b / p130 * r * p130 ≡ (b + c) * r + a / p130 * r * p130 = omega (
          arith,
          ap (λ (t : ℕ). t * r)
              (let g : a + b / p130 * p130 ≡ b + a / p130 * p130 = omega (arith, e) in g),
        ) in
          f)
    ∙ add-mul-mod_self_right ((b + c) * r) (a / p130 * r) p130

rfc_poly-nil : (fuel r acc : ℕ) → rfc_poly fuel r acc [] ≡ acc
unfolding rfc_poly
rfc_poly-nil zero r acc = refl
rfc_poly-nil (suc fuel) r acc = refl

rfc_poly-last :
    (fuel r acc : ℕ) (xs : List ℕ) → length xs ≤ 16 → rfc_poly fuel r acc (drop 16 xs) ≡ acc
rfc_poly-last fuel r acc xs h =
    ap (rfc_poly fuel r acc) (drop-beyond 16 xs h) ∙ rfc_poly-nil fuel r acc

module _ (st0 : PolyState) (narrow : IsNarrow st0.r) where
  -- One block keeps the accumulator in step with the polynomial.
  poly1305_blocks-Holds :
      (st : PolyState) (acc : ℕ) (p : List ℕ)
      → length p ≡ 16
      → All IsByte p
      → Holds st0 st acc
      → Holds st0
          (poly1305_blocks st p false)
          ((acc + (le_value 16 p 0 + 2 ^ 128)) * value st0.r % p130)
  poly1305_blocks-Holds st acc p l b (e, f, g, k) =
      subst (λ t. Holds st0 t ((acc + (le_value 16 p 0 + 2 ^ 128)) * value st0.r % p130))
        (sym (poly1305_blocks-one st p l))
        (
          e,
          f,
          block_step-IsReduced st.r st.h p (subst IsNarrow (sym e) narrow) g b,
          block_step-value st.r st.h p (subst IsNarrow (sym e) narrow) g b
              ∙ ap₂ (λ (t u : ℕ). t * u % p130)
                  (let q : value st.h + le_value 16 p 0 + 2 ^ 128
                        ≡ value st.h + (le_value 16 p 0 + 2 ^ 128) =
                      omega arith in
                    q)
                  (ap value e)
              ∙ mod_times (value st.h) acc (le_value 16 p 0 + 2 ^ 128) (value st0.r) k
              ∙ omega arith,
        )

  block_of :
      (st : PolyState) (acc : ℕ) (p xs : List ℕ)
      → length p ≡ 16
      → All IsByte p
      → le_value 16 p 0 ≡ le_value 16 xs 0
      → Holds st0 st acc
      → Holds st0
          (poly1305_blocks st p false)
          ((acc + le_value 16 xs 0 + 2 ^ 128) * value st0.r % p130)
  block_of st acc p xs l b e h =
      subst (λ (t : ℕ). Holds st0 (poly1305_blocks st p false) (t * value st0.r % p130))
        (let f : acc + (le_value 16 p 0 + 2 ^ 128) ≡ acc + le_value 16 xs 0 + 2 ^ 128 =
            omega (arith, e) in
          f)
        (poly1305_blocks-Holds st acc p l b h)

  feed_padded-Holds :
      (fuel : ℕ) (st : PolyState) (acc : ℕ) (xs : List ℕ)
      → length xs ≤ fuel
      → All IsByte xs
      → Holds st0 st acc
      → Holds st0 (feed_padded fuel st xs) (rfc_poly fuel (value st0.r) acc xs)
  unfolding feed_padded rfc_poly
  feed_padded-Holds zero st acc [] l b h = h
  feed_padded-Holds zero st acc (x ∷ xs) l b h = absurd (omega arith)
  feed_padded-Holds (suc fuel) st acc [] l b h = h
  feed_padded-Holds (suc fuel) st acc (x ∷ xs) l b h =
      let next : ℕ = (acc + le_value 16 (x ∷ xs) 0 + 2 ^ 128) * value st0.r % p130 in
      elim (Bool-cases (leb 16 (length (x ∷ xs)))) [
        | inl e ↦ rw e (
            feed_padded-Holds fuel (poly1305_blocks st (take 16 (x ∷ xs)) false) next
              (drop 16 (x ∷ xs)) (omega (arith, length-drop 16 (x ∷ xs)))
              (drop-IsByte 16 (x ∷ xs) b)
              (block_of st acc (take 16 (x ∷ xs)) (x ∷ xs)
                (omega (arith, length-take 16 (x ∷ xs), leb→le 16 (length (x ∷ xs)) e))
                (take-IsByte 16 (x ∷ xs) b) (le_value-take 16 16 0 (x ∷ xs) (omega arith)) h))
        | inr e ↦
            let short : length (x ∷ xs) < 16 = ground arith in
            let pad : List ℕ = replicate (16 - length (x ∷ xs)) 0 in
            rw e (
              subst (Holds st0 (poly1305_blocks st ((x ∷ xs) ++ pad) false))
                (sym (rfc_poly-last fuel (value st0.r) next (x ∷ xs) (omega arith)))
                (block_of st acc ((x ∷ xs) ++ pad) (x ∷ xs)
                  (omega (
                    arith,
                    length-append (x ∷ xs) pad,
                    length-replicate {A = ℕ} (16 - length (x ∷ xs)) 0,
                  ))
                  (All-append IsByte (x ∷ xs) pad b (zeros-IsByte (16 - length (x ∷ xs))))
                  (le_value-pad 16 (16 - length (x ∷ xs)) 0 (x ∷ xs)) h))
      ]

store32_le-IsByte : (v : ℕ) → All IsByte (store32_le v)
store32_le-IsByte v = (omega arith, (omega arith, (omega arith, (omega arith, tt))))

store64_le-IsByte : (v : ℕ) → All IsByte (store64_le v)
unfolding store64_le
store64_le-IsByte v =
    All-append IsByte (store32_le (v % 2 ^ 32)) (store32_le (v / 2 ^ 32 % 2 ^ 32))
      (store32_le-IsByte (v % 2 ^ 32)) (store32_le-IsByte (v / 2 ^ 32 % 2 ^ 32))

store64_le-value :
    (v w : ℕ)
    → v < 2 ^ 64
    → w < 2 ^ 64
    → le_value 16 (store64_le v ++ store64_le w) 0 ≡ v + w * 2 ^ 64
unfolding store64_le
store64_le-value v w h k = omega (
  arith,
  word_bytes (v % 2 ^ 32) (omega arith),
  word_bytes (v / 2 ^ 32 % 2 ^ 32) (omega arith),
  word_bytes (w % 2 ^ 32) (omega arith),
  word_bytes (w / 2 ^ 32 % 2 ^ 32) (omega arith),
)

length-lens : (v w : ℕ) → length (store64_le v ++ store64_le w) ≡ 16
unfolding store64_le
length-lens v w = refl

last_block :
    (a l r s : ℕ)
    → ((a + (l + 2 ^ 128)) * r % p130 % p130 + s) % 2 ^ 128
      ≡ ((a + l + 2 ^ 128) * r % p130 + s) % 2 ^ 128
last_block a l r s = omega arith

-- The tag that the code computes in limbs of 26 bits is the tag of RFC 8439, as a number of 16 bytes
-- with the least significant first, for a key, data and a ciphertext of bytes shorter than 2^64.
pub aead_poly1305_tag-rfc :
    (otk aad ciphertext : List ℕ)
    → All IsByte otk
    → All IsByte aad
    → All IsByte ciphertext
    → length aad < 2 ^ 64
    → length ciphertext < 2 ^ 64
    → le_value 16 (aead_poly1305_tag otk aad ciphertext) 0 ≡ rfc_tag otk aad ciphertext
unfolding aead_poly1305_tag rfc_tag
aead_poly1305_tag-rfc otk aad ciphertext ob ab cb la lc =
    let st0 = poly1305_init otk in
    let r = bit_and (le_value 16 otk 0) clamp_mask in
    let narrow = poly1305_init-IsNarrow otk ob in
    let st1 = feed_padded (length aad) st0 aad in
    let st2 = feed_padded (length ciphertext) st1 ciphertext in
    let acc1 = rfc_poly (length aad) (value st0.r) 0 aad in
    let acc2 = rfc_poly (length ciphertext) (value st0.r) acc1 ciphertext in
    let lens : List ℕ = store64_le (length aad) ++ store64_le (length ciphertext) in
    let zero_acc : value st0.h ≡ 0 = poly1305_init-zero otk in
    let h1 : Holds st0 st1 acc1 =
      feed_padded-Holds st0 narrow (length aad) st0 0 aad (omega arith) ab
        (refl, refl, poly1305_init-IsReduced otk ob, ap (λ (t : ℕ). t % p130) zero_acc) in
    let h2 : Holds st0 st2 acc2 =
      feed_padded-Holds st0 narrow (length ciphertext) st1 acc1 ciphertext (omega arith) cb h1 in
    let (e3, f3, g3, k3) =
      poly1305_blocks-Holds st0 narrow st2 acc2 lens (length-lens (length aad) (length ciphertext))
        (All-append IsByte (store64_le (length aad)) (store64_le (length ciphertext))
          (store64_le-IsByte (length aad)) (store64_le-IsByte (length ciphertext)))
        h2 in
    let (words, pad) = poly1305_init-pad otk ob in
    poly1305_final-value (poly1305_blocks st2 lens false) g3 (subst AreWords (sym f3) words)
    ∙ ap₂ (λ (t u : ℕ). (t + u) % 2 ^ 128) k3 (ap words_value f3 ∙ pad)
    ∙ last_block acc2 (le_value 16 lens 0) (value st0.r) (le_value 16 otk 16)
    ∙ ap₂
        (λ (l x : ℕ).
          ((rfc_poly (length ciphertext) x (rfc_poly (length aad) x 0 aad) ciphertext + l + 2 ^ 128)
              * x
              % p130
            + le_value 16 otk 16)
          % 2 ^ 128)
        (store64_le-value (length aad) (length ciphertext) la lc) (poly1305_init-value otk ob)
