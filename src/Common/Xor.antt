-- ===== src/Common/Xor.antt =====
-- C's `^`, and masks of low bits, as arithmetic on binary digits.
use Prim.Native.Nat.{ℕ, zero, suc, ◌+◌, ◌-◌, ◌*◌, ◌/◌, ◌%◌, ◌^◌, ◌≤◌, ◌<◌, differ}
use Prim.Native.Nat.{bit_and, bit_or, bit_xor, bit_xor-bitwise}
use mathlib.Core.Path.{◌≡◌, refl, ap, ap₂, sym, ◌∙◌}
use native.Mathlib.Omega.{arith}
use native.Mathlib.Nat.{pow-suc, one-le-pow}
use lemoniscate.Common.Bits.{digits-enough, bit_or-low, bit_and-low, bit_and_zero}

differ_digit : (a b : ℕ) → a < 2 → b < 2 → differ a b ≡ (a + b) % 2
differ_digit zero b h k = omega arith
differ_digit (suc zero) zero h k = refl
differ_digit (suc zero) (suc zero) h k = refl
differ_digit (suc zero) (suc (suc b)) h k = absurd (omega arith)
differ_digit (suc (suc a)) b h k = absurd (omega arith)

pub bit_xor-low : (x y : ℕ) → bit_xor x y ≡ bit_xor (x / 2) (y / 2) * 2 + (x + y) % 2
bit_xor-low zero y = omega (arith, bit_xor-bitwise 0 y, bit_xor-bitwise 0 (y / 2))
bit_xor-low (suc x) y = omega (
  arith,
  bit_xor-bitwise (suc x) y,
  bit_xor-bitwise (suc x / 2) (y / 2),
  differ_digit (suc x % 2) (y % 2) (omega arith) (omega arith),
  digits-enough (λ b. b) differ x (suc x / 2) (suc x / 2) (y / 2) (omega arith) (omega arith),
)

xor_cancel_below : (k x y : ℕ) → x + y ≤ k → bit_xor (bit_xor x y) y ≡ x
xor_cancel_below zero zero zero h = refl
xor_cancel_below zero (suc x) y h = absurd (omega arith)
xor_cancel_below zero zero (suc y) h = absurd (omega arith)
xor_cancel_below (suc k) x y h = omega (
  arith,
  bit_xor-low x y,
  bit_xor-low (bit_xor x y) y,
  ap (λ (t : ℕ). bit_xor t (y / 2))
      (let e : bit_xor x y / 2 ≡ bit_xor (x / 2) (y / 2) = omega (arith, bit_xor-low x y) in e),
  xor_cancel_below k (x / 2) (y / 2) (omega arith),
)

-- The same mask twice gives the value back.
pub xor_cancel : (x y : ℕ) → bit_xor (bit_xor x y) y ≡ x
xor_cancel x y = xor_cancel_below (x + y) x y (omega arith)

pub bit_xor-lt : (k x y : ℕ) → x < 2 ^ k → y < 2 ^ k → bit_xor x y < 2 ^ k
bit_xor-lt zero zero zero h g = omega arith
bit_xor-lt zero (suc x) y h g = absurd (omega arith)
bit_xor-lt zero zero (suc y) h g = absurd (omega arith)
bit_xor-lt (suc k) x y h g = omega (
  arith,
  bit_xor-low x y,
  pow-suc 2 k,
  bit_xor-lt k (x / 2) (y / 2) (omega (arith, pow-suc 2 k)) (omega (arith, pow-suc 2 k)),
)

or_comm_below : (k x y : ℕ) → x + y ≤ k → bit_or x y ≡ bit_or y x
or_comm_below zero zero zero h = refl
or_comm_below zero (suc x) y h = absurd (omega arith)
or_comm_below zero zero (suc y) h = absurd (omega arith)
or_comm_below (suc k) x y h =
    omega (arith, bit_or-low x y, bit_or-low y x, or_comm_below k (x / 2) (y / 2) (omega arith))

pub bit_or_comm : (x y : ℕ) → bit_or x y ≡ bit_or y x
bit_or_comm x y = or_comm_below (x + y) x y (omega arith)

-- `x & (2 ^ k - 1)`: the remainder, given as the one value below `2 ^ k` that leaves a multiple.
pub low_bits : (k q r : ℕ) → r < 2 ^ k → bit_and (q * 2 ^ k + r) (2 ^ k - 1) ≡ r
low_bits zero q r h = omega (arith, bit_and_zero (q * 2 ^ 0 + r))
low_bits (suc k) q r h = omega (
  arith,
  pow-suc 2 k,
  one-le-pow k 2 (omega arith),
  ap (λ (t : ℕ). q * t) (pow-suc 2 k),
  bit_and-low (q * 2 ^ suc k + r) (2 ^ suc k - 1),
  ap₂ bit_and
      (let e : (q * 2 ^ suc k + r) / 2 ≡ q * 2 ^ k + r / 2 =
          omega (arith, pow-suc 2 k, ap (λ (t : ℕ). q * t) (pow-suc 2 k)) in
        e)
      (let e : (2 ^ suc k - 1) / 2 ≡ 2 ^ k - 1 =
          omega (arith, pow-suc 2 k, one-le-pow k 2 (omega arith)) in
        e),
  low_bits k q (r / 2) (omega (arith, pow-suc 2 k)),
)

-- `x & 0x3ffffff` and `x & 0xffffffff`
pub bit_and_26 : (x : ℕ) → bit_and x 0x3ffffff ≡ x % 2 ^ 26
bit_and_26 x = omega (
  arith,
  low_bits 26 (x / 2 ^ 26) (x % 2 ^ 26) (omega arith),
  ap (λ (t : ℕ). bit_and t 0x3ffffff)
      (let e : x / 2 ^ 26 * 2 ^ 26 + x % 2 ^ 26 ≡ x = omega arith in e),
)

pub bit_and_32 : (x : ℕ) → bit_and x 0xffffffff ≡ x % 2 ^ 32
bit_and_32 x = omega (
  arith,
  low_bits 32 (x / 2 ^ 32) (x % 2 ^ 32) (omega arith),
  ap (λ (t : ℕ). bit_and t 0xffffffff)
      (let e : x / 2 ^ 32 * 2 ^ 32 + x % 2 ^ 32 ≡ x = omega arith in e),
)

-- A mask works on the fields by themselves.
pub bit_and_fields :
    (k hi lo mh ml : ℕ)
    → lo < 2 ^ k
    → ml < 2 ^ k
    → bit_and (hi * 2 ^ k + lo) (mh * 2 ^ k + ml) ≡ bit_and hi mh * 2 ^ k + bit_and lo ml
bit_and_fields zero hi lo mh ml h g =
    let a : lo ≡ 0 = omega arith in
    let b : ml ≡ 0 = omega arith in
    ap₂ bit_and (let e : hi * 2 ^ 0 + lo ≡ hi = omega arith in e)
      (let e : mh * 2 ^ 0 + ml ≡ mh = omega arith in e)
    ∙ omega (arith, ap₂ bit_and a b, bit_and_zero 0)
bit_and_fields (suc k) hi lo mh ml h g =
    let e1 = ap (λ (t : ℕ). hi * t) (pow-suc 2 k) in
    let e2 = ap (λ (t : ℕ). mh * t) (pow-suc 2 k) in
    let e3 = ap (λ (t : ℕ). bit_and hi mh * t) (pow-suc 2 k) in
    omega (
      arith,
      pow-suc 2 k,
      e1,
      e2,
      e3,
      bit_and-low (hi * 2 ^ suc k + lo) (mh * 2 ^ suc k + ml),
      bit_and-low lo ml,
      ap₂ bit_and (let e : (hi * 2 ^ suc k + lo) / 2 ≡ hi * 2 ^ k + lo / 2 = omega (arith, e1) in e)
          (let e : (mh * 2 ^ suc k + ml) / 2 ≡ mh * 2 ^ k + ml / 2 = omega (arith, e2) in e),
      bit_and_fields k hi (lo / 2) mh (ml / 2) (omega (arith, pow-suc 2 k))
          (omega (arith, pow-suc 2 k)),
    )

and_le_below : (k x y : ℕ) → y ≤ k → bit_and x y ≤ y
and_le_below zero x zero h = omega (arith, bit_and_zero x)
and_le_below zero x (suc y) h = absurd (omega arith)
and_le_below (suc k) x zero h = omega (arith, bit_and_zero x)
and_le_below (suc k) x (suc y) h =
    omega (arith, bit_and-low x (suc y), and_le_below k (x / 2) (suc y / 2) (omega arith))

pub bit_and_le : (x y : ℕ) → bit_and x y ≤ y
bit_and_le x y = and_le_below y x y (omega arith)

pub bit_xor_self : (x : ℕ) → bit_xor x x ≡ 0
bit_xor_self x = xor_self_below x x (omega arith)
  where
    xor_self_below : (k y : ℕ) → y ≤ k → bit_xor y y ≡ 0
    xor_self_below zero zero h = refl
    xor_self_below zero (suc y) h = absurd (omega arith)
    xor_self_below (suc k) y h =
        omega (arith, bit_xor-low y y, xor_self_below k (y / 2) (omega arith))

pub eq_of_xor : (x y : ℕ) → bit_xor x y ≡ 0 → x ≡ y
eq_of_xor x y e = sym (xor_cancel x y) ∙ ap (λ (t : ℕ). bit_xor t y) e ∙ zero_xor y y (omega arith)
  where
    zero_xor : (k b : ℕ) → b ≤ k → bit_xor 0 b ≡ b
    zero_xor zero zero h = refl
    zero_xor zero (suc b) h = absurd (omega arith)
    zero_xor (suc k) b h = omega (arith, bit_xor-low 0 b, zero_xor k (b / 2) (omega arith))

or_bounds_below : (k x y : ℕ) → x + y ≤ k → x ≤ bit_or x y
or_bounds_below zero zero y h = omega arith
or_bounds_below zero (suc x) y h = absurd (omega arith)
or_bounds_below (suc k) zero y h = omega arith
or_bounds_below (suc k) (suc x) y h =
    omega (arith, bit_or-low (suc x) y, or_bounds_below k (suc x / 2) (y / 2) (omega arith))

pub le_bit_or : (x y : ℕ) → x ≤ bit_or x y
le_bit_or x y = or_bounds_below (x + y) x y (omega arith)
